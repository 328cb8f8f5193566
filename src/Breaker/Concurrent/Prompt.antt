-- ===== src/Breaker/Concurrent/Prompt.antt =====
-- Callers whose calls return while the breaker is closed, and its probes.
use leetsheet.Prelude.{ℕ, suc, ◌≤◌, ◌≡◌, ◌↔◌, refl, sym, ap, ◌∙◌, Bool, true, false, arith}
use leetsheet.Prelude.Float.{Float64}
use leetsheet.Prelude.Text.{Bytes}
use leetsheet.Breaker.{closed, Config, CircuitBreaker}
use leetsheet.Breaker.Invariant.{IsValid}
use leetsheet.Breaker.Probing.{probing-after}
use leetsheet.Breaker.Concurrent.{
  clash, System, Step, admit_plain, admit_probe, shed, end_plain, end_probe, look, Steps, here,
  next, start, IsSound, before_call-probing_refused, before_call-probing_plain,
  before_call-probing_probe, Step-IsSound, start-IsSound, looked-probing, new-probing,
}

module _ (float : Float64) where
  -- Calls let through by a closed breaker return before another call trips it.
  abbrev pub IsPrompt : {s t : System float} → Step float s t → Type 0
  IsPrompt {s} (end_plain cb n success now e h) = s.breaker.state ≡ closed
  IsPrompt (admit_plain cb now h e) = Unit {0}
  IsPrompt (admit_probe cb now h e) = Unit {0}
  IsPrompt (shed cb now h) = Unit {0}
  IsPrompt (end_probe cb n success now e h) = Unit {0}
  IsPrompt (look now) = Unit {0}

  abbrev pub ArePrompt : {s t : System float} → Steps float s t → Type 0
  ArePrompt here = Unit {0}
  ArePrompt (next r st) = ArePrompt r × IsPrompt st

  -- The flag tells how many probes run.
  pub record IsCounted (s : System float) : Type 0 where
    pub sound : IsSound float s
    pub one : s.breaker.probing ≡ true → s.probes ≡ 1
    pub zero_left : s.breaker.probing ≡ false → s.probes ≡ 0

  closed-idle : (cb : CircuitBreaker float) → IsValid cb → cb.state ≡ closed → cb.probing ≡ false
  closed-idle cb v e = ground arith

  last_probe :
      {s : System float} (b : Bool)
      → s.breaker.probing ≡ b
      → IsCounted s
      → (n : ℕ) → s.probes ≡ suc n
      → n ≡ 0
  last_probe true e v n h = omega (arith, v.one e)
  last_probe false e v n h = absurd (omega (arith, v.zero_left e))

  Step-IsCounted :
      {s t : System float} (st : Step float s t) → IsPrompt st → IsCounted s → IsCounted t
  Step-IsCounted {s} (admit_plain cb now h e) prompt v =
      let same = before_call-probing_plain float s.breaker cb now h e in
      record {
        sound = Step-IsSound float (admit_plain cb now h e) v.sound;
        one = λ p. v.one (sym same ∙ p);
        zero_left = λ p. v.zero_left (sym same ∙ p);
      }
  Step-IsCounted {s} (admit_probe cb now h e) prompt v =
      let (was_idle, now_set) = before_call-probing_probe float s.breaker cb now h e in
      record {
        sound = Step-IsSound float (admit_probe cb now h e) v.sound;
        one = λ p. ap suc (v.zero_left was_idle);
        zero_left = λ p. absurd (clash p now_set);
      }
  Step-IsCounted {s} (shed cb now h) prompt v =
      let same = before_call-probing_refused float s.breaker cb now h in
      record {
        sound = Step-IsSound float (shed cb now h) v.sound;
        one = λ p. v.one (sym same ∙ p);
        zero_left = λ p. v.zero_left (sym same ∙ p);
      }
  Step-IsCounted {s} (end_plain cb n success now e h) prompt v =
      let idle = probing-after float s.breaker cb success now v.sound.valid h in
      record {
        sound = Step-IsSound float (end_plain cb n success now e h) v.sound;
        one = λ p. absurd (clash idle p);
        zero_left = λ p. v.zero_left (closed-idle s.breaker v.sound.valid prompt);
      }
  Step-IsCounted {s} (end_probe cb n success now e h) prompt v =
      let idle = probing-after float s.breaker cb success now v.sound.valid h in
      record {
        sound = Step-IsSound float (end_probe cb n success now e h) v.sound;
        one = λ p. absurd (clash idle p);
        zero_left = λ p. last_probe s.breaker.probing refl v n e;
      }
  Step-IsCounted {s} (look now) prompt v =
      let same = looked-probing float s.breaker now in
      record {
        sound = Step-IsSound float (look now) v.sound;
        one = λ p. v.one (sym same ∙ p);
        zero_left = λ p. v.zero_left (sym same ∙ p);
      }

  start-IsCounted : (name : Bytes) (c : Config float) → IsCounted (start float name c)
  unfolding start
  start-IsCounted name c = record {
    sound = start-IsSound float name c;
    one = λ p. absurd (clash (new-probing float name c) p);
    zero_left = λ p. refl;
  }

  Steps-IsCounted :
      (name : Bytes) (c : Config float) {s : System float} (r : Steps float (start float name c) s)
      → ArePrompt r
      → IsCounted s
  Steps-IsCounted name c here p = start-IsCounted name c
  Steps-IsCounted name c (next r st) p = Step-IsCounted st p.1 (Steps-IsCounted name c r p.0)

  -- If calls that a closed breaker let through return while it is closed, at most one probe runs
  -- at any time, and exactly when the breaker is probing.
  pub prompt_single_probe :
      (name : Bytes) (c : Config float) (s : System float) (r : Steps float (start float name c) s)
      → ArePrompt r
      → (s.probes ≤ 1) × ((s.breaker.probing ≡ true) ↔ (s.probes ≡ 1))
  prompt_single_probe name c s r p = read s.breaker.probing refl (Steps-IsCounted name c r p)
    where
      read :
          (b : Bool)
          → s.breaker.probing ≡ b
          → IsCounted s
          → (s.probes ≤ 1) × ((s.breaker.probing ≡ true) ↔ (s.probes ≡ 1))
      read true e v = (omega (arith, v.one e), (v.one, λ _. e))
      read false e v =
          (omega (arith, v.zero_left e), (v.one, λ h. absurd (omega (arith, v.zero_left e))))
