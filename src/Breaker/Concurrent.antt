-- ===== src/Breaker/Concurrent.antt =====
-- Many callers of one breaker: the calls in flight between beforeCall and afterCall.
pub mod Prompt
pub mod Stale
use leetsheet.Prelude.{
  ℕ, zero, suc, ◌+◌, ◌≤◌, ◌<◌, ◌≡◌, ◌↔◌, refl, sym, ap, ◌∙◌, Bool, true, false, Option, none, some,
  arith, inl, inr, Bool-cases, Option-cases, some-eq,
}
use mathlib.Core.Path.{subst}
use leetsheet.Prelude.Int.{leb_ℤ, sub_ℕ, pos_part}
use leetsheet.Prelude.Float.{Float64}
use leetsheet.Prelude.Text.{Bytes}
use leetsheet.Breaker.{
  closed, open_state, half_open, Refusal, circuit_open, Config, CircuitBreaker, new, state_eq,
  transition, maybe_advance_to_half_open, admit, before_call, settle, conclude, after_call,
  state_of,
}
use leetsheet.Breaker.Window.{record_call}
use leetsheet.Breaker.Invariant.{
  IsValid, new-IsValid, before_call-IsValid, after_call-IsValid, advance-IsValid,
}
use leetsheet.Breaker.Probing.{
  admit-refused, admit-plain, admit-probe, probing-advance, probing-after,
}

pub clash : {b : Bool} → b ≡ false → b ≡ true → ⊥
clash e h = cc

module _ (float : Float64) where
  -- `plain` calls were let through by a closed breaker and `probes` by a half-open one; all are
  -- still running.
  pub record System : Type 0 where
    pub breaker : CircuitBreaker float
    pub plain : ℕ
    pub probes : ℕ

  -- What can happen next. A call may end with success or failure at any time.
  pub data Step (s : System) : System → Type 0 where
    admit_plain :
        (cb : CircuitBreaker float) (now : ℕ)
        → before_call float s.breaker now ≡ (cb, none)
        → cb.state ≡ closed
        → Step s (record { breaker = cb; plain = suc s.plain; probes = s.probes })
    admit_probe :
        (cb : CircuitBreaker float) (now : ℕ)
        → before_call float s.breaker now ≡ (cb, none)
        → cb.state ≡ half_open
        → Step s (record { breaker = cb; plain = s.plain; probes = suc s.probes })
    shed :
        (cb : CircuitBreaker float) (now : ℕ)
        → before_call float s.breaker now ≡ (cb, some circuit_open)
        → Step s (record s { breaker = cb })
    end_plain :
        (cb : CircuitBreaker float) (n : ℕ) (success : Bool) (now : ℕ)
        → s.plain ≡ suc n
        → after_call float s.breaker success now ≡ some cb
        → Step s (record { breaker = cb; plain = n; probes = s.probes })
    end_probe :
        (cb : CircuitBreaker float) (n : ℕ) (success : Bool) (now : ℕ)
        → s.probes ≡ suc n
        → after_call float s.breaker success now ≡ some cb
        → Step s (record { breaker = cb; plain = s.plain; probes = n })
    look : (now : ℕ) → Step s (record s { breaker = (state_of float s.breaker now).0 })

  pub data Steps (s : System) : System → Type 0 where
    here : Steps s s
    next : {t u : System} → Steps s t → Step t u → Steps s u

  unfoldable pub start : Bytes → Config float → System
  start name c = record { breaker = new float name c; plain = 0; probes = 0 }

  pub record IsSound (s : System) : Type 0 where
    pub valid : IsValid s.breaker
    pub attended : s.breaker.probing ≡ true → 0 < s.probes

  pub before_call-probing_refused :
      (cb cb' : CircuitBreaker float) (now : ℕ)
      → before_call float cb now ≡ (cb', some circuit_open)
      → cb'.probing ≡ cb.probing
  unfolding before_call
  before_call-probing_refused cb cb' now h =
      admit-refused float (maybe_advance_to_half_open float cb now).state
        (maybe_advance_to_half_open float cb now) cb' h
      ∙ probing-advance float cb now

  pub before_call-probing_plain :
      (cb cb' : CircuitBreaker float) (now : ℕ)
      → before_call float cb now ≡ (cb', none)
      → cb'.state ≡ closed
      → cb'.probing ≡ cb.probing
  unfolding before_call
  before_call-probing_plain cb cb' now h e =
      admit-plain float (maybe_advance_to_half_open float cb now).state
        (maybe_advance_to_half_open float cb now) cb' refl h e
      ∙ probing-advance float cb now

  pub before_call-probing_probe :
      (cb cb' : CircuitBreaker float) (now : ℕ)
      → before_call float cb now ≡ (cb', none)
      → cb'.state ≡ half_open
      → (cb.probing ≡ false) × (cb'.probing ≡ true)
  unfolding before_call
  before_call-probing_probe cb cb' now h e =
      let (idle, set) =
        admit-probe float (maybe_advance_to_half_open float cb now).state
          (maybe_advance_to_half_open float cb now) cb' refl h e in
      (sym (probing-advance float cb now) ∙ idle, set)

  permitted-IsValid :
      (cb cb' : CircuitBreaker float) (now : ℕ) {verdict : Option Refusal}
      → IsValid cb
      → before_call float cb now ≡ (cb', verdict)
      → IsValid cb'
  permitted-IsValid cb cb' now v h = subst (λ p. IsValid p.0) h (before_call-IsValid cb now v)

  ended-IsValid :
      (cb cb' : CircuitBreaker float) (success : Bool) (now : ℕ)
      → IsValid cb
      → after_call float cb success now ≡ some cb'
      → IsValid cb'
  ended-IsValid cb cb' success now v h =
      let (r, e, v') = after_call-IsValid cb success now v in subst IsValid (some-eq (sym e ∙ h)) v'

  pub new-probing : (name : Bytes) (c : Config float) → (new float name c).probing ≡ false
  unfolding new
  new-probing name c = refl

  pub looked-IsValid :
      (cb : CircuitBreaker float) (now : ℕ) → IsValid cb → IsValid (state_of float cb now).0
  unfolding state_of
  looked-IsValid cb now v = advance-IsValid cb now v

  pub looked-probing :
      (cb : CircuitBreaker float) (now : ℕ) → (state_of float cb now).0.probing ≡ cb.probing
  unfolding state_of
  looked-probing cb now = probing-advance float cb now

  pub Step-IsSound : {s t : System} → Step s t → IsSound s → IsSound t
  Step-IsSound {s} (admit_plain cb now h e) v = record {
    valid = permitted-IsValid s.breaker cb now v.valid h;
    attended = λ p. v.attended (sym (before_call-probing_plain s.breaker cb now h e) ∙ p);
  }
  Step-IsSound {s} (admit_probe cb now h e) v = record {
    valid = permitted-IsValid s.breaker cb now v.valid h;
    attended = λ p. omega arith;
  }
  Step-IsSound {s} (shed cb now h) v = record {
    valid = permitted-IsValid s.breaker cb now v.valid h;
    attended = λ p. v.attended (sym (before_call-probing_refused s.breaker cb now h) ∙ p);
  }
  Step-IsSound {s} (end_plain cb n success now e h) v = record {
    valid = ended-IsValid s.breaker cb success now v.valid h;
    attended = λ p. absurd (clash (probing-after float s.breaker cb success now v.valid h) p);
  }
  Step-IsSound {s} (end_probe cb n success now e h) v = record {
    valid = ended-IsValid s.breaker cb success now v.valid h;
    attended = λ p. absurd (clash (probing-after float s.breaker cb success now v.valid h) p);
  }
  Step-IsSound {s} (look now) v = record {
    valid = looked-IsValid s.breaker now v.valid;
    attended = λ p. v.attended (sym (looked-probing s.breaker now) ∙ p);
  }

  pub start-IsSound : (name : Bytes) (c : Config float) → IsSound (start name c)
  unfolding start
  start-IsSound name c = record {
    valid = new-IsValid name c;
    attended = λ p. absurd (clash (new-probing name c) p);
  }

  -- However calls interleave, the breaker stays valid, and its probing flag is set only while some
  -- probe is still running: once every call has returned, the next probe is not shed.
  pub Steps-IsSound :
      (name : Bytes) (c : Config float) (s : System) → Steps (start name c) s → IsSound s
  Steps-IsSound name c s r = go r
    where
      go : {s : System} → Steps (start name c) s → IsSound s
      go here = start-IsSound name c
      go (next r st) = Step-IsSound st (go r)
