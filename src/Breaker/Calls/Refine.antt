-- ===== src/Breaker/Calls/Refine.antt =====
-- Execute by one caller, against the machine.
use leetsheet.Prelude.{
  ℕ, ◌≡◌, refl, ap, ◌∙◌, Bool, true, false, Option, none, some, inl, inr, Bool-cases, length,
}
use mathlib.Core.Option
use leetsheet.Prelude.Int.{sub_ℕ, leb_ℤ}
use leetsheet.Prelude.Float.{Float64}
use leetsheet.Breaker.Window.Contents.{contents, after}
use leetsheet.Breaker.{
  State, closed, open_state, half_open, circuit_open, CircuitBreaker, before_call, after_call,
  guarded, execute, Reply, refused, replied, is_nil,
}
use leetsheet.Breaker.Invariant.{IsValid}
use leetsheet.Breaker.Calls.{Mode, running, tripped, recovering, call, view_as, view, Ended}
use leetsheet.Breaker.Calls.Before.{before-closed, before-waiting, before-probe, before-elapsed}
use leetsheet.Breaker.Calls.After.{after-running, after-probing}

module _ {float : Float64} where
  module _ {S E : Type 0} (f : S → S × Option E) where
    -- The world and the reply, by whether the call is let through.
    abbrev pub outcome : Bool → S → S × Reply float E
    outcome true s = ((f s).0, replied (f s).1)
    outcome false s = (s, refused circuit_open)

    execute-permitted :
        (cb cb' r : CircuitBreaker float) (s : S) (start end : ℕ)
        → before_call float cb start ≡ (cb', none)
        → after_call float cb' (is_nil float (f s).1) end ≡ some r
        → execute float cb f s start end ≡ some (r, (f s).0, replied (f s).1)
    unfolding execute
    execute-permitted cb cb' r s start end before after =
        ap (λ p. guarded float p.1 p.0 f s end) before
        ∙ ap (Option.map (λ c. (c, (f s).0, replied (f s).1))) after

    execute-refused :
        (cb : CircuitBreaker float) (s : S) (start end : ℕ)
        → before_call float cb start ≡ (cb, some circuit_open)
        → execute float cb f s start end ≡ some (cb, s, refused circuit_open)
    unfolding execute
    execute-refused cb s start end before = ap (λ p. guarded float p.1 p.0 f s end) before

    abbrev Refines : CircuitBreaker float → S → ℕ → ℕ → Mode → Type 0
    Refines cb s start end from =
        let (mode, through) =
          call cb.cfg (length cb.win.ring) (is_nil float (f s).1) start end from in
        (r : CircuitBreaker float) × (execute float cb f s start end
          ≡ some (r, (outcome through s).0, (outcome through s).1))
        × Ended cb mode r

    module _ (cb : CircuitBreaker float) (s : S) (start end : ℕ) (v : IsValid cb)
        (idle : cb.probing ≡ false) where
      Refines-closed : cb.state ≡ closed → Refines cb s start end (running (contents cb.win))
      Refines-closed e =
          let (r, done, ended) = after-running cb (is_nil float (f s).1) end e idle v in
          (r, execute-permitted cb cb r s start end (before-closed cb start e) done, ended)

      -- The probe, once the breaker is half-open and has let it through.
      Refines-probe :
          (cb' : CircuitBreaker float)
          → before_call float cb start ≡ (cb', none)
          → cb'.state ≡ half_open
          → IsValid cb'
          → cb'.cfg ≡ cb.cfg
          → length cb'.win.ring ≡ length cb.win.ring
          → Refines cb s start end recovering
      Refines-probe cb' before e v' same_cfg same_size =
          let (r, done, ended) = after-probing cb' (is_nil float (f s).1) end e v' in
          (
            r,
            execute-permitted cb cb' r s start end before done,
            record {
              mode_reached = ended.mode_reached;
              idle = ended.idle;
              same_cfg = ended.same_cfg ∙ same_cfg;
              same_size = ended.same_size ∙ same_size;
            },
          )

      Refines-half_open : cb.state ≡ half_open → Refines cb s start end recovering
      Refines-half_open e =
          Refines-probe (record cb { probing = true }) (before-probe cb start e idle) e
            (record { window = v.window; probe = λ _. e; timeout = v.timeout }) refl refl

      Refines-open : cb.state ≡ open_state → Refines cb s start end (tripped cb.opened_at)
      Refines-open e = elim (Bool-cases (leb_ℤ cb.cfg.open_timeout (sub_ℕ start cb.opened_at))) [
        | inl t ↦ rw t (
            Refines-probe _ (before-elapsed cb start e idle t) refl
              (record { window = v.window; probe = λ _. refl; timeout = v.timeout }) refl refl)
        | inr t ↦ rw t (
          cb,
          execute-refused cb s start end (before-waiting cb start e t),
          record {
            mode_reached = ap (λ st. view_as st cb) e;
            idle = idle;
            same_cfg = refl;
            same_size = refl;
          },
        )
      ]

      Refines-by_state : (st : State) → cb.state ≡ st → Refines cb s start end (view_as st cb)
      Refines-by_state closed e = Refines-closed e
      Refines-by_state open_state e = Refines-open e
      Refines-by_state half_open e = Refines-half_open e

    -- Execute by one caller, on a valid breaker with no probe in flight, is the machine's call: it
    -- does not panic, ends in the machine's mode, runs `f` exactly when the machine lets the call
    -- through, returns what `f` returned and otherwise ErrCircuitOpen with the world untouched, and
    -- leaves no probe in flight, the configuration and the window size as they were.
    pub execute_refines :
        (cb : CircuitBreaker float) (s : S) (start end : ℕ)
        → IsValid cb
        → cb.probing ≡ false
        → let (mode, through) =
            call cb.cfg (length cb.win.ring) (is_nil float (f s).1) start end (view cb) in
          (r : CircuitBreaker float) × (execute float cb f s start end
            ≡ some (r, (outcome through s).0, (outcome through s).1))
          × Ended cb mode r
    execute_refines cb s start end v idle = Refines-by_state cb s start end v idle cb.state refl
