-- ===== src/Breaker/Calls/Before.antt =====
-- beforeCall, by the state of the breaker.
use leetsheet.Prelude.{ℕ, ◌≡◌, true, false, [], ◌∷◌, ◌++◌, none, some, arith, if◌then◌else◌}
use leetsheet.Prelude.Int.{sub_ℕ, leb_ℤ}
use leetsheet.Prelude.Float.{Float64}
use leetsheet.Breaker.{closed, open_state, half_open, circuit_open, CircuitBreaker, before_call}

module _ {float : Float64} where
  pub before-closed :
      (cb : CircuitBreaker float) (now : ℕ)
      → cb.state ≡ closed
      → before_call float cb now ≡ (cb, none)
  unfolding before_call
  before-closed cb now e = ground arith

  pub before-waiting :
      (cb : CircuitBreaker float) (now : ℕ)
      → cb.state ≡ open_state
      → leb_ℤ cb.cfg.open_timeout (sub_ℕ now cb.opened_at) ≡ false
      → before_call float cb now ≡ (cb, some circuit_open)
  unfolding before_call
  before-waiting cb now e h = ground arith

  pub before-probe :
      (cb : CircuitBreaker float) (now : ℕ)
      → cb.state ≡ half_open
      → cb.probing ≡ false
      → before_call float cb now ≡ (record cb { probing = true }, none)
  unfolding before_call
  before-probe cb now e idle = ground arith

  pub before-elapsed :
      (cb : CircuitBreaker float) (now : ℕ)
      → cb.state ≡ open_state
      → cb.probing ≡ false
      → leb_ℤ cb.cfg.open_timeout (sub_ℕ now cb.opened_at) ≡ true
      → before_call float cb now ≡ (
        record cb {
          state = half_open;
          probing = true;
          fired =
              if cb.cfg.on_state_change
              then cb.fired ++ (cb.name, open_state, half_open) ∷ []
              else cb.fired;
        },
        none,
      )
  unfolding before_call
  before-elapsed cb now e idle h = ground arith
