-- ===== src/Breaker/Concurrent/Stale.antt =====
-- A call that outlives the closed state it was let through by, and returns during a probe.
use leetsheet.Prelude.{
  ℕ, suc, ◌<◌, ◌≡◌, refl, ap, ◌∙◌, true, false, ◌∷◌, [], ◌++◌, none, some, arith, if◌then◌else◌,
}
use leetsheet.Prelude.Int.{pos_part}
use leetsheet.Prelude.Float.{Float64}
use leetsheet.Breaker.{
  open_state, half_open, CircuitBreaker, transition, before_call, conclude, after_call,
}
use leetsheet.Breaker.Concurrent.{System, admit_probe, end_plain, Steps, here, next, IsSound}

module _ (float : Float64) where
  -- The breaker after a failure is reported to it while it is half-open.
  abbrev relapsed : CircuitBreaker float → CircuitBreaker float
  relapsed cb = record cb {
    state = open_state;
    opened_at = 0;
    probing = false;
    fired =
        if cb.cfg.on_state_change
        then cb.fired ++ (cb.name, half_open, open_state) ∷ []
        else cb.fired;
  }

  after-stale_failure :
      (cb : CircuitBreaker float)
      → cb.state ≡ half_open
      → after_call float cb false 0 ≡ some (relapsed cb)
  unfolding after_call
  after-stale_failure cb e = ap (λ st. conclude float st cb false 0) e ∙ ap some moved
    where
      moved : transition float (record cb { probing = false }) open_state 0 ≡ relapsed cb
      moved = ground arith

  -- The breaker once it lets the next probe through.
  abbrev reprobed : CircuitBreaker float → CircuitBreaker float
  reprobed cb = record (relapsed cb) {
    state = half_open;
    probing = true;
    fired =
        if cb.cfg.on_state_change
        then (relapsed cb).fired ++ (cb.name, open_state, half_open) ∷ []
        else (relapsed cb).fired;
  }

  before-second_probe :
      (cb : CircuitBreaker float)
      → 0 < pos_part cb.cfg.open_timeout
      → before_call float (relapsed cb) (pos_part cb.cfg.open_timeout) ≡ (reprobed cb, none)
  unfolding before_call
  before-second_probe cb h = ground arith

  -- While a probe runs, let a call end in failure that a closed breaker had let through. The
  -- breaker takes it for the probe: it opens, and after the timeout lets a second probe through
  -- while the first still runs. (The times are those of a clock that starts at that failure.)
  pub stale_failure_admits_second_probe :
      (s : System float) (n : ℕ)
      → IsSound float s
      → s.breaker.state ≡ half_open
      → s.probes ≡ 1
      → s.plain ≡ suc n
      → (t : System float) × Steps float s t × (t.probes ≡ 2)
  stale_failure_admits_second_probe s n v e one stale = (
    record { breaker = reprobed s.breaker; plain = n; probes = suc s.probes },
    next
        (next here
          (end_plain (relapsed s.breaker) n false 0 stale (after-stale_failure s.breaker e)))
        (admit_probe (reprobed s.breaker) (pos_part s.breaker.cfg.open_timeout)
          (before-second_probe s.breaker v.valid.timeout) refl),
    ap suc one,
  )
