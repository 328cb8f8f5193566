-- ===== src/Breaker/Calls/After.antt =====
-- afterCall in the closed state and after a probe.
use leetsheet.Prelude.{
  ℕ, ◌≡◌, refl, ap, ◌∙◌, Bool, true, false, [], ◌∷◌, ◌++◌, some, arith, if◌then◌else◌, length,
}
use leetsheet.Prelude.Float.{Float64}
use leetsheet.Breaker.Window
use leetsheet.Breaker.Window.Contents as Contents
use leetsheet.Breaker.Window.Contents.{
  contents, push, fails, record_call-total, after, after-IsValid, contents-after, length-contents,
  contents-reset, length-ring-after,
}
use leetsheet.Breaker.{
  closed, open_state, half_open, CircuitBreaker, failure_rate, should_trip, transition, settle,
  conclude, after_call,
}
use leetsheet.Breaker.Invariant.{IsValid}
use leetsheet.Breaker.Calls.{running, tripped, after_probe, trips, call, Ended}

module _ {float : Float64} where
  should_trip-view :
      (cb : CircuitBreaker float)
      → Contents.IsValid cb.win
      → should_trip float cb ≡ trips cb.cfg (contents cb.win)
  unfolding should_trip Window.count failure_rate
  should_trip-view cb v = rw (length-contents v, ← v.counted)

  settle-Ended :
      (cb : CircuitBreaker float) (now : ℕ)
      → cb.state ≡ closed
      → cb.probing ≡ false
      → Contents.IsValid cb.win
      → Ended cb
          (if trips cb.cfg (contents cb.win) then tripped now else running (contents cb.win))
          (settle float cb now)
  unfolding settle
  settle-Ended cb now e idle v = record {
    mode_reached = ground (arith, should_trip-view cb v);
    idle = ground arith;
    same_cfg = ground arith;
    same_size = ground arith;
  }

  pub after-running :
      (cb : CircuitBreaker float) (ok : Bool) (end : ℕ)
      → cb.state ≡ closed
      → cb.probing ≡ false
      → IsValid cb
      → (r : CircuitBreaker float) × (after_call float cb ok end ≡ some r)
        × Ended cb (call cb.cfg (length cb.win.ring) ok end end (running (contents cb.win))).0 r
  unfolding after_call
  after-running cb ok end e idle v =
      let w = after cb.win ok v.window in
      let cb' : CircuitBreaker float = record cb { win = w } in
      let done = settle-Ended cb' end e idle (after-IsValid cb.win ok v.window) in
      (
        settle float cb' end,
        concluded,
        record {
          mode_reached =
              done.mode_reached
              ∙ ap (λ c. if trips cb.cfg c then tripped end else running c)
                  (contents-after cb.win ok v.window);
          idle = done.idle;
          same_cfg = done.same_cfg;
          same_size = done.same_size ∙ length-ring-after cb.win ok v.window;
        },
      )
    where
      concluded :
          after_call float cb ok end
          ≡ some (settle float (record cb { win = after cb.win ok v.window }) end)
      concluded =
          ap (λ st. conclude float st cb ok end) e
          ∙ rw (record_call-total cb.win ok v.window, conclude)

  transition-closed :
      (cb : CircuitBreaker float) (now : ℕ)
      → cb.state ≡ half_open
      → transition float cb closed now ≡ record cb {
        state = closed;
        fired =
            if cb.cfg.on_state_change
            then cb.fired ++ (cb.name, half_open, closed) ∷ []
            else cb.fired;
      }
  unfolding transition
  transition-closed cb now e = ground arith

  pub after-probing :
      (cb : CircuitBreaker float) (ok : Bool) (end : ℕ)
      → cb.state ≡ half_open
      → IsValid cb
      → (r : CircuitBreaker float) × (after_call float cb ok end ≡ some r)
        × Ended cb (after_probe ok end) r
  unfolding after_call Window.reset
  after-probing cb true end e v = (
    _,
    ap (λ st. conclude float st cb true end) e ∙ ap some (transition-closed _ end e),
    record {
      mode_reached = ap running (contents-reset v.window);
      idle = refl;
      same_cfg = refl;
      same_size = refl;
    },
  )
  after-probing cb false end e v = (
    transition float (record cb { probing = false }) open_state end,
    ap (λ st. conclude float st cb false end) e,
    record {
      mode_reached = ground arith;
      idle = ground arith;
      same_cfg = ground arith;
      same_size = ground arith;
    },
  )
