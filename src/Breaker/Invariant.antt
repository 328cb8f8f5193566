-- ===== src/Breaker/Invariant.antt =====
-- The invariant of a breaker, and the functions of breaker.go.
use leetsheet.Prelude.{
  ℕ, ◌<◌, ◌≡◌, refl, Bool, true, false, Option, none, some, arith, inl, inr, Bool-cases,
}
use leetsheet.Prelude.Int.{pos_part}
use leetsheet.Prelude.Float.{Float64}
use leetsheet.Prelude.Text.{Bytes}
use leetsheet.Breaker
use leetsheet.Breaker.Window
use leetsheet.Breaker.Window.Contents.{
  contents, record_call-total, after, after-IsValid, new_window-IsValid, reset-IsValid,
}
use leetsheet.Breaker.Window.Contents as Contents
use leetsheet.Breaker.{
  State, closed, open_state, half_open, state_eq, Config, apply_defaults, CircuitBreaker, new,
  transition, maybe_advance_to_half_open, admit, before_call, settle, conclude, after_call,
  state_of, Refusal, guarded, execute, Reply, is_nil,
}

module _ {float : Float64} where
  -- Every field of a configuration is in range.
  pub record IsUsable (c : Config float) : Type 0 where
    pub window_pos : 0 < pos_part c.window_size
    pub minimum_pos : 0 < pos_part c.minimum_calls
    pub timeout_pos : 0 < pos_part c.open_timeout

  -- applyDefaults keeps each positive size and timeout as given, takes the window size that results
  -- for a minimum that is not positive, makes all three positive, and changes nothing when it is
  -- applied again.
  pub apply_defaults_lem :
      (c : Config float)
      → let d = apply_defaults float c in
        (0 < pos_part c.window_size → d.window_size ≡ c.window_size)
        × (0 < pos_part c.minimum_calls → d.minimum_calls ≡ c.minimum_calls)
        × (pos_part c.minimum_calls ≡ 0 → d.minimum_calls ≡ d.window_size)
        × (0 < pos_part c.open_timeout → d.open_timeout ≡ c.open_timeout)
        × IsUsable d
        × (apply_defaults float d ≡ d)
  unfolding apply_defaults
  apply_defaults_lem c = (
    λ h. ground arith,
    λ h. ground arith,
    λ h. ground arith,
    λ h. ground arith,
    record { window_pos = ground arith; minimum_pos = ground arith; timeout_pos = ground arith },
    again,
  )
    where
      again : apply_defaults float (apply_defaults float c) ≡ apply_defaults float c
      again = ground arith

  pub record IsValid (cb : CircuitBreaker float) : Type 0 where
    pub window : Contents.IsValid cb.win
    pub probe : cb.probing ≡ true → cb.state ≡ half_open
    pub timeout : 0 < pos_part cb.cfg.open_timeout

  pub new-IsValid : (name : Bytes) (c : Config float) → IsValid (new float name c)
  unfolding new
  new-IsValid name c =
      let usable = (apply_defaults_lem c).4 in
      record {
        window = new_window-IsValid _ usable.window_pos;
        probe = λ h. cc;
        timeout = usable.timeout_pos;
      }

  pub transition-IsValid :
      (cb : CircuitBreaker float) (s : State) (now : ℕ)
      → IsValid cb
      → cb.probing ≡ false
      → IsValid (transition float cb s now)
  unfolding transition
  transition-IsValid cb s now v idle = ground arith

  pub advance-IsValid :
      (cb : CircuitBreaker float) (now : ℕ)
      → IsValid cb
      → IsValid (maybe_advance_to_half_open float cb now)
  unfolding maybe_advance_to_half_open
  advance-IsValid cb now v = ground (arith, v)

  admit-IsValid :
      (s : State) (cb : CircuitBreaker float)
      → cb.state ≡ s
      → IsValid cb
      → IsValid (admit float s cb).0
  unfolding admit
  admit-IsValid closed cb e v = v
  admit-IsValid open_state cb e v = v
  admit-IsValid half_open cb e v = ground arith

  pub before_call-IsValid :
      (cb : CircuitBreaker float) (now : ℕ) → IsValid cb → IsValid (before_call float cb now).0
  unfolding before_call
  before_call-IsValid cb now v =
      admit-IsValid (maybe_advance_to_half_open float cb now).state _ refl
        (advance-IsValid cb now v)

  settle-IsValid :
      (cb : CircuitBreaker float) (now : ℕ)
      → cb.probing ≡ false
      → IsValid cb
      → IsValid (settle float cb now)
  unfolding settle
  settle-IsValid cb now idle v = elim (Bool-cases (Breaker.should_trip float cb)) [
    | inl e ↦ rw (e, settle) (transition-IsValid cb open_state now v idle)
    | inr e ↦ rw (e, settle) v
  ]

  conclude-IsValid :
      (s : State) (cb : CircuitBreaker float) (success : Bool) (now : ℕ)
      → cb.state ≡ s
      → IsValid cb
      → (cb' : CircuitBreaker float) × (conclude float s cb success now ≡ some cb') × IsValid cb'
  unfolding conclude
  conclude-IsValid closed cb success now e v = (
    settle float (record cb { win = after cb.win success v.window }) now,
    rw (record_call-total cb.win success v.window, conclude),
    settle-IsValid (record cb { win = after cb.win success v.window }) now (ground arith)
        (record {
          window = after-IsValid cb.win success v.window;
          probe = v.probe;
          timeout = v.timeout;
        }),
  )
  conclude-IsValid open_state cb success now e v = (cb, refl, v)
  conclude-IsValid half_open cb true now e v = (
    _,
    refl,
    transition-IsValid (record cb { probing = false; win = Window.reset cb.win }) closed now
        (record { window = reset-IsValid v.window; probe = λ h. cc; timeout = v.timeout }) refl,
  )
  conclude-IsValid half_open cb false now e v = (
    _,
    refl,
    transition-IsValid (record cb { probing = false }) open_state now
        (record { window = v.window; probe = λ h. cc; timeout = v.timeout }) refl,
  )

  pub after_call-IsValid :
      (cb : CircuitBreaker float) (success : Bool) (now : ℕ)
      → IsValid cb
      → (cb' : CircuitBreaker float) × (after_call float cb success now ≡ some cb') × IsValid cb'
  unfolding after_call
  after_call-IsValid cb success now v = conclude-IsValid cb.state cb success now refl v

  module _ {S E : Type 0} (f : S → S × Option E) where
    guarded-IsValid :
        (verdict : Option Refusal) (cb : CircuitBreaker float) (s : S) (end : ℕ)
        → IsValid cb
        → (r : CircuitBreaker float × S × Reply float E) × (guarded float verdict cb f s end
            ≡ some r)
          × IsValid r.0
    unfolding guarded
    guarded-IsValid (some e) cb s end v = (_, refl, v)
    guarded-IsValid none cb s end v =
        let (cb', e, v') = after_call-IsValid cb (is_nil float (f s).1) end v in
        ((cb', (f s).0, Reply.replied (f s).1), rw e, v')

    -- On a valid breaker Execute does not panic, whatever `f` returns, and leaves it valid.
    pub execute-IsValid :
        (cb : CircuitBreaker float) (s : S) (start end : ℕ)
        → IsValid cb
        → (r : CircuitBreaker float × S × Reply float E) × (execute float cb f s start end ≡ some r)
          × IsValid r.0
    unfolding execute
    execute-IsValid cb s start end v =
        guarded-IsValid (before_call float cb start).1 (before_call float cb start).0 s end
          (before_call-IsValid cb start v)
