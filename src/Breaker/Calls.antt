-- ===== src/Breaker/Calls.antt =====
-- What one call through the breaker does, against a machine that keeps the recent outcomes as a list.
pub mod Before
pub mod After
pub mod Refine
use leetsheet.Prelude.{ℕ, ◌≡◌, Bool, true, false, ◌&&◌, List, [], if◌then◌else◌, ◌==◌, length}
use leetsheet.Prelude.Int.{pos, sub_ℕ, leb_ℤ}
use leetsheet.Prelude.Float.{Float64}
use leetsheet.Breaker.Window
use leetsheet.Breaker.Window.Contents as Contents
use leetsheet.Breaker.Window.Contents.{contents, push, fails}
use leetsheet.Breaker.{State, closed, open_state, half_open, Config, CircuitBreaker}

-- Calls go through and their recent outcomes are kept; or the breaker tripped at a time; or it
-- waits for a probe.
pub data Mode : Type 0 where
  running : List Bool → Mode
  tripped : ℕ → Mode
  recovering : Mode

abbrev pub after_probe : Bool → ℕ → Mode
after_probe ok end = if ok then running [] else tripped end

-- The fraction of failures among some outcomes; 0 for none.
abbrev pub rate : (float : Float64) → List Bool → float.F
rate float c =
    if length c == 0
    then float.zero_float
    else float.quot (float.of_int (fails c)) (float.of_int (length c))

module _ {float : Float64} where
  -- Enough calls, and a failure rate at the threshold or above.
  abbrev pub trips : Config float → List Bool → Bool
  trips cfg c =
      leb_ℤ cfg.minimum_calls (pos (length c)) && float.le cfg.failure_rate_threshold (rate float c)

  -- One call that would succeed or fail as `ok` says, between two times, with a window of `n`
  -- outcomes: the next mode, and whether the call is let through.
  abbrev pub call : Config float → ℕ → Bool → ℕ → ℕ → Mode → Mode × Bool
  call cfg n ok start end (running c) =
      (if trips cfg (push n c ok) then tripped end else running (push n c ok), true)
  call cfg n ok start end (tripped since) =
      if leb_ℤ cfg.open_timeout (sub_ℕ start since)
      then (after_probe ok end, true)
      else (tripped since, false)
  call cfg n ok start end recovering = (after_probe ok end, true)

  abbrev pub view_as : State → CircuitBreaker float → Mode
  view_as closed cb = running (contents cb.win)
  view_as open_state cb = tripped cb.opened_at
  view_as half_open cb = recovering

  abbrev pub view : CircuitBreaker float → Mode
  view cb = view_as cb.state cb

  -- What holds after a call: the view, no probe in flight, and the same configuration.
  pub record Ended (cb : CircuitBreaker float) (mode : Mode) (r : CircuitBreaker float)
      : Type 0 where
    pub mode_reached : view r ≡ mode
    pub idle : r.probing ≡ false
    pub same_cfg : r.cfg ≡ cb.cfg
    pub same_size : length r.win.ring ≡ length cb.win.ring
