-- ===== src/Breaker.antt =====
-- system-design/circuit-breaker/breaker.go: the breaker over its sliding window (window.go, in
-- `Window`). Each call of `time.Now()` is an argument, in nanoseconds; the mutex makes each of the
-- functions below one step. A function that can panic returns an option, with `none` for the panic.
pub mod Window
pub mod Invariant
pub mod Machine
pub mod Calls
mod Probing
pub mod Concurrent
mod Tests
use leetsheet.Prelude.{
  ℕ, ◌*◌, Bool, true, false, ◌&&◌, List, [], ◌∷◌, ◌++◌, Option, none, some, ◌==◌, if◌then◌else◌,
}
use mathlib.Core.Option
use leetsheet.Prelude.Int.{ℤ, pos, pos_part, sub_ℕ, leb_ℤ}
use leetsheet.Prelude.Text.{Bytes, codes}
use leetsheet.Prelude.Float.{Float64}
use leetsheet.Breaker.Window.{new_window, record_call, count, reset}

pub data State : Type 0 where
  closed open_state half_open : State

pub state_eq : State → State → Bool
state_eq closed closed = true
state_eq open_state open_state = true
state_eq half_open half_open = true
state_eq _ _ = false

-- State.String. The type has no other values, so the default case is left out.
pub to_string : State → Bytes
to_string closed = codes "closed"
to_string open_state = codes "open"
to_string half_open = codes "half-open"

-- ErrCircuitOpen
pub data Refusal : Type 0 where
  circuit_open : Refusal

abbrev second : ℕ
second = 1_000_000_000

module _ (float : Float64) where
  open float use {F, of_int, quot, le, zero_float, half}

  -- `on_state_change` says whether the callback is set.
  pub record Config : Type 0 where
    pub window_size : ℤ
    pub failure_rate_threshold : F
    pub minimum_calls : ℤ
    pub open_timeout : ℤ
    pub on_state_change : Bool

  -- The third test reads the window size that the first has just set.
  pub apply_defaults : Config → Config
  apply_defaults c =
      let size = if leb_ℤ c.window_size (pos 0) then pos 10 else c.window_size in
      record c {
        window_size = size;
        failure_rate_threshold =
            if le c.failure_rate_threshold zero_float then half else c.failure_rate_threshold;
        minimum_calls = if leb_ℤ c.minimum_calls (pos 0) then size else c.minimum_calls;
        open_timeout = if leb_ℤ c.open_timeout (pos 0) then pos (60 * second) else c.open_timeout;
      }

  -- `fired` lists the callbacks that were launched, oldest first: name, from, to.
  pub record CircuitBreaker : Type 0 where
    pub name : Bytes
    pub cfg : Config
    pub state : State
    pub win : Window.Window
    pub opened_at : ℕ
    pub probing : Bool
    pub fired : List (Bytes × State × State)

  -- New. The defaults make the window size positive, so `make` does not panic.
  pub new : Bytes → Config → CircuitBreaker
  unfolding apply_defaults
  new name cfg = record {
    name = name;
    cfg = apply_defaults cfg;
    state = closed;
    win = new_window (pos_part (apply_defaults cfg).window_size);
    opened_at = 0;
    probing = false;
    fired = [];
  }

  pub failure_rate : Window.Window → F
  failure_rate w = if w.total == 0 then zero_float else quot (of_int w.failures) (of_int w.total)

  pub should_trip : CircuitBreaker → Bool
  unfolding failure_rate count
  should_trip cb =
      leb_ℤ cb.cfg.minimum_calls (pos (count cb.win))
      && le cb.cfg.failure_rate_threshold (failure_rate cb.win)

  pub transition : CircuitBreaker → State → ℕ → CircuitBreaker
  unfolding state_eq
  transition cb new_state now = if state_eq cb.state new_state then cb else record cb {
    state = new_state;
    opened_at = if state_eq new_state open_state then now else cb.opened_at;
    fired =
        if cb.cfg.on_state_change
        then cb.fired ++ (cb.name, cb.state, new_state) ∷ []
        else cb.fired;
  }

  pub maybe_advance_to_half_open : CircuitBreaker → ℕ → CircuitBreaker
  unfolding transition state_eq
  maybe_advance_to_half_open cb now =
      if state_eq cb.state open_state && leb_ℤ cb.cfg.open_timeout (sub_ℕ now cb.opened_at)
      then transition cb half_open now
      else cb

  -- The switch of beforeCall, on the state that maybeAdvanceToHalfOpen leaves. `none` is nil.
  pub admit : State → CircuitBreaker → CircuitBreaker × Option Refusal
  admit closed cb = (cb, none)
  admit open_state cb = (cb, some circuit_open)
  admit half_open cb =
      if cb.probing then (cb, some circuit_open) else (record cb { probing = true }, none)

  pub before_call : CircuitBreaker → ℕ → CircuitBreaker × Option Refusal
  unfolding admit maybe_advance_to_half_open
  before_call cb now =
      let advanced = maybe_advance_to_half_open cb now in admit advanced.state advanced

  -- What afterCall does in StateClosed once the outcome is recorded.
  pub settle : CircuitBreaker → ℕ → CircuitBreaker
  unfolding should_trip transition
  settle cb now = if should_trip cb then transition cb open_state now else cb

  -- The switch of afterCall.
  pub conclude : State → CircuitBreaker → Bool → ℕ → Option CircuitBreaker
  unfolding settle transition
  conclude closed cb success now = elim (record_call cb.win success) [
    | none ↦ none
    | some w ↦ some (settle (record cb { win = w }) now)
  ]
  conclude open_state cb success now = some cb
  conclude half_open cb success now =
      let idle = record cb { probing = false } in
      some (
        if success
        then transition (record idle { win = reset cb.win }) closed now
        else transition idle open_state now)

  pub after_call : CircuitBreaker → Bool → ℕ → Option CircuitBreaker
  unfolding conclude
  after_call cb success now = conclude cb.state cb success now

  -- State(): the advanced breaker and its state.
  pub state_of : CircuitBreaker → ℕ → CircuitBreaker × State
  unfolding maybe_advance_to_half_open
  state_of cb now = let cb' = maybe_advance_to_half_open cb now in (cb', cb'.state)

  pub record Metrics : Type 0 where
    pub state : State
    pub total_calls : ℕ
    pub failures : ℕ
    pub failure_rate : F

  pub metrics : CircuitBreaker → Metrics
  unfolding count
  metrics cb = record {
    state = cb.state;
    total_calls = count cb.win;
    failures = cb.win.failures;
    failure_rate = failure_rate cb.win;
  }

  -- What Execute returns: its own refusal, or the result of `f`, unchanged.
  pub data Reply (E : Type 0) : Type 0 where
    refused : Refusal → Reply E
    replied : Option E → Reply E

  -- Whether the error is nil.
  pub is_nil {ℓ} : {E : Type ℓ} → Option E → Bool
  is_nil none = true
  is_nil (some e) = false

  module _ {S E : Type 0} where
    -- Execute once beforeCall has answered: `none` permits the call.
    pub guarded :
        Option Refusal
        → CircuitBreaker
        → (f : S → S × Option E) → S
        → ℕ
        → Option (CircuitBreaker × S × Reply E)
    unfolding after_call is_nil
    guarded (some e) cb f s end = some (cb, s, refused e)
    guarded none cb f s end =
        Option.map (λ cb'. (cb', (f s).0, replied (f s).1)) (after_call cb (is_nil (f s).1) end)

    -- Execute by one caller. `f` acts on the world `s`; it is entered at `start` and left at `end`.
    pub execute :
        CircuitBreaker → (f : S → S × Option E) → S → ℕ → ℕ → Option (CircuitBreaker × S × Reply E)
    unfolding before_call guarded
    execute cb f s start end =
        let (cb', verdict) = before_call cb start in guarded verdict cb' f s end
