-- ===== src/Breaker/Tests.antt =====
-- The breaker at concrete inputs: percentages stand for Go's floats.
use leetsheet.Prelude.{
  ℕ, zero, suc, ◌*◌, ◌/◌, ◌≤◌, ◌≡◌, ◌↔◌, refl, Bool, true, false, List, [], ◌∷◌, Option, none, some,
  arith, min, leb, length,
}
use leetsheet.Prelude.Int.{pos}
use leetsheet.Prelude.Text.{Bytes, codes}
use leetsheet.Prelude.Float.{Float64}
use leetsheet.Breaker.{
  closed, open_state, half_open, Config, CircuitBreaker, new, before_call, after_call, execute,
  is_nil,
}
use leetsheet.Breaker.Window.{Window, new_window, overwrite, record_call, count}
use leetsheet.Breaker.Window.Contents.{contents, fails}
use leetsheet.Breaker.Window.History.{record_all, last_n, record_all_keeps_last}
use leetsheet.Breaker.Invariant.{new-IsValid}
use leetsheet.Breaker.Machine.{Reach, fresh, event, entered, IsTraced, Reach-IsTraced}
use leetsheet.Breaker.Calls.{call, view, Ended}
use leetsheet.Breaker.Calls.Refine.{outcome, execute_refines}
use leetsheet.Breaker.Concurrent.{
  System, admit_plain, admit_probe, end_plain, Steps, here, next, start, IsSound, Steps-IsSound,
}
use leetsheet.Breaker.Concurrent.Prompt.{prompt_single_probe}
use leetsheet.Breaker.Concurrent.Stale.{stale_failure_admits_second_probe}

abbrev percent : Float64
percent = record {
  F = ℕ;
  of_int = λ n. n;
  quot = λ a b. a * 100 / b;
  le = leb;
  zero_float = 0;
  half = 50;
}

-- One failure trips it; it stays open for five units of time.
abbrev config : Config percent
config = record {
  window_size = pos 2;
  failure_rate_threshold = 50;
  minimum_calls = pos 1;
  open_timeout = pos 5;
  on_state_change = true;
}

abbrev payments : Bytes
payments = codes "pay"

abbrev breaker : CircuitBreaker percent
unfolding new
breaker = new percent payments config

-- A call that counts itself and fails at the first attempt.
abbrev flaky : ℕ → ℕ × Option Bytes
flaky zero = (1, some (codes "down"))
flaky (suc n) = (n, none)

abbrev history : List Bool
history = true ∷ false ∷ false ∷ []

record_all_keeps_last_example :
    (w : Window) × (record_all (new_window 2) history ≡ some w)
    × (contents w ≡ last_n 2 history)
    × (count w ≡ min 2 (length history))
    × (w.failures ≡ fails (last_n 2 history))
record_all_keeps_last_example = record_all_keeps_last 2 history (omega arith)

execute_refines_example :
    let (mode, through) = call config 2 false 10 20 (view breaker) in
    (r : CircuitBreaker percent) × (execute percent breaker flaky 0 10 20
      ≡ some (
        r,
        (outcome {float = percent} flaky through 0).0,
        (outcome {float = percent} flaky through 0).1,
      ))
    × Ended breaker mode r
unfolding new new_window is_nil
execute_refines_example = execute_refines flaky breaker 0 10 20 (new-IsValid payments config) refl

tripped_trace : Reach payments config ((before_call percent breaker 3).0)
unfolding new
tripped_trace = event fresh (entered 3 refl)

Reach-IsTraced_example : IsTraced ((before_call percent breaker 3).0)
Reach-IsTraced_example =
    Reach-IsTraced payments config ((before_call percent breaker 3).0) tripped_trace

-- The breaker once one call has failed at 1, and once a probe is let through at 6.
abbrev opened : CircuitBreaker percent
opened = record breaker {
  state = open_state;
  win = record { ring = false ∷ false ∷ []; head = 1; total = 1; failures = 1 };
  opened_at = 1;
  fired = (payments, closed, open_state) ∷ [];
}

abbrev probed : CircuitBreaker percent
probed = record opened {
  state = half_open;
  probing = true;
  fired = (payments, closed, open_state) ∷ (payments, open_state, half_open) ∷ [];
}

before-first : before_call percent breaker 0 ≡ (breaker, none)
unfolding before_call new
before-first = refl

after-first : after_call percent breaker false 1 ≡ some opened
unfolding after_call new record_call new_window overwrite
after-first = refl

before-probe : before_call percent opened 6 ≡ (probed, none)
unfolding before_call new
before-probe = refl

-- Two calls are let through; one fails and trips the breaker; then a probe is let through.
abbrev in_flight : System percent
in_flight = record { breaker = probed; plain = 1; probes = 1 }

abbrev run : Steps percent (start percent payments config) in_flight
unfolding start new
run =
    next
      (next
        (next (next here (admit_plain breaker 0 before-first refl))
          (admit_plain breaker 0 before-first refl))
        (end_plain opened 1 false 1 refl after-first))
      (admit_probe probed 6 before-probe refl)

Steps-IsSound_example : IsSound percent in_flight
Steps-IsSound_example = Steps-IsSound percent payments config in_flight run

prompt_single_probe_example :
    (in_flight.probes ≤ 1) × ((probed.probing ≡ true) ↔ (in_flight.probes ≡ 1))
unfolding start new
prompt_single_probe_example =
    prompt_single_probe percent payments config in_flight run ((((tt, tt), tt), refl), tt)

stale_failure_admits_second_probe_example :
    (t : System percent) × Steps percent in_flight t × (t.probes ≡ 2)
unfolding new
stale_failure_admits_second_probe_example =
    stale_failure_admits_second_probe percent in_flight 0
      (Steps-IsSound percent payments config in_flight run) refl refl refl
