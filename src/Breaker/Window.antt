-- ===== src/Breaker/Window.antt =====
-- system-design/circuit-breaker/window.go: the ring buffer of the last N call outcomes.
pub mod Contents
pub mod History
use leetsheet.Prelude.{
  ℕ, suc, ◌+◌, ◌-◌, ◌%◌, Bool, true, false, not, ◌&&◌, List, [], ◌∷◌, Option, none, some, ◌==◌,
  if◌then◌else◌, length, get_elem?, set, replicate,
}

-- `true` in the ring is a success. The counters are lengths and sums of at most `len(ring)`.
pub record Window : Type 0 where
  pub ring : List Bool
  pub head : ℕ
  pub total : ℕ
  pub failures : ℕ

unfoldable pub new_window : ℕ → Window
new_window size = record { ring = replicate size false; head = 0; total = 0; failures = 0 }

-- What `record` does once the slot at `head`, which holds `old`, is known to be in range.
-- `failures--` is reached only at a failure that was counted (`Contents.evicted_was_counted`).
unfoldable pub overwrite : Window → Bool → Bool → Window
overwrite w old success =
    let full = w.total == length w.ring in
    let kept = if full && not old then w.failures - 1 else w.failures in
    record {
      ring = set w.ring w.head success;
      head = (w.head + 1) % length w.ring;
      total = if full then w.total else w.total + 1;
      failures = if success then kept else kept + 1;
    }

-- `record`. An index out of range panics: `none`.
unfoldable pub record_call : Window → Bool → Option Window
record_call w success = elim (get_elem? w.ring w.head) [
  | none ↦ none
  | some old ↦ some (overwrite w old success)
]

unfoldable pub count : Window → ℕ
count w = w.total

unfoldable pub reset : Window → Window
reset w = record w { head = 0; total = 0; failures = 0 }
