-- ===== src/Limiters/Fixed.antt =====
-- The fixed window within one window.
use leetsheet.Prelude.{
  ℕ, ◌+◌, ◌-◌, ◌<◌, ◌≤◌, ◌≡◌, refl, false, List, [], ◌∷◌, arith, min, inl, inr, Bool-cases, ltb,
  leb, length, All,
}
use leetsheet.Limiters.{FixedWindow, allow_fixed, turn_over, simulate_limiter}

-- Requests before the end of the current window are allowed until the limit is reached and
-- rejected from then on: of any number of them, exactly as many as the limit leaves are allowed.
pub simulate-fixed :
    (fw : FixedWindow) (times : List ℕ)
    → fw.count ≤ fw.limit
    → All (λ t. t < fw.window_start + fw.window_size) times
    → let (last, allowed, rejected) = simulate_limiter allow_fixed fw times in
      (allowed ≡ min (fw.limit - fw.count) (length times))
      × (allowed + rejected ≡ length times)
      × (last.count ≡ fw.count + allowed)
unfolding simulate_limiter allow_fixed turn_over
simulate-fixed fw [] h inside = (omega arith, refl, omega arith)
simulate-fixed fw (t ∷ times) h inside =
    let same : leb (fw.window_start + fw.window_size) t ≡ false = ground (arith, inside.0) in
    elim (Bool-cases (ltb fw.count fw.limit)) [
      | inl room ↦
          let rest =
            simulate-fixed (record fw { count = fw.count + 1 }) times (ground arith) inside.1 in
          rw (same, room) (ground (arith, rest))
      | inr full ↦
          let rest = simulate-fixed fw times h inside.1 in rw (same, full) (ground (arith, rest))
    ]
