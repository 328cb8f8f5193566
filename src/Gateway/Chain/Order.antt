-- ===== src/Gateway/Chain/Order.antt =====
-- The order in which Build chains middlewares.
use leetsheet.Prelude.{ℕ, zero, suc, ◌≡◌, refl, ap, ◌∙◌, List, [], ◌∷◌, length, get_or}
use leetsheet.Gateway.Chain.{build_loop, build}

module _ {ℓ} {H : Type ℓ} where
  -- The first middleware around the second, and so on, around the handler.
  pub nest : H → List (H → H) → H
  nest h [] = h
  nest h (m ∷ ms) = m (nest h ms)

  build_loop-suc :
      (n : ℕ) (h : H) (m : H → H) (ms : List (H → H))
      → build_loop (suc n) h (m ∷ ms) ≡ m (build_loop n h ms)
  unfolding build_loop
  build_loop-suc zero h m ms = refl
  build_loop-suc (suc n) h m ms = build_loop-suc n (get_or ms n (λ x. x) h) m ms

  -- Build's loop from the last index down nests the middlewares left to right, the first outermost.
  pub build-nest : (h : H) (ms : List (H → H)) → build h ms ≡ nest h ms
  unfolding build nest build_loop
  build-nest h [] = refl
  build-nest h (m ∷ ms) = build_loop-suc (length ms) h m ms ∙ ap m (build-nest h ms)
