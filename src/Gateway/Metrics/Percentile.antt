-- ===== src/Gateway/Metrics/Percentile.antt =====
-- P99 of system-design/api-gateway/observability.go: the samples sorted in place, and one of them.
use leetsheet.Prelude.{
  ℕ, zero, suc, ◌+◌, ◌-◌, ◌≤◌, ◌<◌, ◌≡◌, ◌≢◌, refl, ◌∙◌, List, arith, inl, inr, ltb, leb, ◌==◌,
  if◌then◌else◌, Bool-cases, length,
}
use native.Mathlib.Decide.{dec_lt}
use leetsheet.JobQueue.Heap.{at, swap}
use leetsheet.JobQueue.Heap.Arrays.{count, at-swap, count-swap, length-swap}
use leetsheet.Gateway.Metrics.{RequestMetrics}

-- The inner loop, from index `j` down.
pub sift : ℕ → List ℕ → List ℕ
sift zero a = a
sift (suc j) a =
    let rest = sift j (swap a (suc j) j) in if ltb (at a (suc j)) (at a j) then rest else a

-- The outer loop, with `k` indices from `i` on to go.
pub sort_loop : ℕ → ℕ → List ℕ → List ℕ
unfolding sift
sort_loop zero i a = a
sort_loop (suc k) i a = sort_loop k (suc i) (sift i a)

-- P99; `scaled n` is int(float64(n) * 0.99).
unfoldable pub p99 : (ℕ → ℕ) → RequestMetrics → ℕ
unfolding sort_loop
p99 scaled m =
    let n = length m.latency in
    let idx = scaled n in
    if n == 0 then 0 else at (sort_loop (n - 1) 1 m.latency) (if leb n idx then n - 1 else idx)

-- The first `n` entries do not decrease.
abbrev pub IsAscending : ℕ → List ℕ → Type 0
IsAscending n a = (k : ℕ) → suc k < n → at a k ≤ at a (suc k)

-- They do not, but for the one at `j`, which may be too small for its place.
record IsNearly (n j : ℕ) (a : List ℕ) : Type 0 where
  inside : n ≤ length a
  below : j < n
  others : (k : ℕ) → suc k < n → suc k ≢ j → at a k ≤ at a (suc k)
  around : (k : ℕ) → suc k ≡ j → suc j < n → at a k ≤ at a (suc j)

IsNearly-swap :
    (n j : ℕ) (a : List ℕ)
    → IsNearly n (suc j) a
    → at a (suc j) < at a j
    → IsNearly n j (swap a (suc j) j)
IsNearly-swap n j a v h =
    let swapped =
      at-swap a (suc j) j (omega (arith, v.inside, v.below)) (omega (arith, v.inside, v.below)) in
    record {
      inside = omega (arith, length-swap a (suc j) j, v.inside);
      below = omega (arith, v.below);
      others = λ k p ne. ground (arith, swapped k, swapped (suc k), v.others k, v.around j refl);
      around = λ k e p. ground (arith, swapped k, swapped (suc j), v.others k, v.below);
    }

sift-IsAscending : (n j : ℕ) (a : List ℕ) → IsNearly n j a → IsAscending n (sift j a)
unfolding sift
sift-IsAscending n zero a v = λ k p. v.others k p (λ e. absurd (omega arith))
sift-IsAscending n (suc j) a v = elim (Bool-cases (ltb (at a (suc j)) (at a j))) [
  | inl e ↦ rw e (sift-IsAscending n j (swap a (suc j) j) (IsNearly-swap n j a v (ground arith)))
  | inr e ↦ rw e (λ k p. ground (arith, v.others k))
]

length-sift : (j : ℕ) (a : List ℕ) → length (sift j a) ≡ length a
unfolding sift
length-sift zero a = refl
length-sift (suc j) a = ground (arith, length-sift j (swap a (suc j) j), length-swap a (suc j) j)

count-sift : (q j : ℕ) (a : List ℕ) → j < length a → count q (sift j a) ≡ count q a
unfolding sift
count-sift q zero a h = refl
count-sift q (suc j) a h = ground (
  arith,
  count-sift q j (swap a (suc j) j),
  length-swap a (suc j) j,
  count-swap a (suc j) j h (omega arith) q,
)

-- What sorting makes of a list.
pub record Sorted (a s : List ℕ) : Type 0 where
  pub ascending : IsAscending (length a) s
  pub same : (q : ℕ) → count q s ≡ count q a
  pub size : length s ≡ length a

sort_loop-Sorted :
    (k i : ℕ) (a : List ℕ) → i + k ≡ length a → IsAscending i a → Sorted a (sort_loop k i a)
unfolding sort_loop
sort_loop-Sorted zero i a h v = record {
  ascending = λ k p. v k (omega arith);
  same = λ q. refl;
  size = refl;
}
sort_loop-Sorted (suc k) i a h v =
    let nearly : IsNearly (suc i) i a = record {
      inside = omega arith;
      below = omega arith;
      others = λ x p ne. v x (omega arith);
      around = λ x e p. absurd (omega arith);
    } in
    let rest =
      sort_loop-Sorted k (suc i) (sift i a) (omega (arith, length-sift i a))
        (sift-IsAscending (suc i) i a nearly) in
    record {
      ascending = λ x p. rest.ascending x (omega (arith, length-sift i a));
      same = λ q. rest.same q ∙ count-sift q i a (omega arith);
      size = rest.size ∙ length-sift i a;
    }

-- P99 of no samples is 0. Of any others it is the sample at the scaled index, or the last one if that
-- is out of range, of the samples in ascending order.
pub p99-Sorted :
    (scaled : ℕ → ℕ) (m : RequestMetrics)
    → (s : List ℕ) × Sorted m.latency s
      × (p99 scaled m ≡ (
          if length m.latency == 0
          then 0
          else at s (
              if leb (length m.latency) (scaled (length m.latency))
              then length m.latency - 1
              else scaled (length m.latency))))
unfolding p99
p99-Sorted scaled m = elim (dec_lt 0 (length m.latency)) [
  | yes h ↦ (
    sort_loop (length m.latency - 1) 1 m.latency,
    sort_loop-Sorted (length m.latency - 1) 1 m.latency (omega arith) (λ k p. absurd (omega arith)),
    refl,
  )
  | no h ↦
      let none_there : length m.latency ≡ 0 = omega arith in
      (
        m.latency,
        record { ascending = λ k p. absurd (omega arith); same = λ q. refl; size = refl },
        rw none_there refl,
      )
]
