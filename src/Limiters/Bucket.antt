-- ===== src/Limiters/Bucket.antt =====
-- How much a token bucket lets through over a whole history of requests.
use leetsheet.Prelude.{
  ℕ, zero, suc, ◌+◌, ◌-◌, ◌*◌, ◌/◌, ◌<◌, ◌≤◌, ◌≡◌, refl, ap, ◌∙◌, Bool, false, List, [], ◌∷◌,
  Option, none, some, arith, ◌==◌, if◌then◌else◌,
}
use native.Mathlib.Nat.{add-mul, zero-mul, mod-add-div'}
use leetsheet.Limiters.{
  TokenBucket, new_token_bucket, min_int, refill_by, refill, spend, allow_token,
}

-- Requests at the given times: the bucket that is left and how many were allowed.
pub serve : TokenBucket → List ℕ → Option (TokenBucket × ℕ)
serve tb [] = some (tb, 0)
serve tb (now ∷ times) = elim (allow_token tb now) [
  | none ↦ none
  | some (tb', ok) ↦ elim (serve tb' times) [
    | none ↦ none
    | some (tb'', n) ↦ some (tb'', if ok then suc n else n)
  ]
]

-- The times do not decrease from `now` on and end at `end`.
abbrev pub Ascending : ℕ → List ℕ → ℕ → Type 0
Ascending now [] end = now ≤ end
Ascending now (t ∷ times) end = (now ≤ t) × Ascending t times end

refill_by-bounds :
    (tb : TokenBucket) (n now : ℕ)
    → tb.tokens ≤ tb.capacity
    → tb.last_refill + n * tb.refill_interval ≤ now
    → let r = refill_by tb n in
      (r.tokens ≤ r.capacity)
      × (r.tokens ≤ tb.tokens + n * tb.refill_rate)
      × (r.last_refill ≡ tb.last_refill + n * tb.refill_interval)
      × (r.refill_rate ≡ tb.refill_rate)
      × (r.refill_interval ≡ tb.refill_interval)
      × (r.capacity ≡ tb.capacity)
unfolding refill_by min_int
refill_by-bounds tb zero now h late =
    (ground arith, ground arith, ground (arith, zero-mul tb.refill_interval), refl, refl, refl)
refill_by-bounds tb (suc n) now h late =
    (ground arith, ground arith, ground arith, ground arith, ground arith, ground arith)

whole_intervals : (a last now m : ℕ) → last ≤ now → last + (now - last) / m * m ≤ now
whole_intervals a last now m h = omega (arith, mod-add-div' (now - last) m)

spend-bounds :
    (tb : TokenBucket)
    → let (r, ok) = spend tb in
      (r.tokens + (if ok then 1 else 0) ≡ tb.tokens)
      × (r.last_refill ≡ tb.last_refill)
      × (r.refill_rate ≡ tb.refill_rate)
      × (r.refill_interval ≡ tb.refill_interval)
      × (r.capacity ≡ tb.capacity)
unfolding spend
spend-bounds tb = ground arith

-- One request at `t`: so many whole intervals are refilled, and one token is spent if it is allowed.
record Allowed (tb : TokenBucket) (t : ℕ) (r : TokenBucket) (ok : Bool) : Type 0 where
  intervals : ℕ
  moved : r.last_refill ≡ tb.last_refill + intervals * tb.refill_interval
  late : r.last_refill ≤ t
  bounded : (if ok then 1 else 0) + r.tokens ≤ tb.tokens + intervals * tb.refill_rate
  full : r.tokens ≤ r.capacity
  capacity : r.capacity ≡ tb.capacity
  rate : r.refill_rate ≡ tb.refill_rate
  interval : r.refill_interval ≡ tb.refill_interval

allow-Allowed :
    (tb : TokenBucket) (t : ℕ)
    → tb.tokens ≤ tb.capacity
    → 0 < tb.refill_interval
    → tb.last_refill ≤ t
    → (r : TokenBucket) × (ok : Bool) × (allow_token tb t ≡ some (r, ok)) × Allowed tb t r ok
unfolding allow_token refill
allow-Allowed tb t full pos late =
    let n = (t - tb.last_refill) / tb.refill_interval in
    let divides : (tb.refill_interval == 0) ≡ false = ground arith in
    let enough = whole_intervals 0 tb.last_refill t tb.refill_interval late in
    let (capped, gained, moved, rate, interval, capacity) = refill_by-bounds tb n t full enough in
    let (spent, kept, rate', interval', capacity') = spend-bounds (refill_by tb n) in
    (
      (spend (refill_by tb n)).0,
      (spend (refill_by tb n)).1,
      rw divides refl,
      record {
        intervals = n;
        moved = kept ∙ moved;
        late = omega (arith, kept, moved);
        bounded = omega arith;
        full = omega arith;
        capacity = capacity' ∙ capacity;
        rate = rate' ∙ rate;
        interval = interval' ∙ interval;
      },
    )

-- Of all the requests up to `end`, `granted` were allowed: no more than the tokens at the start and
-- the refills of the whole intervals since.
pub record Grants (tb : TokenBucket) (end : ℕ) (r : TokenBucket) (granted : ℕ) : Type 0 where
  pub intervals : ℕ
  pub within : tb.last_refill + intervals * tb.refill_interval ≤ end
  pub bounded : granted + r.tokens ≤ tb.tokens + intervals * tb.refill_rate
  pub capped : r.tokens ≤ tb.capacity

Grants-step :
    (tb tb' r : TokenBucket) (t end n : ℕ) (ok : Bool)
    → Allowed tb t tb' ok
    → Grants tb' end r n
    → Grants tb end r (if ok then suc n else n)
Grants-step tb tb' r t end n ok a g = record {
  intervals = a.intervals + g.intervals;
  within = omega (
    arith,
    add-mul a.intervals g.intervals tb.refill_interval,
    a.moved,
    g.within,
    ap (λ i. g.intervals * i) a.interval,
  );
  bounded = ground (
    arith,
    add-mul a.intervals g.intervals tb.refill_rate,
    a.bounded,
    g.bounded,
    ap (λ i. g.intervals * i) a.rate,
  );
  capped = omega (arith, g.capped, a.capacity);
}

serve-next :
    (tb tb' r : TokenBucket) (t n : ℕ) (times : List ℕ) (ok : Bool)
    → allow_token tb t ≡ some (tb', ok)
    → serve tb' times ≡ some (r, n)
    → serve tb (t ∷ times) ≡ some (r, if ok then suc n else n)
unfolding serve
serve-next tb tb' r t n times ok e e' = rw (serve, e, e') refl

serve-Grants :
    (tb : TokenBucket) (now : ℕ) (times : List ℕ) (end : ℕ)
    → tb.tokens ≤ tb.capacity
    → 0 < tb.refill_interval
    → tb.last_refill ≤ now
    → Ascending now times end
    → (r : TokenBucket) × (n : ℕ) × (serve tb times ≡ some (r, n)) × Grants tb end r n
unfolding serve
serve-Grants tb now [] end full pos late h = (
  tb,
  0,
  refl,
  record {
    intervals = 0;
    within = omega (arith, zero-mul tb.refill_interval);
    bounded = omega (arith, zero-mul tb.refill_rate);
    capped = full;
  },
)
serve-Grants tb now (t ∷ times) end full pos late h =
    let (tb', ok, e, a) = allow-Allowed tb t full pos (omega arith) in
    let (r, n, e', g) =
      serve-Grants tb' t times end a.full (omega (arith, a.interval)) a.late h.1 in
    (
      r,
      (if ok then suc n else n),
      serve-next tb tb' r t n times ok e e',
      Grants-step tb tb' r t end n ok a g,
    )

-- A new token bucket with a positive interval never panics. Up to any time, it allows at most its
-- capacity and the refills of the whole intervals that have passed since it was made, and the
-- tokens that it holds never exceed the capacity.
pub serve-new_token_bucket :
    (capacity rate interval start end : ℕ) (times : List ℕ)
    → 0 < interval
    → Ascending start times end
    → (r : TokenBucket) × (n : ℕ) × (serve (new_token_bucket capacity rate interval start) times
        ≡ some (r, n))
      × Grants (new_token_bucket capacity rate interval start) end r n
unfolding new_token_bucket
serve-new_token_bucket capacity rate interval start end times pos h =
    serve-Grants (new_token_bucket capacity rate interval start) start times end (omega arith) pos
      (omega arith) h
