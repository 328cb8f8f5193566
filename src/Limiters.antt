-- ===== src/Limiters.antt =====
-- pkg/rate_limiter.go: three limiters. Counts, sizes and durations are natural numbers, as every
-- caller passes them; each call of `time.Now()` is an argument, in nanoseconds.
pub mod Bucket
pub mod Fixed
pub mod Sliding
mod Tests
use leetsheet.Prelude.{
  ℕ, zero, suc, ◌+◌, ◌-◌, ◌*◌, ◌/◌, Bool, true, false, List, [], ◌∷◌, ◌++◌, Option, none, some, ltb,
  leb, ◌==◌, if◌then◌else◌, length, drop,
}
use mathlib.Core.Option

-- The package's own `min`.
pub min_int : ℕ → ℕ → ℕ
min_int a b = if ltb a b then a else b

pub record TokenBucket : Type 0 where
  pub capacity : ℕ
  pub tokens : ℕ
  pub refill_rate : ℕ
  pub refill_interval : ℕ
  pub last_refill : ℕ

pub new_token_bucket : ℕ → ℕ → ℕ → ℕ → TokenBucket
new_token_bucket capacity rate interval now = record {
  capacity = capacity;
  tokens = capacity;
  refill_rate = rate;
  refill_interval = interval;
  last_refill = now;
}

-- What refill does with a number of whole intervals.
pub refill_by : TokenBucket → ℕ → TokenBucket
unfolding min_int
refill_by tb intervals =
    if ltb 0 intervals
    then record tb {
      tokens = min_int tb.capacity (tb.tokens + intervals * tb.refill_rate);
      last_refill = tb.last_refill + intervals * tb.refill_interval;
    }
    else tb

-- refill; the division by an interval of zero panics. The clock does not go back.
pub refill : TokenBucket → ℕ → Option TokenBucket
unfolding refill_by
refill tb now =
    if tb.refill_interval == 0
    then none
    else some (refill_by tb ((now - tb.last_refill) / tb.refill_interval))

pub spend : TokenBucket → TokenBucket × Bool
spend tb = if ltb 0 tb.tokens then (record tb { tokens = tb.tokens - 1 }, true) else (tb, false)

pub allow_token : TokenBucket → ℕ → Option (TokenBucket × Bool)
unfolding refill spend
allow_token tb now = Option.map spend (refill tb now)

pub record FixedWindow : Type 0 where
  pub limit : ℕ
  pub count : ℕ
  pub window_size : ℕ
  pub window_start : ℕ

pub new_fixed_window : ℕ → ℕ → ℕ → FixedWindow
new_fixed_window limit size now = record {
  limit = limit;
  count = 0;
  window_size = size;
  window_start = now;
}

-- The first statement of FixedWindow.Allow: a window that is over is begun anew.
pub turn_over : FixedWindow → ℕ → FixedWindow
turn_over fw now =
    if leb (fw.window_start + fw.window_size) now
    then record fw { count = 0; window_start = now }
    else fw

pub allow_fixed : FixedWindow → ℕ → FixedWindow × Bool
unfolding turn_over
allow_fixed fw now =
    let turned = turn_over fw now in
    if ltb turned.count turned.limit
    then (record turned { count = turned.count + 1 }, true)
    else (turned, false)

pub record SlidingWindow : Type 0 where
  pub limit : ℕ
  pub window_size : ℕ
  pub timestamps : List ℕ

pub new_sliding_window : ℕ → ℕ → SlidingWindow
new_sliding_window limit size = record { limit = limit; window_size = size; timestamps = [] }

-- The loop over the timestamps: how many stand before the first one that is not before the cutoff,
-- the time `size` before `now`.
unfoldable pub stale_prefix : ℕ → ℕ → List ℕ → ℕ
stale_prefix size now [] = 0
stale_prefix size now (t ∷ ts) =
    let rest = stale_prefix size now ts in if ltb (t + size) now then suc rest else 0

unfoldable pub allow_sliding : SlidingWindow → ℕ → SlidingWindow × Bool
allow_sliding sw now =
    let kept = drop (stale_prefix sw.window_size now sw.timestamps) sw.timestamps in
    if ltb (length kept) sw.limit
    then (record sw { timestamps = kept ++ (now ∷ []) }, true)
    else (record sw { timestamps = kept }, false)

-- The loop of simulateLimiter over the times of its requests: how many are allowed and rejected.
module _ {L : Type 0} (allow : L → ℕ → L × Bool) where
  pub simulate_limiter : L → List ℕ → L × ℕ × ℕ
  simulate_limiter l [] = (l, 0, 0)
  simulate_limiter l (now ∷ times) =
      let (l', ok) = allow l now in
      let (last, allowed, rejected) = simulate_limiter l' times in
      if ok then (last, suc allowed, rejected) else (last, allowed, suc rejected)
