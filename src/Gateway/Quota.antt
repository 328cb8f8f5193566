-- ===== src/Gateway/Quota.antt =====
-- system-design/api-gateway/rate_limiter.go: the sliding window of each tenant.
pub mod Laws
use leetsheet.Prelude.{
  ℕ, zero, suc, ◌+◌, Bool, true, false, List, [], ◌∷◌, ◌++◌, Option, none, some, ltb, leb, ◌==◌,
  if◌then◌else◌, length, drop,
}
use leetsheet.Prelude.Maps.{lookup, insert, bytes_eq}
use leetsheet.Prelude.Text.{Bytes}

abbrev pub default_window : ℕ
default_window = 60_000_000_000

-- The ring of one tenant: the times of its recent requests.
abbrev pub RequestTimestamps : Type 0
RequestTimestamps = List ℕ

-- The loop that finds the first valid index: as long as the times are before the cutoff.
unfoldable pub first_valid : ℕ → ℕ → List ℕ → ℕ
first_valid window now [] = 0
first_valid window now (t ∷ ring) =
    let rest = first_valid window now ring in if ltb (t + window) now then suc rest else 0

unfoldable pub allowed : RequestTimestamps → ℕ → ℕ → ℕ → RequestTimestamps × Bool
unfolding first_valid
allowed ring limit window now =
    let kept = drop (first_valid window now ring) ring in
    if leb limit (length kept) then (kept, false) else (kept ++ (now ∷ []), true)

-- RateLimiter: its map, from tenants to rings that nothing else holds, and its window. The store
-- that it reads is an argument.
pub record RateLimiter : Type 0 where
  pub buckets : List (Bytes × RequestTimestamps)
  pub window : ℕ

pub new_rate_limiter : RateLimiter
new_rate_limiter = record { buckets = []; window = default_window }

-- bucket: the ring of a tenant, made when it is missing.
unfoldable pub bucket : RateLimiter → Bytes → RateLimiter × RequestTimestamps
unfolding lookup insert
bucket rl tenant = elim (lookup tenant rl.buckets) [
  | some ring ↦ (rl, ring)
  | none ↦ (record rl { buckets = insert tenant [] rl.buckets }, [])
]

-- `b := rl.bucket(id)` and `b.allowed(…)`: the ring is changed in place.
unfoldable pub admit_request : RateLimiter → Bytes → ℕ → ℕ → RateLimiter × RequestTimestamps × Bool
unfolding bucket allowed insert
admit_request rl tenant limit now =
    let (rl', ring) = bucket rl tenant in
    let (ring', ok) = allowed ring limit rl.window now in
    (record rl' { buckets = insert tenant ring' rl'.buckets }, ring', ok)
