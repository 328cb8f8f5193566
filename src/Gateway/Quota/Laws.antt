-- ===== src/Gateway/Quota/Laws.antt =====
-- The gateway's quota: the limiter of pkg for each tenant, and none for another tenant's requests.
use leetsheet.Prelude.{
  ℕ, ◌≡◌, ◌≢◌, refl, ap, ◌∙◌, List, [], ◌∷◌, Option, none, some, inl, inr, arith, Option-cases,
}
use leetsheet.Prelude.Maps.{lookup, bytes_eq, lookup-insert_self, lookup-insert_ne}
use leetsheet.Prelude.Text.{Bytes}
use leetsheet.Limiters.{stale_prefix, allow_sliding}
use leetsheet.Gateway.Quota.{
  RequestTimestamps, first_valid, allowed, RateLimiter, bucket, admit_request,
}

first_valid-eq-stale_prefix :
    (window now : ℕ) (ring : List ℕ) → first_valid window now ring ≡ stale_prefix window now ring
unfolding first_valid stale_prefix
first_valid-eq-stale_prefix window now [] = refl
first_valid-eq-stale_prefix window now (t ∷ ring) =
    rw (first_valid-eq-stale_prefix window now ring) refl

-- The gateway's limiter decides and remembers as the sliding window of pkg does.
pub allowed-eq-allow_sliding :
    (ring : RequestTimestamps) (limit window now : ℕ)
    → let (sw, ok) =
        allow_sliding (record { limit = limit; window_size = window; timestamps = ring }) now in
      allowed ring limit window now ≡ (sw.timestamps, ok)
unfolding allowed allow_sliding
allowed-eq-allow_sliding ring limit window now =
    rw (first_valid-eq-stale_prefix window now ring) (ground arith)

-- The ring of a tenant; a tenant that is not known has none.
pub ring_of : RateLimiter → Bytes → RequestTimestamps
ring_of rl tenant = elim (lookup tenant rl.buckets) [ none ↦ [] | some ring ↦ ring ]

bucket-ring_of :
    (rl : RateLimiter) (tenant other : Bytes)
    → ((bucket rl tenant).1 ≡ ring_of rl tenant)
      × ((bucket rl tenant).0.window ≡ rl.window)
      × (tenant ≢ other → lookup other (bucket rl tenant).0.buckets ≡ lookup other rl.buckets)
unfolding ring_of bucket
bucket-ring_of rl tenant other = elim (Option-cases (lookup tenant rl.buckets)) [
  | inl e ↦ (
    rw (bucket, ring_of, e) refl,
    rw (bucket, e) refl,
    λ h. rw (bucket, e) (lookup-insert_ne tenant other [] rl.buckets h),
  )
  | inr (ring, e) ↦ (rw (bucket, ring_of, e) refl, rw (bucket, e) refl, λ h. rw (bucket, e) refl)
]

-- A request of a tenant is decided on that tenant's ring alone and changes that ring alone.
pub admit_request-isolated :
    (rl : RateLimiter) (tenant other : Bytes) (limit now : ℕ)
    → let (rl', ring, ok) = admit_request rl tenant limit now in
      ((ring, ok) ≡ allowed (ring_of rl tenant) limit rl.window now)
      × (ring_of rl' tenant ≡ ring)
      × (tenant ≢ other → ring_of rl' other ≡ ring_of rl other)
      × (rl'.window ≡ rl.window)
unfolding admit_request ring_of
admit_request-isolated rl tenant other limit now =
    let (same, window, others) = bucket-ring_of rl tenant other in
    let ring = (allowed (bucket rl tenant).1 limit rl.window now).0 in
    let read : Option RequestTimestamps → RequestTimestamps =
      λ o. elim o [ none ↦ [] | some x ↦ x ] in
    (
      ap (λ x. allowed x limit rl.window now) same,
      ap read (lookup-insert_self tenant ring (bucket rl tenant).0.buckets),
      λ h. ap read (lookup-insert_ne tenant other ring (bucket rl tenant).0.buckets h ∙ others h),
      window,
    )
