-- ===== src/Gateway/Tests.antt =====
-- The gateway at a concrete configuration and requests.
use leetsheet.Prelude.{
  arith, ◌*◌, ◌/◌, ◌-◌, ◌==◌, leb, length, ℕ, ◌≡◌, ◌++◌, ◌≢◌, ◌⊎◌, ◌↔◌, inl, inr, refl, true, List,
  [], ◌∷◌, none, some, if◌then◌else◌,
}
use leetsheet.Prelude.Int.{pos}
use leetsheet.Prelude.Text.{codes}
use leetsheet.Limiters.{allow_sliding}
use leetsheet.Gateway.Http.{Claims, Request, ResponseWriter, itoa}
use leetsheet.Gateway.Http.Digits.{read_digits, read_digits-itoa}
use leetsheet.Gateway.Tenants.{Tenant}
use leetsheet.Gateway.Policy.{
  Role, role_permissions, has_permission, route_permissions, best_rule, applies,
}
use leetsheet.Gateway.Policy.Laws.{Some, Grants, NoLonger, has_permission_iff, best_rule-required}
use leetsheet.JobQueue.Heap.{at}
use leetsheet.Gateway.Metrics.{RequestMetrics}
use leetsheet.Gateway.Metrics.Percentile.{p99, Sorted, p99-Sorted}
use leetsheet.Gateway.Credentials.{AuthError, verify, split_dots, ApiKeyRecord}
use leetsheet.Gateway.Credentials.Laws.{Accepted, Refused, verify-cases}
use leetsheet.Gateway.Quota.{RateLimiter, allowed, admit_request}
use leetsheet.Gateway.Quota.Laws.{ring_of, allowed-eq-allow_sliding, admit_request-isolated}
use leetsheet.Gateway.Chain.{World, Handler, Gateway, Clock, handler}
use leetsheet.Gateway.Chain.Unrecorded.{handler-records_nothing}
use leetsheet.Gateway.Chain.Guard.{Blocks, IsPermitted, handler-guards}

abbrev acme : Tenant
acme = record {
  id = codes "t1";
  slug = codes "acme";
  plan = codes "pro";
  enabled = true;
  created_at = 0;
  rate_limit_override = pos 0;
}

read_digits-itoa_example : read_digits 0 (itoa (pos 407)) ≡ 407
read_digits-itoa_example = read_digits-itoa 407

abbrev auditor : Role
auditor = record { name = codes "auditor"; permissions = codes "*:read" ∷ [] }

has_permission_iff_example :
    (has_permission
        (role_permissions [])
        (codes "t1")
        (codes "viewer" ∷ [])
        (codes "bill" ++ (58 ∷ codes "read"))
      ≡ true)
    ↔ Some
        (λ role.
          Some
            (λ p. Grants p (codes "bill") (codes "read"))
            (role_permissions [] (codes "t1") role))
        (codes "viewer" ∷ [])
has_permission_iff_example =
    has_permission_iff (role_permissions []) (codes "t1") (codes "viewer" ∷ []) (codes "bill")
      (codes "read")
      (
        (λ e. absurd (omega arith)),
        (
          (λ e. absurd (omega arith)),
          ((λ e. absurd (omega arith)), ((λ e. absurd (omega arith)), tt)),
        ),
      )

best_rule-required_example :
    let r = best_rule route_permissions (codes "POST") (codes "/api/billing/x") [] [] in
    NoLonger r.1 (codes "POST") (codes "/api/billing/x") route_permissions
    × (((r.0 ≡ []) × (r.1 ≡ []))
        ⊎ Some
            (λ x.
              (applies x (codes "POST") (codes "/api/billing/x") ≡ true)
              × (x.perm ≡ r.0)
              × (x.prefix ≡ r.1))
            route_permissions)
best_rule-required_example =
    best_rule-required route_permissions (codes "POST") (codes "/api/billing/x")

allowed-eq-allow_sliding_example :
    let (sw, ok) =
      allow_sliding (record { limit = 2; window_size = 10; timestamps = 1 ∷ 5 ∷ [] }) 13 in
    allowed (1 ∷ 5 ∷ []) 2 10 13 ≡ (sw.timestamps, ok)
allowed-eq-allow_sliding_example = allowed-eq-allow_sliding (1 ∷ 5 ∷ []) 2 10 13

abbrev limiter : RateLimiter
limiter = record { buckets = (codes "t1", 1 ∷ []) ∷ []; window = 10 }

admit_request-isolated_example :
    let (rl, ring, ok) = admit_request limiter (codes "t1") 1 5 in
    ((ring, ok) ≡ allowed (ring_of limiter (codes "t1")) 1 limiter.window 5)
    × (ring_of rl (codes "t1") ≡ ring)
    × (codes "t1" ≢ codes "t2" → ring_of rl (codes "t2") ≡ ring_of limiter (codes "t2"))
    × (rl.window ≡ limiter.window)
admit_request-isolated_example = admit_request-isolated limiter (codes "t1") (codes "t2") 1 5

abbrev tag : ℕ → List ℕ → List ℕ
tag n h = n ∷ h

-- Signatures are empty, a payload is its own decoding, and every payload carries the same claims.
abbrev claims : Claims
claims = record {
  subject = codes "u1";
  tenant_id = codes "t1";
  roles = codes "viewer" ∷ [];
  expiry = pos 100;
  issuer = [];
  audience = [];
}

abbrev gateway : Gateway
gateway = record {
  authn = record { jwt = record { secret = []; issuer = []; aud = [] }; api_key = [] };
  tenants = (codes "t1", acme) ∷ [];
  quotas = (codes "t1", acme) ∷ [];
  policies = role_permissions [];
  codec = record {
    signature = λ secret text. [];
    decode = λ text. some text;
    unmarshal = λ json. some claims;
    hash_key = λ key. key;
  };
  quote = λ s. s;
}

abbrev clock : Clock
clock = record {
  started = 0;
  verified = 50;
  limited = 5;
  answered = 6;
  finished = 9;
  generated = codes "trace";
}

abbrev request : Request
request = record {
  method = codes "GET";
  path = codes "/api/x";
  headers = (codes "Authorization", codes "Bearer a.b.") ∷ [];
  context = record { tenant_id = none; user_id = none; trace_id = none; claims = none };
}

abbrev world : World
world = record { limiter = limiter; metrics = [] }

abbrev writer : ResponseWriter
writer = record { headers = []; sent = none; recorded = 0; body = [] }

handler-guards_example :
    Blocks (handler gateway clock) world request writer ⊎ IsPermitted gateway clock world request
handler-guards_example = handler-guards gateway clock world request writer

abbrev upstream : Handler
upstream w r out = (w, out)

handler-records_nothing_example :
    (handler gateway clock upstream world request writer).0.metrics ≡ world.metrics
handler-records_nothing_example =
    handler-records_nothing gateway clock upstream world request writer (λ a b c. refl) refl

abbrev three_samples : RequestMetrics
three_samples = record { total = 3; errors = 0; client_err = 0; latency = 30 ∷ 10 ∷ 20 ∷ [] }

-- int(float64(n) * 0.99), where the product has no rounding error that matters.
abbrev ninety_nine : ℕ → ℕ
ninety_nine n = n * 99 / 100

p99-Sorted_example :
    (s : List ℕ) × Sorted three_samples.latency s
    × (p99 ninety_nine three_samples ≡ (
        if length three_samples.latency == 0
        then 0
        else at s (
            if leb (length three_samples.latency) (ninety_nine (length three_samples.latency))
            then length three_samples.latency - 1
            else ninety_nine (length three_samples.latency))))
p99-Sorted_example = p99-Sorted ninety_nine three_samples

p99_of_three : p99 ninety_nine three_samples ≡ 30
unfolding p99
p99_of_three = refl

verify-cases_example :
    ((c : Claims) × (verify gateway.codec gateway.authn.jwt 50 (codes "a.b.") ≡ inr c)
      × Accepted gateway.codec gateway.authn.jwt 50 (split_dots (codes "a.b.")) c)
    ⊎ ((e : AuthError) × (verify gateway.codec gateway.authn.jwt 50 (codes "a.b.") ≡ inl e)
        × Refused gateway.codec gateway.authn.jwt 50 (split_dots (codes "a.b.")) e)
verify-cases_example = verify-cases gateway.codec gateway.authn.jwt 50 (codes "a.b.")

abbrev key_record : ApiKeyRecord
key_record = record { tenant_id = codes "t1"; user_id = codes "u1"; roles = [] }
