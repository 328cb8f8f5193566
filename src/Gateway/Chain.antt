-- ===== src/Gateway/Chain.antt =====
-- system-design/api-gateway/gateway.go: the middlewares as functions on handlers, and their chain.
pub mod Order
pub mod Guard
pub mod Unrecorded
use leetsheet.Prelude.{
  ℕ, zero, suc, ◌-◌, ◌/◌, Bool, true, false, List, [], ◌∷◌, ◌++◌, Option, none, some, ◌⊎◌, inl, inr,
  if◌then◌else◌, length, get_or,
}
use leetsheet.Prelude.Int.{ℤ, pos, sub_ℕ}
use leetsheet.Prelude.Text.{Bytes, codes, str_eq}
use leetsheet.Gateway.Http.{
  Claims, Context, tenant_from_ctx, Request, header, ResponseWriter, set_header, write_header,
  write_body, write_error, itoa,
}
use leetsheet.Gateway.Tenants.{Tenant, TenantStore, TenantError, rate_limit, get}
use leetsheet.Gateway.Policy.{Permission, required_permission, has_permission}
use leetsheet.Gateway.Credentials.{Codec, AuthN, AuthError, error_text, authenticate}
use leetsheet.Gateway.Quota.{RateLimiter, RequestTimestamps, admit_request}
use leetsheet.Gateway.Metrics.{MetricsRegistry, record_for}

-- What requests change: the limiter's rings and the metrics.
pub record World : Type 0 where
  pub limiter : RateLimiter
  pub metrics : MetricsRegistry

-- ServeHTTP
abbrev pub Handler : Type 0
Handler = World → Request → ResponseWriter → World × ResponseWriter

abbrev pub Middleware : Type 0
Middleware = Handler → Handler

-- The loop of Build, from the last index down: `n` middlewares are still to be applied.
unfoldable pub build_loop {ℓ} : {H : Type ℓ} → ℕ → H → List (H → H) → H
build_loop zero h mws = h
build_loop (suc n) h mws = build_loop n (get_or mws n (λ x. x) h) mws

unfoldable pub build {ℓ} : {H : Type ℓ} → H → List (H → H) → H
unfolding build_loop
build h mws = build_loop (length mws) h mws

-- What the chain is made of, and what the library gives it for one request: the readings of the
-- clock in the order of the calls, a generated trace ID, and strconv.Quote.
pub record Gateway : Type 0 where
  pub authn : AuthN
  pub tenants : TenantStore
  -- the store of the rate limiter
  pub quotas : TenantStore
  pub policies : Bytes → Bytes → List Permission
  pub codec : Codec
  pub quote : Bytes → Bytes

pub record Clock : Type 0 where
  pub started : ℕ
  pub verified : ℕ
  pub limited : ℕ
  pub answered : ℕ
  pub finished : ℕ
  pub generated : Bytes

module _ (g : Gateway) (clock : Clock) where
  abbrev fail : ResponseWriter → ℕ → Bytes → Bytes → ResponseWriter
  fail w status code message = write_error g.quote clock.answered w status code message

  unfoldable pub authn_middleware : Middleware
  unfolding authenticate error_text write_error
  authn_middleware next world r w = elim (authenticate g.codec g.authn clock.verified r) [
    | inl e ↦ (world, fail w 401 (codes "UNAUTHENTICATED") (error_text e))
    | inr ctx ↦ next world (record r { context = ctx }) w
  ]

  -- http.Error sets two headers and ends the text with a newline.
  unfoldable pub http_error : ResponseWriter → Bytes → ℕ → ResponseWriter
  unfolding set_header write_header write_body
  http_error w message status =
      write_body
        (write_header
          (set_header (set_header w (codes "Content-Type") (codes "text/plain; charset=utf-8"))
            (codes "X-Content-Type-Options") (codes "nosniff"))
          status)
        (message ++ (10 ∷ []))

  unfoldable pub tenant_middleware : Middleware
  unfolding tenant_from_ctx http_error
  tenant_middleware next world r w = elim (get g.tenants (tenant_from_ctx r.context)) [
    | inl e ↦ (world, http_error w (codes "tenant not found") 401)
    | inr t ↦ next world (record r { context = record (r.context) { tenant_id = some t.id } }) w
  ]

  quota_headers : Tenant → RequestTimestamps → ResponseWriter → ResponseWriter
  unfolding set_header itoa
  quota_headers t ring w =
      set_header
        (set_header (set_header w (codes "X-Ratelimit-Limit") (itoa (pos (rate_limit t))))
          (codes "X-Ratelimit-Remaining") (itoa (sub_ℕ (rate_limit t) (length ring))))
        (codes "X-Ratelimit-Window") (codes "60s")

  over_quota : Tenant → ResponseWriter → ResponseWriter
  unfolding set_header itoa write_error
  over_quota t w =
      fail
        (set_header (set_header w (codes "X-Ratelimit-Limit") (itoa (pos (rate_limit t))))
          (codes "Retry-After") (codes "60"))
        429 (codes "RATE_LIMITED") (codes "quota exceeded; see X-RateLimit-Limit header")

  pub limit_tenant : Tenant → Bytes → Middleware
  unfolding quota_headers over_quota admit_request
  limit_tenant t id next world r w =
      let (rl, ring, ok) = admit_request world.limiter id (rate_limit t) clock.limited in
      let world' = record world { limiter = rl } in
      if ok then next world' r (quota_headers t ring w) else (world', over_quota t w)

  unfoldable pub limiter_middleware : Middleware
  unfolding tenant_from_ctx limit_tenant write_error str_eq
  limiter_middleware next world r w =
      let id = tenant_from_ctx r.context in
      if str_eq id []
      then (world, fail w 401 (codes "UNAUTHENTICATED") (codes "missing tenant"))
      else elim (get g.quotas id) [
        | inl e ↦ (world, fail w 500 (codes "INTERNAL") (codes "rate limiter store error"))
        | inr t ↦ limit_tenant t id next world r w
      ]

  -- Whether authz lets claims do what a route requires.
  unfoldable pub is_allowed : Claims → Permission → Bool
  unfolding str_eq
  is_allowed c required =
      if str_eq required [] then true else has_permission g.policies c.tenant_id c.roles required

  unfoldable pub authz_middleware : Middleware
  unfolding is_allowed write_error
  authz_middleware next world r w = elim r.context.claims [
    | none ↦ (world, fail w 403 (codes "FORBIDDEN") (codes "no identity in context"))
    | some c ↦ if is_allowed c (required_permission r.method r.path) then next world r w else (
      world,
      fail w 403 (codes "FORBIDDEN") (codes "insufficient permissions for this operation"),
    )
  ]

  pub trace_id_of : Request → Bytes
  unfolding header str_eq
  trace_id_of r =
      let given = header r (codes "X-Trace-Id") in
      if str_eq given [] then clock.generated else given

  -- What obs does after the response, with the context that it made; the log line is left out.
  pub observe : Context → World × ResponseWriter → World × ResponseWriter
  unfolding record_for tenant_from_ctx str_eq
  observe ctx (world, w) =
      let id = tenant_from_ctx ctx in
      if str_eq id [] then (world, w) else (
        record world {
          metrics =
              record_for world.metrics id w.recorded ((clock.finished - clock.started) / 1_000_000);
        },
        w,
      )

  abbrev pub traced : Request → Request
  unfolding trace_id_of
  traced r = record r { context = record (r.context) { trace_id = some (trace_id_of r) } }

  unfoldable pub obs_middleware : Middleware
  unfolding trace_id_of set_header observe
  obs_middleware next world r w =
      let rec = record (set_header w (codes "X-Trace-Id") (trace_id_of r)) { recorded = 200 } in
      observe (traced r).context (next world (traced r) rec)

  -- Handler
  unfoldable pub handler : Handler → Handler
  unfolding build obs_middleware authn_middleware tenant_middleware limiter_middleware
      authz_middleware
  handler proxy = build proxy (
      obs_middleware ∷ authn_middleware ∷ tenant_middleware ∷ limiter_middleware ∷ authz_middleware
      ∷ [])
