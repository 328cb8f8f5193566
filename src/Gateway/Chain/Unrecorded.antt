-- ===== src/Gateway/Chain/Unrecorded.antt =====
-- The metrics of the gateway over whole requests.
use leetsheet.Prelude.{◌≡◌, refl, [], none, inl, inr, Bool-cases, Option-cases}
use leetsheet.Prelude.Text.{codes, str_eq}
use leetsheet.Gateway.Http.{Request, ResponseWriter, set_header, tenant_from_ctx}
use leetsheet.Gateway.Tenants.{get, rate_limit}
use leetsheet.Gateway.Credentials.{authenticate}
use leetsheet.Gateway.Policy.{required_permission}
use leetsheet.Gateway.Quota.{admit_request}
use leetsheet.Gateway.Chain.{
  World, Handler, build, Gateway, Clock, authn_middleware, tenant_middleware, limit_tenant,
  limiter_middleware, is_allowed, authz_middleware, traced, trace_id_of, observe, obs_middleware,
  handler,
}
use leetsheet.Gateway.Chain.Guard.{sum-cases}

-- The handler leaves the metrics as they are.
abbrev pub Keeps : Handler → Type 0
Keeps h =
    (world : World) (r : Request) (w : ResponseWriter) → (h world r w).0.metrics ≡ world.metrics

module _ (g : Gateway) (clock : Clock) where
  authn-Keeps : (next : Handler) → Keeps next → Keeps (authn_middleware g clock next)
  unfolding authn_middleware
  authn-Keeps next k world r w = elim (sum-cases (authenticate g.codec g.authn clock.verified r)) [
    | inl (e, h) ↦ rw (authn_middleware, h) refl
    | inr (ctx, h) ↦ rw (authn_middleware, h) (k world (record r { context = ctx }) w)
  ]

  tenant-Keeps : (next : Handler) → Keeps next → Keeps (tenant_middleware g clock next)
  unfolding tenant_middleware
  tenant-Keeps next k world r w = elim (sum-cases (get g.tenants (tenant_from_ctx r.context))) [
    | inl (e, h) ↦ rw (tenant_middleware, h) refl
    | inr (t, h) ↦ rw (tenant_middleware, h) (k world _ w)
  ]

  authz-Keeps : (next : Handler) → Keeps next → Keeps (authz_middleware g clock next)
  unfolding authz_middleware
  authz-Keeps next k world r w = elim (Option-cases r.context.claims) [
    | inl h ↦ rw (authz_middleware, h) refl
    | inr (c, h) ↦ elim (Bool-cases (is_allowed g clock c (required_permission r.method r.path))) [
      | inl ok ↦ rw (authz_middleware, h, ok) (k world r w)
      | inr denied ↦ rw (authz_middleware, h, denied) refl
    ]
  ]

  limiter-Keeps : (next : Handler) → Keeps next → Keeps (limiter_middleware g clock next)
  unfolding limiter_middleware limit_tenant
  limiter-Keeps next k world r w = elim (Bool-cases (str_eq (tenant_from_ctx r.context) [])) [
    | inl e ↦ rw (limiter_middleware, e) refl
    | inr e ↦ elim (sum-cases (get g.quotas (tenant_from_ctx r.context))) [
      | inl (x, h) ↦ rw (limiter_middleware, e, h) refl
      | inr (t, h) ↦
          let id = tenant_from_ctx r.context in
          elim (Bool-cases (admit_request world.limiter id (rate_limit t) clock.limited).2) [
            | inl ok ↦ rw (limiter_middleware, e, h, limit_tenant, ok) (k _ r _)
            | inr over ↦ rw (limiter_middleware, e, h, limit_tenant, over) refl
          ]
    ]
  ]

  -- If the upstream leaves the metrics alone, then so does the whole gateway, on every request that
  -- comes without a tenant in its context: nothing is recorded of it, whether a middleware refuses it or
  -- authn finds the tenant that it is from and the upstream serves it.
  pub handler-records_nothing :
      (proxy : Handler) (world : World) (r : Request) (w : ResponseWriter)
      → Keeps proxy
      → r.context.tenant_id ≡ none
      → (handler g clock proxy world r w).0.metrics ≡ world.metrics
  unfolding handler build obs_middleware observe tenant_from_ctx
  handler-records_nothing proxy world r w k h =
      let inner : Handler = authz_middleware g clock proxy in
      let limited : Handler = limiter_middleware g clock inner in
      let scoped : Handler = tenant_middleware g clock limited in
      rw h (
        authn-Keeps scoped (tenant-Keeps limited (limiter-Keeps inner (authz-Keeps proxy k))) world
          (traced g clock r)
          (record (set_header w (codes "X-Trace-Id") (trace_id_of g clock r)) { recorded = 200 }))
