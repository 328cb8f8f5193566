-- ===== src/Gateway/Chain/Guard.antt =====
-- Which requests the chain lets through to the upstream.
use leetsheet.Prelude.{
  ◌≡◌, refl, ap, ◌∙◌, true, false, [], some, ◌⊎◌, inl, inr, Bool-cases, Option-cases,
}
use leetsheet.Prelude.Text.{Bytes, codes, str_eq}
use leetsheet.Gateway.Http.{Claims, Context, tenant_from_ctx, Request, ResponseWriter, set_header}
use leetsheet.Gateway.Tenants.{Tenant, rate_limit, get}
use leetsheet.Gateway.Policy.{required_permission}
use leetsheet.Gateway.Credentials.{authenticate}
use leetsheet.Gateway.Quota.{admit_request}
use leetsheet.Gateway.Chain.{
  World, Handler, Middleware, build, Gateway, Clock, authn_middleware, tenant_middleware,
  limit_tenant, limiter_middleware, is_allowed, authz_middleware, traced, trace_id_of, observe,
  obs_middleware, handler,
}

pub sum-cases : {A B : Type 0} (x : A ⊎ B) → ((a : A) × (x ≡ inl a)) ⊎ ((b : B) × (x ≡ inr b))
sum-cases (inl a) = inl (a, refl)
sum-cases (inr b) = inr (b, refl)

-- The middleware answers by itself: whatever comes after it is not called.
abbrev pub Blocks : Middleware → World → Request → ResponseWriter → Type 0
Blocks m world r w = (v : World × ResponseWriter) × ((next : Handler) → m next world r w ≡ v)

-- It calls what comes after it, and gives its answer.
abbrev Passes :
    Middleware → World → Request → ResponseWriter → World → Request → ResponseWriter → Type 0
Passes m world r w world' r' w' = (next : Handler) → m next world r w ≡ next world' r' w'

module _ (g : Gateway) (clock : Clock) where
  -- A request with valid credentials, of a tenant that is enabled, that has quota left
  -- by the limit in the limiter's store, and with
  -- roles that allow what the route requires.
  pub record IsPermitted (world : World) (r : Request) : Type 0 where
    pub context : Context
    pub authentic : authenticate g.codec g.authn clock.verified (traced g clock r) ≡ inr context
    pub tenant : Tenant
    pub enabled : get g.tenants (tenant_from_ctx context) ≡ inr tenant
    pub stored : Tenant
    pub limited : get g.quotas tenant.id ≡ inr stored
    pub in_quota :
        (admit_request world.limiter tenant.id (rate_limit stored) clock.limited).2 ≡ true
    pub claims : Claims
    pub identified : context.claims ≡ some claims
    pub allowed : is_allowed g clock claims (required_permission r.method r.path) ≡ true

  authn-cases :
      (world : World) (r : Request) (w : ResponseWriter)
      → Blocks (authn_middleware g clock) world r w
        ⊎ (ctx : Context) × (authenticate g.codec g.authn clock.verified r ≡ inr ctx)
          × Passes (authn_middleware g clock) world r w world (record r { context = ctx }) w
  unfolding authn_middleware
  authn-cases world r w = elim (sum-cases (authenticate g.codec g.authn clock.verified r)) [
    | inl (e, h) ↦ inl (
      authn_middleware g clock (λ a b c. (a, c)) world r w,
      λ next. rw (authn_middleware, h) refl,
    )
    | inr (ctx, h) ↦ inr (ctx, h, λ next. rw (authn_middleware, h) refl)
  ]

  tenant-cases :
      (world : World) (r : Request) (w : ResponseWriter)
      → Blocks (tenant_middleware g clock) world r w
        ⊎ (t : Tenant) × (get g.tenants (tenant_from_ctx r.context) ≡ inr t)
          × Passes
              (tenant_middleware g clock)
              world
              r
              w
              world
              (record r { context = record (r.context) { tenant_id = some t.id } })
              w
  unfolding tenant_middleware
  tenant-cases world r w = elim (sum-cases (get g.tenants (tenant_from_ctx r.context))) [
    | inl (e, h) ↦ inl (
      tenant_middleware g clock (λ a b c. (a, c)) world r w,
      λ next. rw (tenant_middleware, h) refl,
    )
    | inr (t, h) ↦ inr (t, h, λ next. rw (tenant_middleware, h) refl)
  ]

  authz-cases :
      (world : World) (r : Request) (w : ResponseWriter)
      → Blocks (authz_middleware g clock) world r w
        ⊎ (c : Claims) × (r.context.claims ≡ some c)
          × (is_allowed g clock c (required_permission r.method r.path) ≡ true)
  unfolding authz_middleware
  authz-cases world r w = elim (Option-cases r.context.claims) [
    | inl h ↦ inl (
      authz_middleware g clock (λ a b c. (a, c)) world r w,
      λ next. rw (authz_middleware, h) refl,
    )
    | inr (c, h) ↦ elim (Bool-cases (is_allowed g clock c (required_permission r.method r.path))) [
      | inl ok ↦ inr (c, h, ok)
      | inr denied ↦ inl (
        authz_middleware g clock (λ a b c. (a, c)) world r w,
        λ next. rw (authz_middleware, h, denied) refl,
      )
    ]
  ]

  limit_tenant-cases :
      (t : Tenant) (id : Bytes) (world : World) (r : Request) (w : ResponseWriter)
      → Blocks (limit_tenant g clock t id) world r w
        ⊎ ((admit_request world.limiter id (rate_limit t) clock.limited).2 ≡ true)
          × (world' : World) × (w' : ResponseWriter) × Passes
              (limit_tenant g clock t id)
              world
              r
              w
              world'
              r
              w'
  unfolding limit_tenant
  limit_tenant-cases t id world r w =
      elim (Bool-cases (admit_request world.limiter id (rate_limit t) clock.limited).2) [
        | inl ok ↦
            let sample = limit_tenant g clock t id (λ a b c. (a, c)) world r w in
            inr (ok, sample.0, sample.1, λ next. rw (limit_tenant, ok) refl)
        | inr over ↦ inl (
          limit_tenant g clock t id (λ a b c. (a, c)) world r w,
          λ next. rw (limit_tenant, over) refl,
        )
      ]

  limiter-cases :
      (world : World) (r : Request) (w : ResponseWriter)
      → let id = tenant_from_ctx r.context in
        Blocks (limiter_middleware g clock) world r w
        ⊎ (t : Tenant) × (get g.quotas id ≡ inr t)
          × ((admit_request world.limiter id (rate_limit t) clock.limited).2 ≡ true)
          × (world' : World) × (w' : ResponseWriter) × Passes
              (limiter_middleware g clock)
              world
              r
              w
              world'
              r
              w'
  unfolding limiter_middleware limit_tenant
  limiter-cases world r w = elim (Bool-cases (str_eq (tenant_from_ctx r.context) [])) [
    | inl e ↦ inl (
      limiter_middleware g clock (λ a b c. (a, c)) world r w,
      λ next. rw (limiter_middleware, e) refl,
    )
    | inr e ↦ elim (sum-cases (get g.quotas (tenant_from_ctx r.context))) [
      | inl (x, h) ↦ inl (
        limiter_middleware g clock (λ a b c. (a, c)) world r w,
        λ next. rw (limiter_middleware, e, h) refl,
      )
      | inr (t, h) ↦ elim (limit_tenant-cases t (tenant_from_ctx r.context) world r w) [
        | inl (v, k) ↦ inl (v, λ next. opened t next e h ∙ k next)
        | inr (ok, world', w', k) ↦ inr (t, h, ok, world', w', λ next. opened t next e h ∙ k next)
      ]
    ]
  ]
    where
      opened :
          (t : Tenant) (next : Handler)
          → str_eq (tenant_from_ctx r.context) [] ≡ false
          → get g.quotas (tenant_from_ctx r.context) ≡ inr t
          → limiter_middleware g clock next world r w
            ≡ limit_tenant g clock t (tenant_from_ctx r.context) next world r w
      opened t next e h = rw (limiter_middleware, e, h) refl

  abbrev guarded : Middleware
  guarded proxy =
      authn_middleware g clock
        (tenant_middleware g clock (limiter_middleware g clock (authz_middleware g clock proxy)))

  guarded-cases :
      (world : World) (r : Request) (w : ResponseWriter)
      → Blocks guarded world (traced g clock r) w ⊎ IsPermitted world r
  unfolding tenant_from_ctx traced
  guarded-cases world r w = elim (authn-cases world (traced g clock r) w) [
    | inl (v, h) ↦ inl (v, λ p. h _)
    | inr (ctx, authentic, pass) ↦
        elim (tenant-cases world (record (traced g clock r) { context = ctx }) w) [
          | inl b ↦ inl (b.0, λ p. pass _ ∙ b.1 _)
          | inr (t, enabled, pass') ↦
              let r' = record (traced g clock r) {
                context = record ctx { tenant_id = some t.id };
              } in
              elim (limiter-cases world r' w) [
                | inl b ↦ inl (b.0, λ p. pass _ ∙ pass' _ ∙ b.1 _)
                | inr (stored, limited, in_quota, world', w', pass'') ↦
                    elim (authz-cases world' r' w') [
                      | inl b ↦ inl (b.0, λ p. pass _ ∙ pass' _ ∙ pass'' _ ∙ b.1 _)
                      | inr (c, identified, ok) ↦ inr (record {
                        context = ctx;
                        authentic = authentic;
                        tenant = t;
                        enabled = enabled;
                        stored = stored;
                        limited = limited;
                        in_quota = in_quota;
                        claims = c;
                        identified = identified;
                        allowed = ok;
                      })
                    ]
              ]
        ]
  ]

  -- Every request that reaches the upstream is permitted: of any other, the chain's answer, and what
  -- it does to the world, are the same whatever the upstream does.
  pub handler-guards :
      (world : World) (r : Request) (w : ResponseWriter)
      → Blocks (handler g clock) world r w ⊎ IsPermitted world r
  unfolding handler build obs_middleware
  handler-guards world r w =
      elim (guarded-cases world r
        (record (set_header w (codes "X-Trace-Id") (trace_id_of g clock r)) { recorded = 200 })) [
          | inl (v, h) ↦ inl (
            observe g clock (traced g clock r).context v,
            λ p. ap (observe g clock (traced g clock r).context) (h p),
          )
          | inr ok ↦ inr ok
        ]
