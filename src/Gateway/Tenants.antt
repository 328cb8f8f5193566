-- ===== src/Gateway/Tenants.antt =====
-- system-design/api-gateway/tenant.go: tenants, their quotas, and the store in memory.
use leetsheet.Prelude.{
  ℕ, ◌≡◌, ◌≢◌, ◌⊎◌, inl, inr, ◌∙◌, refl, ap, Bool, true, false, not, List, [], ◌∷◌, Option, none,
  some, if◌then◌else◌,
}
use leetsheet.Prelude.Int.{ℤ, pos, pos_part, ltb_ℤ}
use leetsheet.Prelude.Maps.{lookup, insert, bytes_eq, lookup-insert_self, lookup-insert_ne}
use leetsheet.Prelude.Text.{Bytes, codes, str_eq}

-- A plan is any string; other than these two it counts as free.
abbrev pub plan_pro : Bytes
plan_pro = codes "pro"

abbrev pub plan_enterprise : Bytes
plan_enterprise = codes "enterprise"

pub record Tenant : Type 0 where
  pub id : Bytes
  pub slug : Bytes
  pub plan : Bytes
  pub enabled : Bool
  pub created_at : ℕ
  pub rate_limit_override : ℤ

-- RateLimit; no branch gives a negative number.
unfoldable pub rate_limit : Tenant → ℕ
unfolding str_eq
rate_limit t =
    if ltb_ℤ (pos 0) t.rate_limit_override
    then pos_part t.rate_limit_override
    else if str_eq t.plan plan_enterprise
    then 10_000
    else if str_eq t.plan plan_pro
    then 1_000
    else 100

abbrev pub TenantStore : Type 0
TenantStore = List (Bytes × Tenant)

pub data TenantError : Type 0 where
  tenant_not_found tenant_disabled : TenantError

pub upsert : TenantStore → Tenant → TenantStore
unfolding insert
upsert m t = insert t.id t m

-- NewMemTenantStore
pub new_mem_tenant_store : List Tenant → TenantStore
unfolding upsert
new_mem_tenant_store seeds = go [] seeds
  where
    go : TenantStore → List Tenant → TenantStore
    go m [] = m
    go m (t ∷ ts) = go (upsert m t) ts

-- What Get makes of the map's answer.
pub checked : Option Tenant → TenantError ⊎ Tenant
checked none = inl tenant_not_found
checked (some t) = if not t.enabled then inl tenant_disabled else inr t

unfoldable pub get : TenantStore → Bytes → TenantError ⊎ Tenant
unfolding checked lookup
get m id = checked (lookup id m)

-- After Upsert the store gives that tenant if it is enabled and refuses it as disabled otherwise,
-- and every other one as before.
pub get-upsert :
    (m : TenantStore) (t : Tenant) (id : Bytes)
    → (get (upsert m t) t.id ≡ (if t.enabled then inr t else inl tenant_disabled))
      × (t.id ≢ id → get (upsert m t) id ≡ get m id)
unfolding get checked upsert
get-upsert m t id = (
  ap checked (lookup-insert_self t.id t m) ∙ by_enabled t.enabled refl,
  λ h. ap checked (lookup-insert_ne t.id id t m h),
)
  where
    by_enabled :
        (b : Bool)
        → t.enabled ≡ b
        → checked (some t) ≡ (if t.enabled then inr t else inl tenant_disabled)
    by_enabled true e = rw e refl
    by_enabled false e = rw e refl
