-- ===== src/Gateway/Policy.antt =====
-- system-design/api-gateway/authz.go: roles, the policy store, permissions and the route table.
pub mod Laws
use leetsheet.Prelude.{
  ℕ, zero, suc, Bool, true, false, not, ◌&&◌, ◌||◌, List, [], ◌∷◌, ◌++◌, Option, none, some, ltb,
  ◌==◌, if◌then◌else◌, length,
}
use leetsheet.Prelude.Maps.{lookup, insert, bytes_eq}
use leetsheet.Prelude.Text.{Bytes, codes, str_eq, has_prefix}

abbrev pub Permission : Type 0
Permission = Bytes

abbrev pub perm_read : Permission
perm_read = codes "*:read"

abbrev pub perm_write : Permission
perm_write = codes "*:write"

abbrev pub perm_delete : Permission
perm_delete = codes "*:delete"

abbrev pub perm_billing : Permission
perm_billing = codes "billing:admin"

pub record Role : Type 0 where
  pub name : Bytes
  pub permissions : List Permission

unfoldable pub builtin_roles : List (Bytes × Role)
builtin_roles =
    (codes "viewer", record { name = codes "viewer"; permissions = perm_read ∷ [] })
    ∷ (codes "editor", record { name = codes "editor"; permissions = perm_read ∷ perm_write ∷ [] })
    ∷ (
      codes "admin",
      record {
        name = codes "admin";
        permissions = perm_read ∷ perm_write ∷ perm_delete ∷ perm_billing ∷ [];
      },
    )
    ∷ []

-- MemPolicyStore: roles by tenant, then by name.
abbrev pub MemPolicyStore : Type 0
MemPolicyStore = List (Bytes × List (Bytes × Role))

unfoldable pub or_nil {ℓ} : {A : Type ℓ} → Option (List A) → List A
or_nil none = []
or_nil (some m) = m

unfoldable pub add_role : MemPolicyStore → Bytes → Role → MemPolicyStore
unfolding lookup insert or_nil
add_role s tenant role = insert tenant (insert role.name role (or_nil (lookup tenant s))) s

-- The permissions of the first role that is there.
unfoldable pub permissions_of : Option Role → Option Role → List Permission
permissions_of (some own) builtin = own.permissions
permissions_of none (some r) = r.permissions
permissions_of none none = []

-- RolePermissions; looking a role up in no map at all finds nothing.
unfoldable pub role_permissions : MemPolicyStore → Bytes → Bytes → List Permission
unfolding lookup or_nil permissions_of builtin_roles
role_permissions s tenant role =
    permissions_of (lookup role (or_nil (lookup tenant s))) (lookup role builtin_roles)

-- strings.SplitN(s, ":", 2)
unfoldable pub split_colon : Bytes → List Bytes
split_colon [] = [] ∷ []
split_colon (c ∷ s) = if c == 58 then [] ∷ s ∷ [] else in_front c (split_colon s)
  where
    in_front : ℕ → List Bytes → List Bytes
    in_front c [] = []
    in_front c (p ∷ ps) = (c ∷ p) ∷ ps

abbrev star : Bytes
star = 42 ∷ []

unfoldable pub match_parts : List Bytes → List Bytes → Bool
unfolding str_eq
match_parts (g ∷ h ∷ []) (r ∷ a ∷ []) =
    (str_eq g star || str_eq g r) && (str_eq h star || str_eq h a)
match_parts _ _ = false

unfoldable pub match_permission : Permission → Permission → Bool
unfolding str_eq match_parts split_colon
match_permission granted required =
    if str_eq granted required
    then true
    else match_parts (split_colon granted) (split_colon required)

-- The loops of hasPermission.
unfoldable pub any_matches : List Permission → Permission → Bool
unfolding match_permission
any_matches [] required = false
any_matches (p ∷ ps) required =
    if match_permission p required then true else any_matches ps required

-- A policy store is what RolePermissions answers.
unfoldable pub has_permission :
    (Bytes → Bytes → List Permission) → Bytes → List Bytes → Permission → Bool
unfolding any_matches
has_permission store tenant [] required = false
has_permission store tenant (role ∷ roles) required =
    if any_matches (store tenant role) required
    then true
    else has_permission store tenant roles required

pub record Rule : Type 0 where
  pub method : Bytes
  pub prefix : Bytes
  pub perm : Permission

unfoldable pub route_permissions : List Rule
route_permissions =
    record { method = codes "GET"; prefix = codes "/api/"; perm = perm_read }
    ∷ record { method = codes "POST"; prefix = codes "/api/"; perm = perm_write }
    ∷ record { method = codes "PUT"; prefix = codes "/api/"; perm = perm_write }
    ∷ record { method = codes "PATCH"; prefix = codes "/api/"; perm = perm_write }
    ∷ record { method = codes "DELETE"; prefix = codes "/api/"; perm = perm_delete }
    ∷ record { method = codes "POST"; prefix = codes "/api/billing/"; perm = perm_billing }
    ∷ []

unfoldable pub applies : Rule → Bytes → Bytes → Bool
unfolding str_eq has_prefix
applies rule method path = str_eq rule.method method && has_prefix path rule.prefix

-- The loop of requiredPermission, with the best permission and prefix so far.
unfoldable pub best_rule : List Rule → Bytes → Bytes → Permission → Bytes → Permission × Bytes
unfolding applies
best_rule [] method path perm prefix = (perm, prefix)
best_rule (rule ∷ rules) method path perm prefix =
    if applies rule method path && ltb (length prefix) (length rule.prefix)
    then best_rule rules method path rule.perm rule.prefix
    else best_rule rules method path perm prefix

unfoldable pub required_permission : Bytes → Bytes → Permission
unfolding best_rule route_permissions
required_permission method path = (best_rule route_permissions method path [] []).0
