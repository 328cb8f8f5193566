-- ===== src/Gateway/Policy/Laws.antt =====
-- What authz.go decides: wildcards, roles of other tenants, and the choice of a route's rule.
use leetsheet.Prelude.{
  ◌≤◌, ◌≡◌, ◌≢◌, ◌⊎◌, ◌↔◌, inl, inr, refl, sym, ap, ◌∙◌, Bool, true, false, ◌&&◌, ◌||◌, List, [],
  ◌∷◌, ◌++◌, arith, ltb, ◌==◌, length, All, Bool-cases, if-cases,
}
use leetsheet.Prelude.Maps.{lookup, insert, bytes_eq, lookup-insert_self, lookup-insert_ne}
use leetsheet.Prelude.Text.{Bytes, str_eq, str_eq_refl, str_eq_iff}
use leetsheet.Gateway.Policy.{
  Permission, Role, MemPolicyStore, or_nil, add_role, permissions_of, role_permissions, split_colon,
  star, match_parts, match_permission, any_matches, has_permission, Rule, applies, best_rule,
}

-- No colon stands in the text.
abbrev pub NoColon : Bytes → Type 0
NoColon s = All (λ c. c ≢ 58) s

split_colon-join : (a b : Bytes) → NoColon a → split_colon (a ++ (58 ∷ b)) ≡ a ∷ b ∷ []
unfolding split_colon
split_colon-join [] b h = refl
split_colon-join (c ∷ a) b h =
    let differs : (c == 58) ≡ false = ground (arith, h.0) in
    rw (differs, split_colon-join a b h.1) refl

append-eq_parts :
    (a b c d : Bytes) → NoColon a → NoColon c → a ++ (58 ∷ b) ≡ c ++ (58 ∷ d) → (a ≡ c) × (b ≡ d)
append-eq_parts a b c d h k e =
    let parts : a ∷ b ∷ [] ≡ c ∷ d ∷ [] =
      sym (split_colon-join a b h) ∙ ap split_colon e ∙ split_colon-join c d k in
    (cc, cc)

-- Of "resource:action" texts, a granted one matches a required one exactly if its resource is "*"
-- or the same and its action is "*" or the same.
match_permission-join :
    (a b c d : Bytes)
    → NoColon a
    → NoColon c
    → match_permission (a ++ (58 ∷ b)) (c ++ (58 ∷ d))
      ≡ (str_eq a star || str_eq a c) && (str_eq b star || str_eq b d)
unfolding match_permission match_parts
match_permission-join a b c d h k = elim (Bool-cases (str_eq (a ++ (58 ∷ b)) (c ++ (58 ∷ d)))) [
  | inl e ↦
      let (x, y) = append-eq_parts a b c d h k ((str_eq_iff (a ++ (58 ∷ b)) (c ++ (58 ∷ d))).0 e) in
      rw (e, x, y, str_eq_refl c, str_eq_refl d) (ground arith)
  | inr e ↦ rw (e, split_colon-join a b h, split_colon-join c d k) refl
]

-- A role that a tenant adds is what its name gives for that tenant, before any built-in role; its
-- other roles, and every role of every other tenant, give what they gave before.
pub role_permissions-add_role :
    (s : MemPolicyStore) (tenant other : Bytes) (role : Role) (name : Bytes)
    → (role_permissions (add_role s tenant role) tenant role.name ≡ role.permissions)
      × (role.name ≢ name
          → role_permissions (add_role s tenant role) tenant name ≡ role_permissions s tenant name)
      × (tenant ≢ other
          → role_permissions (add_role s tenant role) other name ≡ role_permissions s other name)
unfolding role_permissions add_role permissions_of or_nil
role_permissions-add_role s tenant other role name =
    let roles = or_nil (lookup tenant s) in
    (
      rw
          (
            lookup-insert_self tenant (insert role.name role roles) s,
            lookup-insert_self role.name role roles,
          )
          refl,
      λ h.
          rw
            (
              lookup-insert_self tenant (insert role.name role roles) s,
              lookup-insert_ne role.name name role roles h,
            )
            refl,
      λ h. rw (lookup-insert_ne tenant other (insert role.name role roles) s h) refl,
    )

-- Some entry has the property.
abbrev pub Some : {A : Type 0} → (A → Type 0) → List A → Type 0
Some P [] = ⊥
Some P (x ∷ xs) = P x ⊎ Some P xs

-- The permission is "resource:action", with its resource "*" or the given one and its action "*" or
-- the given one.
pub record Grants (p resource action : Bytes) : Type 0 where
  pub granted_resource : Bytes
  pub granted_action : Bytes
  pub text : p ≡ granted_resource ++ (58 ∷ granted_action)
  pub whole : NoColon granted_resource
  pub on_resource : (granted_resource ≡ 42 ∷ []) ⊎ (granted_resource ≡ resource)
  pub on_action : (granted_action ≡ 42 ∷ []) ⊎ (granted_action ≡ action)

-- A text with a colon, or without one.
split_colon-cases :
    (s : Bytes)
    → ((a : Bytes) × (b : Bytes) × NoColon a × (s ≡ a ++ (58 ∷ b))) ⊎ (split_colon s ≡ s ∷ [])
unfolding split_colon
split_colon-cases [] = inr refl
split_colon-cases (c ∷ s) = elim (Bool-cases (c == 58)) [
  | inl e ↦ inl ([], s, tt, ap (λ x. x ∷ s) (ground (arith, e)))
  | inr e ↦ elim (split_colon-cases s) [
    | inl (a, b, h, k) ↦ inl (c ∷ a, b, ((λ x. ground (arith, e, x)), h), ap (λ x. c ∷ x) k)
    | inr k ↦ inr (rw (e, k) refl)
  ]
]

either : (x y : Bool) → (x || y) ≡ true → (x ≡ true) ⊎ (y ≡ true)
either x y h = ground arith

both : (x y : Bool) → (x && y) ≡ true → (x ≡ true) × (y ≡ true)
both x y h = ground arith

one_of : (a b c : Bytes) → (str_eq a b || str_eq a c) ≡ true → (a ≡ b) ⊎ (a ≡ c)
one_of a b c h = elim (either (str_eq a b) (str_eq a c) h) [
  | inl e ↦ inl ((str_eq_iff a b).0 e)
  | inr e ↦ inr ((str_eq_iff a c).0 e)
]

is_one_of : (a b c : Bytes) → (a ≡ b) ⊎ (a ≡ c) → (str_eq a b || str_eq a c) ≡ true
is_one_of a b c (inl e) = let h = (str_eq_iff a b).1 e in ground (arith, h)
is_one_of a b c (inr e) = let h = (str_eq_iff a c).1 e in ground (arith, h)

no_parts :
    (p c d : Bytes)
    → NoColon c
    → match_parts (split_colon p) (split_colon (c ++ (58 ∷ d))) ≡ true
    → split_colon p ≡ p ∷ []
    → ⊥
unfolding match_parts
no_parts p c d k h t = clash (ap (λ x. match_parts x (split_colon (c ++ (58 ∷ d)))) (sym t) ∙ h)
  where
    clash : false ≡ true → ⊥
    clash h = cc

match_permission-Grants :
    (p c d : Bytes) → NoColon c → match_permission p (c ++ (58 ∷ d)) ≡ true → Grants p c d
unfolding match_permission
match_permission-Grants p c d k h = elim (Bool-cases (str_eq p (c ++ (58 ∷ d)))) [
  | inl e ↦ record {
    granted_resource = c;
    granted_action = d;
    text = (str_eq_iff p (c ++ (58 ∷ d))).0 e;
    whole = k;
    on_resource = inr refl;
    on_action = inr refl;
  }
  | inr e ↦ elim (split_colon-cases p) [
    | inl (a, b, n, t) ↦
        let met = both _ _ (
          sym (match_permission-join a b c d n k)
          ∙ ap (λ x. match_permission x (c ++ (58 ∷ d))) (sym t)
          ∙ h) in
        record {
          granted_resource = a;
          granted_action = b;
          text = t;
          whole = n;
          on_resource = one_of a star c met.0;
          on_action = one_of b star d met.1;
        }
    | inr t ↦ absurd (no_parts p c d k (ground (arith, e, h)) t)
  ]
]

-- matchPermission, for a required permission "resource:action".
match_permission_iff :
    (p c d : Bytes) → NoColon c → (match_permission p (c ++ (58 ∷ d)) ≡ true) ↔ Grants p c d
match_permission_iff p c d k = (match_permission-Grants p c d k, back)
  where
    back : Grants p c d → match_permission p (c ++ (58 ∷ d)) ≡ true
    back g =
        let x = is_one_of g.granted_resource star c g.on_resource in
        let y = is_one_of g.granted_action star d g.on_action in
        ap (λ z. match_permission z (c ++ (58 ∷ d))) g.text
        ∙ match_permission-join g.granted_resource g.granted_action c d g.whole k
        ∙ ground (arith, x, y)

any_matches_iff :
    (ps : List Permission) (c d : Bytes)
    → NoColon c
    → (any_matches ps (c ++ (58 ∷ d)) ≡ true) ↔ Some (λ p. Grants p c d) ps
unfolding any_matches
any_matches_iff [] c d k = (λ h. cc, λ h. absurd h)
any_matches_iff (p ∷ ps) c d k =
    let one = match_permission_iff p c d k in
    let (there, back) = any_matches_iff ps c d k in
    elim (Bool-cases (match_permission p (c ++ (58 ∷ d)))) [
      | inl e ↦ rw e (λ h. inl (one.0 e), λ h. refl)
      | inr e ↦ rw e (
        λ h. inr (there h),
        λ h. elim h [ inl now ↦ absurd (clash e (one.1 now)) | inr rest ↦ back rest ],
      )
    ]
  where
    clash : {b : Bool} → b ≡ false → b ≡ true → ⊥
    clash h k = cc

-- For a required permission "resource:action", hasPermission answers that the request may pass exactly
-- if some of its roles has, by the store and for its tenant, a permission "resource:action" whose
-- resource is "*" or the required one and whose action is "*" or the required one.
pub has_permission_iff :
    (store : Bytes → Bytes → List Permission) (tenant : Bytes) (roles : List Bytes)
    (resource action : Bytes)
    → NoColon resource
    → (has_permission store tenant roles (resource ++ (58 ∷ action)) ≡ true)
      ↔ Some (λ role. Some (λ p. Grants p resource action) (store tenant role)) roles
unfolding has_permission
has_permission_iff store tenant [] c d k = (λ h. cc, λ h. absurd h)
has_permission_iff store tenant (role ∷ roles) c d k =
    let (found, held) = any_matches_iff (store tenant role) c d k in
    let (there, back) = has_permission_iff store tenant roles c d k in
    elim (Bool-cases (any_matches (store tenant role) (c ++ (58 ∷ d)))) [
      | inl e ↦ rw e (λ h. inl (found e), λ h. refl)
      | inr e ↦ rw e (
        λ h. inr (there h),
        λ h. elim h [ inl now ↦ absurd (clash e (held now)) | inr rest ↦ back rest ],
      )
    ]
  where
    clash : {b : Bool} → b ≡ false → b ≡ true → ⊥
    clash h k = cc

-- The prefixes of the rules that apply are no longer than a text.
abbrev pub NoLonger : Bytes → Bytes → Bytes → List Rule → Type 0
NoLonger best method path rules =
    All (λ r. applies r method path ≡ true → length r.prefix ≤ length best) rules

-- What the loop makes of the rules that are left, given the best so far.
abbrev Chosen : List Rule → Bytes → Bytes → Permission → Bytes → Permission × Bytes → Type 0
Chosen rules method path perm prefix r =
    (length prefix ≤ length r.1)
    × NoLonger r.1 method path rules
    × (((r.0 ≡ perm) × (r.1 ≡ prefix))
        ⊎ Some (λ x. (applies x method path ≡ true) × (x.perm ≡ r.0) × (x.prefix ≡ r.1)) rules)

best_rule-longest :
    (rules : List Rule) (method path : Bytes) (perm : Permission) (prefix : Bytes)
    → Chosen rules method path perm prefix (best_rule rules method path perm prefix)
unfolding best_rule
best_rule-longest [] method path perm prefix = (omega arith, tt, inl (refl, refl))
best_rule-longest (rule ∷ rules) method path perm prefix =
    if-cases (Chosen (rule ∷ rules) method path perm prefix)
      (applies rule method path && ltb (length prefix) (length rule.prefix))
      (λ e.
        let (grown, longest, origin) = best_rule-longest rules method path rule.perm rule.prefix in
        (
          ground arith,
          ((λ h. grown), longest),
          inr (from_new (best_rule rules method path rule.perm rule.prefix) (ground arith) origin),
        ))
      (λ e.
        let (grown, longest, origin) = best_rule-longest rules method path perm prefix in
        (
          grown,
          ((λ h. ground arith), longest),
          from_old (best_rule rules method path perm prefix) origin,
        ))
  where
    from_new :
        (r : Permission × Bytes)
        → applies rule method path ≡ true
        → ((r.0 ≡ rule.perm) × (r.1 ≡ rule.prefix))
          ⊎ Some (λ x. (applies x method path ≡ true) × (x.perm ≡ r.0) × (x.prefix ≡ r.1)) rules
        → Some
            (λ x. (applies x method path ≡ true) × (x.perm ≡ r.0) × (x.prefix ≡ r.1))
            (rule ∷ rules)
    from_new r e (inl same) = inl (e, sym same.0, sym same.1)
    from_new r e (inr rest) = inr rest

    from_old :
        (r : Permission × Bytes)
        → ((r.0 ≡ perm) × (r.1 ≡ prefix))
          ⊎ Some (λ x. (applies x method path ≡ true) × (x.perm ≡ r.0) × (x.prefix ≡ r.1)) rules
        → ((r.0 ≡ perm) × (r.1 ≡ prefix))
          ⊎ Some
              (λ x. (applies x method path ≡ true) × (x.perm ≡ r.0) × (x.prefix ≡ r.1))
              (rule ∷ rules)
    from_old r (inl same) = inl same
    from_old r (inr rest) = inr (inr rest)

-- The permission that a table of rules requires is that of a rule that applies and than whose
-- prefix no rule that applies has a longer one; or none, if every such rule has an empty prefix.
pub best_rule-required :
    (rules : List Rule) (method path : Bytes)
    → let r = best_rule rules method path [] [] in
      NoLonger r.1 method path rules
      × (((r.0 ≡ []) × (r.1 ≡ []))
          ⊎ Some (λ x. (applies x method path ≡ true) × (x.perm ≡ r.0) × (x.prefix ≡ r.1)) rules)
best_rule-required rules method path =
    let c = best_rule-longest rules method path [] [] in (c.1, c.2)
