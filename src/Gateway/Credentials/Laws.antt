-- ===== src/Gateway/Credentials/Laws.antt =====
-- What authn.go accepts, and with which error it refuses the rest.
use leetsheet.Prelude.{
  ℕ, ◌≡◌, ◌≢◌, ◌⊎◌, inl, inr, refl, Bool, true, false, List, [], ◌∷◌, ◌++◌, none, some, Bool-cases,
  Option-cases,
}
use leetsheet.Prelude.Maps.{bytes_eq, lookup-insert_self, lookup-insert_ne}
use leetsheet.Prelude.Text.{Bytes, str_eq, str_eq_iff}
use leetsheet.Gateway.Http.{Claims}
use leetsheet.Gateway.Credentials.{
  Codec, AuthError, expected_3_parts, invalid_signature, malformed_payload, malformed_claims,
  jwt_expired, issuer_mismatch, audience_mismatch, missing_tid, expired, JwtVerifier, split_dots,
  check_claims, read_claims, verify_parts, verify, ApiKeyRecord, ApiKeyStore, register, lookup_key,
}

-- The claims that a verifier takes at a time.
pub record AreGood (v : JwtVerifier) (now : ℕ) (c : Claims) : Type 0 where
  pub fresh : expired c now ≡ false
  pub issued : c.issuer ≡ v.issuer
  pub addressed : c.audience ≡ v.aud
  pub tenanted : c.tenant_id ≢ []

-- What is the first thing that is wrong with claims.
abbrev pub Fault : JwtVerifier → ℕ → Claims → AuthError → Type 0
Fault v now c e =
    ((e ≡ jwt_expired) × (expired c now ≡ true))
    ⊎ ((e ≡ issuer_mismatch) × (expired c now ≡ false) × (c.issuer ≢ v.issuer))
    ⊎ ((e ≡ audience_mismatch)
        × (expired c now ≡ false)
        × (c.issuer ≡ v.issuer)
        × (c.audience ≢ v.aud))
    ⊎ ((e ≡ missing_tid)
        × (expired c now ≡ false)
        × (c.issuer ≡ v.issuer)
        × (c.audience ≡ v.aud)
        × (c.tenant_id ≡ []))

str_ne : {a b : Bytes} → str_eq a b ≡ false → a ≢ b
str_ne {a} {b} h e = absurd (clash h ((str_eq_iff a b).1 e))
  where
    clash : {x : Bool} → x ≡ false → x ≡ true → ⊥
    clash p q = cc

-- Claims that are good are returned as they are, and any others are refused with the first fault.
pub check_claims-cases :
    (v : JwtVerifier) (now : ℕ) (c : Claims)
    → ((check_claims v now c ≡ inr c) × AreGood v now c)
      ⊎ ((e : AuthError) × (check_claims v now c ≡ inl e) × Fault v now c e)
unfolding check_claims
check_claims-cases v now c = elim (Bool-cases (expired c now)) [
  | inl late ↦ inr (jwt_expired, rw late refl, inl (refl, late))
  | inr fresh ↦ elim (Bool-cases (str_eq c.issuer v.issuer)) [
    | inr i ↦ inr (issuer_mismatch, rw (fresh, i) refl, inr (inl (refl, fresh, str_ne i)))
    | inl i ↦
        let issued : c.issuer ≡ v.issuer = (str_eq_iff c.issuer v.issuer).0 i in
        elim (Bool-cases (str_eq c.audience v.aud)) [
          | inr a ↦ inr (
            audience_mismatch,
            rw (fresh, i, a) refl,
            inr (inr (inl (refl, fresh, issued, str_ne a))),
          )
          | inl a ↦
              let addressed : c.audience ≡ v.aud = (str_eq_iff c.audience v.aud).0 a in
              elim (Bool-cases (str_eq c.tenant_id [])) [
                | inl t ↦ inr (
                  missing_tid,
                  rw (fresh, i, a, t) refl,
                  inr (inr (inr (refl, fresh, issued, addressed, (str_eq_iff c.tenant_id []).0 t))),
                )
                | inr t ↦ inl (
                  rw (fresh, i, a, t) refl,
                  record {
                    fresh = fresh;
                    issued = issued;
                    addressed = addressed;
                    tenanted = str_ne t;
                  },
                )
              ]
        ]
  ]
]

module _ (codec : Codec) (v : JwtVerifier) (now : ℕ) where
  -- Three parts of which the last signs the first two, and whose payload holds good claims.
  pub record Accepted (parts : List Bytes) (c : Claims) : Type 0 where
    pub head : Bytes
    pub payload : Bytes
    pub mac : Bytes
    pub json : Bytes
    pub split : parts ≡ head ∷ payload ∷ mac ∷ []
    pub signed : codec.signature v.secret (head ++ (46 ∷ payload)) ≡ mac
    pub decoded : codec.decode payload ≡ some json
    pub parsed : codec.unmarshal json ≡ some c
    pub good : AreGood v now c

  -- The cause of each error; each one comes only if those before it do not.
  pub data Refused (parts : List Bytes) : AuthError → Type 0 where
    malformed : ((h p m : Bytes) → parts ≢ h ∷ p ∷ m ∷ []) → Refused parts expected_3_parts
    forged :
        (h p m : Bytes)
        → parts ≡ h ∷ p ∷ m ∷ []
        → codec.signature v.secret (h ++ (46 ∷ p)) ≢ m
        → Refused parts invalid_signature
    undecoded :
        (h p m : Bytes)
        → parts ≡ h ∷ p ∷ m ∷ []
        → codec.signature v.secret (h ++ (46 ∷ p)) ≡ m
        → codec.decode p ≡ none
        → Refused parts malformed_payload
    unparsed :
        (h p m json : Bytes)
        → parts ≡ h ∷ p ∷ m ∷ []
        → codec.signature v.secret (h ++ (46 ∷ p)) ≡ m
        → codec.decode p ≡ some json
        → codec.unmarshal json ≡ none
        → Refused parts malformed_claims
    faulty :
        (h p m json : Bytes) (c : Claims) (e : AuthError)
        → parts ≡ h ∷ p ∷ m ∷ []
        → codec.signature v.secret (h ++ (46 ∷ p)) ≡ m
        → codec.decode p ≡ some json
        → codec.unmarshal json ≡ some c
        → Fault v now c e
        → Refused parts e

  abbrev Outcome : List Bytes → AuthError ⊎ Claims → Type 0
  Outcome parts r =
      ((c : Claims) × (r ≡ inr c) × Accepted parts c)
      ⊎ ((e : AuthError) × (r ≡ inl e) × Refused parts e)

  signed-cases :
      (h p m : Bytes)
      → codec.signature v.secret (h ++ (46 ∷ p)) ≡ m
      → Outcome (h ∷ p ∷ m ∷ []) (read_claims codec v now (codec.decode p))
  unfolding read_claims
  signed-cases h p m s = elim (Option-cases (codec.decode p)) [
    | inl d ↦ inr (malformed_payload, rw (d, read_claims) refl, undecoded h p m refl s d)
    | inr (json, d) ↦ elim (Option-cases (codec.unmarshal json)) [
      | inl u ↦ inr (malformed_claims, rw (d, read_claims, u) refl, unparsed h p m json refl s d u)
      | inr (c, u) ↦ elim (check_claims-cases v now c) [
        | inl (same, good) ↦ inl (
          c,
          rw (d, read_claims, u) same,
          record {
            head = h;
            payload = p;
            mac = m;
            json = json;
            split = refl;
            signed = s;
            decoded = d;
            parsed = u;
            good = good;
          },
        )
        | inr (e, same, f) ↦
            inr (e, rw (d, read_claims, u) same, faulty h p m json c e refl s d u f)
      ]
    ]
  ]

  parts-cases : (parts : List Bytes) → Outcome parts (verify_parts codec v now parts)
  unfolding verify_parts
  parts-cases (h ∷ p ∷ m ∷ []) =
      elim (Bool-cases (str_eq (codec.signature v.secret (h ++ (46 ∷ p))) m)) [
        | inr e ↦ inr (invalid_signature, rw e refl, forged h p m refl (str_ne e))
        | inl e ↦
            rw e
              (signed-cases h p m ((str_eq_iff (codec.signature v.secret (h ++ (46 ∷ p))) m).0 e))
      ]
  parts-cases [] = inr (expected_3_parts, refl, malformed (λ h p m e. cc))
  parts-cases (a ∷ []) = inr (expected_3_parts, refl, malformed (λ h p m e. cc))
  parts-cases (a ∷ b ∷ []) = inr (expected_3_parts, refl, malformed (λ h p m e. cc))
  parts-cases (a ∷ b ∷ c ∷ d ∷ more) = inr (expected_3_parts, refl, malformed (λ h p m e. cc))

  -- Verify accepts exactly a token of three parts whose signature is right and whose claims are good,
  -- and returns those claims; every other token is refused with the error of the first check it fails.
  pub verify-cases : (token : Bytes) → Outcome (split_dots token) (verify codec v now token)
  unfolding verify
  verify-cases token = parts-cases (split_dots token)

-- A key that is registered is found with its record, and the registration changes nothing for a key
-- of another hash.
pub lookup_key-register :
    (codec : Codec) (s : ApiKeyStore) (key other : Bytes) (rec : ApiKeyRecord)
    → codec.hash_key key ≢ codec.hash_key other
    → (lookup_key codec (register codec s key rec) key ≡ some rec)
      × (lookup_key codec (register codec s key rec) other ≡ lookup_key codec s other)
unfolding lookup_key register
lookup_key-register codec s key other rec h = (
  lookup-insert_self (codec.hash_key key) rec s,
  lookup-insert_ne (codec.hash_key key) (codec.hash_key other) rec s h,
)
