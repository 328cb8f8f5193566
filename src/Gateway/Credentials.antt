-- ===== src/Gateway/Credentials.antt =====
-- system-design/api-gateway/authn.go: tokens, API keys, and who a request is from.
pub mod Laws
use leetsheet.Prelude.{
  ℕ, Bool, not, List, [], ◌∷◌, ◌++◌, Option, none, some, ◌⊎◌, inl, inr, ◌==◌, if◌then◌else◌, drop,
}
use leetsheet.Prelude.Int.{pos, ltb_ℤ}
use leetsheet.Prelude.Maps.{lookup, insert, bytes_eq}
use leetsheet.Prelude.Text.{Bytes, codes, str_eq, has_prefix}
use leetsheet.Gateway.Http.{Claims, Context, Request, header}

-- The library code that credentials go through: HMAC-SHA256 of a text under a secret, in base64;
-- base64 and JSON decoding of claims; and hashKey, the hexadecimal SHA-256 of a key.
pub record Codec : Type 0 where
  pub signature : Bytes → Bytes → Bytes
  pub decode : Bytes → Option Bytes
  pub unmarshal : Bytes → Option Claims
  pub hash_key : Bytes → Bytes

-- Every error that authenticate returns.
pub data AuthError : Type 0 where
  expected_3_parts invalid_signature malformed_payload malformed_claims : AuthError
  jwt_expired issuer_mismatch audience_mismatch missing_tid : AuthError
  invalid_api_key no_credentials : AuthError

-- Its text, which the answer to the client carries.
unfoldable pub error_text : AuthError → Bytes
error_text expected_3_parts = codes "malformed jwt: expected 3 parts"
error_text invalid_signature = codes "invalid jwt signature"
error_text malformed_payload = codes "malformed jwt payload"
error_text malformed_claims = codes "malformed jwt claims"
error_text jwt_expired = codes "jwt expired"
error_text issuer_mismatch = codes "jwt issuer mismatch"
error_text audience_mismatch = codes "jwt audience mismatch"
error_text missing_tid = codes "jwt missing tid claim"
error_text invalid_api_key = codes "invalid api key"
error_text no_credentials = codes "no credentials provided"

-- `now` is in seconds since 1970.
pub expired : Claims → ℕ → Bool
expired c now = ltb_ℤ c.expiry (pos now)

pub record JwtVerifier : Type 0 where
  pub secret : Bytes
  pub issuer : Bytes
  pub aud : Bytes

-- strings.Split at dots.
pub split_dots : Bytes → List Bytes
split_dots [] = [] ∷ []
split_dots (c ∷ s) = if c == 46 then [] ∷ split_dots s else in_front c (split_dots s)
  where
    in_front : ℕ → List Bytes → List Bytes
    in_front c [] = []
    in_front c (p ∷ ps) = (c ∷ p) ∷ ps

-- The checks of the standard claims.
pub check_claims : JwtVerifier → ℕ → Claims → AuthError ⊎ Claims
unfolding expired str_eq
check_claims v now c =
    if expired c now
    then inl jwt_expired
    else if not (str_eq c.issuer v.issuer)
    then inl issuer_mismatch
    else if not (str_eq c.audience v.aud)
    then inl audience_mismatch
    else if str_eq c.tenant_id []
    then inl missing_tid
    else inr c

module _ (codec : Codec) where
  read_claims : JwtVerifier → ℕ → Option Bytes → AuthError ⊎ Claims
  unfolding check_claims
  read_claims v now none = inl malformed_payload
  read_claims v now (some json) = elim (codec.unmarshal json) [
    | none ↦ inl malformed_claims
    | some c ↦ check_claims v now c
  ]

  -- Verify once the token is split; hmac.Equal compares bytes.
  verify_parts : JwtVerifier → ℕ → List Bytes → AuthError ⊎ Claims
  unfolding read_claims str_eq
  verify_parts v now (head ∷ payload ∷ mac ∷ []) =
      if not (str_eq (codec.signature v.secret (head ++ (46 ∷ payload))) mac)
      then inl invalid_signature
      else read_claims v now (codec.decode payload)
  verify_parts v now _ = inl expected_3_parts

  pub verify : JwtVerifier → ℕ → Bytes → AuthError ⊎ Claims
  unfolding verify_parts split_dots
  verify v now token = verify_parts v now (split_dots token)

pub record ApiKeyRecord : Type 0 where
  pub tenant_id : Bytes
  pub user_id : Bytes
  pub roles : List Bytes

abbrev pub ApiKeyStore : Type 0
ApiKeyStore = List (Bytes × ApiKeyRecord)

module _ (codec : Codec) where
  pub register : ApiKeyStore → Bytes → ApiKeyRecord → ApiKeyStore
  unfolding insert
  register s key rec = insert (codec.hash_key key) rec s

  pub lookup_key : ApiKeyStore → Bytes → Option ApiKeyRecord
  unfolding lookup
  lookup_key s key = lookup (codec.hash_key key) s

-- The three context values of an identity.
pub identify : Context → Claims → Context
identify ctx c = record ctx {
  tenant_id = some c.tenant_id;
  user_id = some c.subject;
  claims = some c;
}

-- The claims that stand for an API key; the fields that it leaves out are zero.
pub claims_of_key : ApiKeyRecord → Claims
claims_of_key rec = record {
  subject = rec.user_id;
  tenant_id = rec.tenant_id;
  roles = rec.roles;
  expiry = pos 0;
  issuer = [];
  audience = [];
}

pub record AuthN : Type 0 where
  pub jwt : JwtVerifier
  pub api_key : ApiKeyStore

module _ (codec : Codec) where
  pub verify_jwt : AuthN → ℕ → Context → Bytes → AuthError ⊎ Context
  unfolding verify identify
  verify_jwt a now ctx token = elim (verify codec a.jwt now token) [
    | inl e ↦ inl e
    | inr c ↦ inr (identify ctx c)
  ]

  pub verify_api_key : AuthN → Context → Bytes → AuthError ⊎ Context
  unfolding lookup_key identify claims_of_key
  verify_api_key a ctx key = elim (lookup_key codec a.api_key key) [
    | none ↦ inl invalid_api_key
    | some rec ↦ inr (identify ctx (claims_of_key rec))
  ]

  -- authenticate: the prefixes are "Bearer " and "ApiKey ", of seven bytes each.
  unfoldable pub authenticate : AuthN → ℕ → Request → AuthError ⊎ Context
  unfolding verify_jwt verify_api_key header has_prefix str_eq
  authenticate a now r =
      let auth = header r (codes "Authorization") in
      let key = header r (codes "X-Api-Key") in
      if has_prefix auth (codes "Bearer ")
      then verify_jwt a now r.context (drop 7 auth)
      else if has_prefix auth (codes "ApiKey ")
      then verify_api_key a r.context (drop 7 auth)
      else if not (str_eq key [])
      then verify_api_key a r.context key
      else inl no_credentials
