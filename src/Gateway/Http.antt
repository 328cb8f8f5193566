-- ===== src/Gateway/Http.antt =====
-- What the gateway uses of net/http and context: requests, response writers, handlers, and the
-- context values and error helper of system-design/api-gateway/gateway.go.
pub mod Digits
use leetsheet.Prelude.{
  ℕ, zero, suc, ◌+◌, ◌-◌, ◌*◌, ◌/◌, ◌%◌, Bool, true, false, List, [], ◌∷◌, ◌++◌, Option, none, some,
  ◌==◌, if◌then◌else◌,
}
use leetsheet.Prelude.Int.{ℤ, pos, negsuc}
use leetsheet.Prelude.Maps.{lookup, insert, bytes_eq}
use leetsheet.Prelude.Text.{Bytes, codes}

-- Claims (authn.go).
pub record Claims : Type 0 where
  pub subject : Bytes
  pub tenant_id : Bytes
  pub roles : List Bytes
  pub expiry : ℤ
  pub issuer : Bytes
  pub audience : Bytes

-- The values under the four context keys.
pub record Context : Type 0 where
  pub tenant_id : Option Bytes
  pub user_id : Option Bytes
  pub trace_id : Option Bytes
  pub claims : Option Claims

or_empty : Option Bytes → Bytes
or_empty none = []
or_empty (some s) = s

unfoldable pub tenant_from_ctx : Context → Bytes
unfolding or_empty
tenant_from_ctx ctx = or_empty ctx.tenant_id

pub user_from_ctx : Context → Bytes
unfolding or_empty
user_from_ctx ctx = or_empty ctx.user_id

pub trace_from_ctx : Context → Bytes
unfolding or_empty
trace_from_ctx ctx = or_empty ctx.trace_id

-- Headers are under their canonical keys.
pub record Request : Type 0 where
  pub method : Bytes
  pub path : Bytes
  pub headers : List (Bytes × Bytes)
  pub context : Context

-- Header.Get
unfoldable pub header : Request → Bytes → Bytes
unfolding lookup or_empty
header r key = or_empty (lookup key r.headers)

-- `sent` is the status that goes to the client, the first that is written; `recorded` is the field
-- of statusRecorder, the last one.
pub record ResponseWriter : Type 0 where
  pub headers : List (Bytes × Bytes)
  pub sent : Option ℕ
  pub recorded : ℕ
  pub body : Bytes

unfoldable pub set_header : ResponseWriter → Bytes → Bytes → ResponseWriter
unfolding insert
set_header w key value = record w { headers = insert key value w.headers }

first_sent : Option ℕ → ℕ → ℕ
first_sent none code = code
first_sent (some old) code = old

unfoldable pub write_header : ResponseWriter → ℕ → ResponseWriter
unfolding first_sent
write_header w code = record w { sent = some (first_sent w.sent code); recorded = code }

unfoldable pub write_body : ResponseWriter → Bytes → ResponseWriter
write_body w s = record w { body = w.body ++ s }

-- The loop of itoa (rate_limiter.go), with fuel: digits go in front of the buffer.
pub digits_loop : ℕ → ℕ → Bytes → Bytes
digits_loop zero n buf = buf
digits_loop (suc k) n buf =
    let rest = digits_loop k (n / 10) ((48 + n % 10) ∷ buf) in if n == 0 then buf else rest

-- itoa. (The least int64, whose negation overflows, does not arise.)
unfoldable pub itoa : ℤ → Bytes
unfolding digits_loop
itoa (pos n) = if n == 0 then codes "0" else digits_loop n n []
itoa (negsuc n) = 45 ∷ digits_loop (suc n) (suc n) []

-- writeError; `quote` is strconv.Quote, and `at` the time of the answer in milliseconds.
unfoldable pub write_error :
    (Bytes → Bytes) → ℕ → ResponseWriter → ℕ → Bytes → Bytes → ResponseWriter
unfolding set_header write_header write_body itoa
write_error quote at w status code message =
    write_body
      (write_header (set_header w (codes "Content-Type") (codes "application/json")) status)
      (123 ∷ 34 ∷ codes "error"
        ++ (34 ∷ 58 ∷ 123 ∷ 34 ∷ [])
        ++ codes "code"
        ++ (34 ∷ 58 ∷ [])
        ++ quote code
        ++ (44 ∷ 34 ∷ [])
        ++ codes "message"
        ++ (34 ∷ 58 ∷ [])
        ++ quote message
        ++ (125 ∷ 44 ∷ 34 ∷ [])
        ++ codes "ts"
        ++ (34 ∷ 58 ∷ [])
        ++ itoa (pos at)
        ++ (125 ∷ []))
