-- ===== src/Gateway/Metrics.antt =====
-- system-design/api-gateway/observability.go: the counters of each tenant, and the client's address.
pub mod Percentile
use leetsheet.Prelude.{
  ℕ, ◌+◌, Bool, not, ◌||◌, List, [], ◌∷◌, ◌++◌, none, some, ltb, leb, ◌==◌, if◌then◌else◌, length,
}
use leetsheet.Prelude.Maps.{lookup, insert, bytes_eq}
use leetsheet.Prelude.Text.{Bytes, codes, str_eq}
use leetsheet.Gateway.Http.{Request, header}

-- The counters are 64-bit and stay far below 2^63.
pub record RequestMetrics : Type 0 where
  pub total : ℕ
  pub errors : ℕ
  pub client_err : ℕ
  pub latency : List ℕ

unfoldable pub no_requests : RequestMetrics
no_requests = record { total = 0; errors = 0; client_err = 0; latency = [] }

-- Record
unfoldable pub record_request : RequestMetrics → ℕ → ℕ → RequestMetrics
record_request m status latency_ms = record {
  total = m.total + 1;
  errors = if leb 500 status then m.errors + 1 else m.errors;
  client_err =
      if leb 500 status
      then m.client_err
      else if leb 400 status
      then m.client_err + 1
      else m.client_err;
  latency = if ltb (length m.latency) 1000 then m.latency ++ (latency_ms ∷ []) else m.latency;
}

abbrev pub MetricsRegistry : Type 0
MetricsRegistry = List (Bytes × RequestMetrics)

-- For: both looks at the map, before and after the lock is taken for writing, see the same map here.
unfoldable pub for_tenant : MetricsRegistry → Bytes → MetricsRegistry × RequestMetrics
unfolding lookup insert no_requests
for_tenant m tenant = elim (lookup tenant m) [
  | some old ↦ (m, old)
  | none ↦ (insert tenant no_requests m, no_requests)
]

-- `metrics.For(id).Record(…)`: the counters are changed in place.
unfoldable pub record_for : MetricsRegistry → Bytes → ℕ → ℕ → MetricsRegistry
unfolding for_tenant record_request insert
record_for m tenant status latency_ms =
    let (m', old) = for_tenant m tenant in insert tenant (record_request old status latency_ms) m'

-- splitFirst at a comma, of an ASCII text.
unfoldable pub split_first : Bytes → Bytes
split_first [] = []
split_first (c ∷ s) = if c == 44 then [] else c ∷ split_first s

is_blank : ℕ → Bool
is_blank c = c == 32 || c == 9

-- The two loops of trimSpace.
trim_start : Bytes → Bytes
unfolding is_blank
trim_start [] = []
trim_start (c ∷ s) = if is_blank c then trim_start s else c ∷ s

drop_blank_end : Bytes → Bytes
unfolding is_blank
drop_blank_end [] = []
drop_blank_end (c ∷ s) = go c (drop_blank_end s)
  where
    go : ℕ → Bytes → Bytes
    go c [] = if is_blank c then [] else c ∷ []
    go c (d ∷ t) = c ∷ d ∷ t

pub trim_space : Bytes → Bytes
unfolding trim_start drop_blank_end
trim_space s = drop_blank_end (trim_start s)

-- remoteIP; the last argument is the address of the connection.
pub remote_ip : Request → Bytes → Bytes
unfolding header split_first trim_space str_eq
remote_ip r remote_addr =
    let xff = header r (codes "X-Forwarded-For") in
    if not (str_eq xff []) then trim_space (split_first xff) else remote_addr
