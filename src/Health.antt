-- ===== src/Health.antt =====
-- frontend/hooks/useHealth.ts: what the dashboard asks of every node and of Prometheus.
pub mod Page
pub mod Honest
mod Tests
use feature_flag_system.Prelude.{
  ℕ, ◌∷◌, [], Text, codes, Bool, true, false, List, Option, none, some, or_else, map, is_none,
  if◌then◌else◌,
}
use feature_flag_system.Cluster.Pages.{NodeReadiness, RedisPublishErrors}

-- The body of `/readyz`, with `none` for a field that is missing or of another type. `ready` is
-- whether it is the value `true`.
pub record ReadyBody : Type 0 where
  pub node_id : Option Text
  pub ready : Bool
  pub postgres : Option Text
  pub redis : Option Text
  pub config_version : Option ℕ

-- How the request ends: it throws, the body is no JSON, the body is `null`, or an object. The
-- status of the response is not looked at.
pub data ReadyReply : Type 0 where
  unreached not_json null_body : ReadyReply
  body : ReadyBody → ReadyReply

abbrev empty_body : ReadyBody
empty_body = record {
  node_id = none;
  ready = false;
  postgres = none;
  redis = none;
  config_version = none;
}

abbrev pub from_body : Text → ReadyBody → NodeReadiness
from_body url data_read = record {
  url = url;
  node_id = or_else data_read.node_id url;
  ready = data_read.ready;
  reachable = true;
  postgres = data_read.postgres;
  redis = data_read.redis;
  config_version = data_read.config_version;
}

abbrev pub unreachable : Text → NodeReadiness
unreachable url = record {
  url = url;
  node_id = url;
  ready = false;
  reachable = false;
  postgres = none;
  redis = none;
  config_version = none;
}

-- `fetchReadyz`. A field of `null` throws, which the outer `catch` takes for an unreachable node.
unfoldable pub fetch_readyz : Text → ReadyReply → NodeReadiness
fetch_readyz url unreached = unreachable url
fetch_readyz url not_json = from_body url empty_body
fetch_readyz url null_body = unreachable url
fetch_readyz url (body b) = from_body url b

-- `Promise.all(NODE_URLS.map(fetchReadyz))`
unfoldable pub readiness : List (Text × ReadyReply) → List NodeReadiness
unfolding fetch_readyz
readiness nodes = map (λ n. fetch_readyz n.0 n.1) nodes

-- The answer of Prometheus to a query: the request throws, or is no success, or gives the second
-- entries of the values, of which the first is read, with `none` for one that is missing: it is
-- `undefined`, whose `Number` is not finite. A result that is no array is empty.
pub data PromReply : Type 0 where
  thrown refused : PromReply
  results : List (Option Text) → PromReply

-- A scalar, `null`, or an exception.
pub data Scalar {ℓ} (A : Type ℓ) : Type ℓ where
  scalar : A → Scalar A
  null throws : Scalar A

-- `number` is JavaScript's `Number(raw)`, with `none` where the result is not finite.
module _ {N : Type 0} (number : Text → Option N) where
  abbrev finite : Option N → Scalar N
  finite none = null
  finite (some n) = scalar n

  -- `promScalar`
  unfoldable pub prom_scalar : PromReply → Scalar N
  prom_scalar thrown = throws
  prom_scalar refused = throws
  prom_scalar (results []) = null
  prom_scalar (results (none ∷ rest)) = null
  prom_scalar (results (some raw ∷ rest)) = finite (number raw)

abbrev pub is_thrown {ℓ} : {A : Type ℓ} → Scalar A → Bool
is_thrown (scalar a) = false
is_thrown null = false
is_thrown throws = true

abbrev pub value_of {ℓ} : {A : Type ℓ} → Scalar A → Option A
value_of (scalar a) = some a
value_of null = none
value_of throws = none

pub record FleetMetrics (N : Type 0) : Type 0 where
  pub sse_clients : Option N
  pub propagation_p50 : Option N
  pub propagation_p95 : Option N
  pub propagation_p99 : Option N
  pub unavailable : Bool

module _ {N : Type 0} where
  -- The query of `useFleetMetrics`, from its four answers: one exception loses all.
  unfoldable pub fleet_metrics : (sse p50 p95 p99 : Scalar N) → FleetMetrics N
  fleet_metrics sse p50 p95 p99 =
      if is_thrown sse
      then lost
      else if is_thrown p50
      then lost
      else if is_thrown p95
      then lost
      else if is_thrown p99
      then lost
      else record {
        sse_clients = value_of sse;
        propagation_p50 = value_of p50;
        propagation_p95 = value_of p95;
        propagation_p99 = value_of p99;
        unavailable = false;
      }
    where
      lost : FleetMetrics N
      lost = record {
        sse_clients = none;
        propagation_p50 = none;
        propagation_p95 = none;
        propagation_p99 = none;
        unavailable = true;
      }

-- The query of `useRedisPublishErrors`: no series counts as no error.
unfoldable pub redis_publish_errors : Scalar ℕ → RedisPublishErrors
redis_publish_errors throws = record { total = none; unavailable = true }
redis_publish_errors null = record { total = some 0; unavailable = false }
redis_publish_errors (scalar n) = record { total = some n; unavailable = false }
