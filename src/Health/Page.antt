-- ===== src/Health/Page.antt =====
-- What frontend/app/health/page.tsx draws, and the strip and the tiles of frontend/app/page.tsx.
-- Latencies are numbers of a type `N`, and `ms_text` writes one in milliseconds.
use feature_flag_system.Prelude.{
  ℕ, Text, codes, Bool, false, not, ◌&&◌, List, Option, none, some, map, keep, length, is_empty,
  if◌then◌else◌, ◌==◌, ltb, text_eq,
}
use feature_flag_system.Cluster.Pages.{NodeReadiness, Tone, success, warning, muted, dep_tone}
use feature_flag_system.Health.{FleetMetrics}

abbrev pub dash : Text
dash = codes "—"

unfoldable pub nodes_ready : List NodeReadiness → ℕ
nodes_ready nodes = length (keep (λ n. n.ready) nodes)

unfoldable pub all_ready : List NodeReadiness → Bool
unfolding nodes_ready
all_ready nodes = ltb 0 (length nodes) && nodes_ready nodes == length nodes

pub data HealthHeadline : Type 0 where
  checking all_healthy : HealthHeadline
  all_healthy_in : Text → HealthHeadline
  degraded : (ready total : ℕ) → HealthHeadline

-- A pill: whether it is green, and its word.
pub record StatusPill : Type 0 where
  pub is_green : Bool
  pub label : Text

unfoldable pub status_pill : Bool → Bool → Text → StatusPill
status_pill ready reachable label = record {
  is_green = ready;
  label = if not reachable then codes "unreachable" else label;
}

-- The tile "Nodes ready".
pub record ReadyTile : Type 0 where
  pub counts : Option (ℕ × ℕ)
  pub tone : Tone
  pub pill : StatusPill

unfoldable pub nodes_tile : List NodeReadiness → ReadyTile
unfolding nodes_ready all_ready status_pill
nodes_tile nodes =
    let total = length nodes in
    let ready = all_ready nodes in
    record {
      counts = if total == 0 then none else some (nodes_ready nodes, total);
      tone = if total == 0 then muted else if ready then success else warning;
      pill = status_pill ready (ltb 0 total) (if ready then codes "healthy" else codes "degraded");
    }

-- NodeCard with the states of its two dependencies.
pub record HealthCard : Type 0 where
  pub node_id : Text
  pub pill : StatusPill
  pub version : Option ℕ
  pub postgres : Tone
  pub redis : Tone

unfoldable pub health_card : NodeReadiness → HealthCard
unfolding status_pill
health_card n = record {
  node_id = n.node_id;
  pill = status_pill n.ready n.reachable (if n.ready then codes "ready" else codes "unready");
  version = n.config_version;
  postgres = dep_tone n.postgres n.reachable;
  redis = dep_tone n.redis n.reachable;
}

-- The list of cards: a skeleton while the first answer is awaited.
unfoldable pub node_cards : Bool → List NodeReadiness → Option (List HealthCard)
unfolding health_card
node_cards is_loading nodes =
    if is_loading && length nodes == 0 then none else some (map health_card nodes)

-- A tile: no metrics, or a value with the small print.
pub data MetricTile (A : Type 0) : Type 0 where
  unavailable : MetricTile A
  metric : A → (sub : Option (Text × Text)) → MetricTile A

pub record HealthStrip (N : Type 0) : Type 0 where
  pub tone : Tone
  pub counts : Option (ℕ × ℕ)
  pub clients : Option N
  pub p99 : Text

abbrev pub healthy : Option Text → HealthHeadline
healthy none = all_healthy
healthy (some t) =
    if not (is_empty t) && not (text_eq t dash) then all_healthy_in t else all_healthy

module _ {N : Type 0} where
  abbrev metric_of : (FleetMetrics N → Option N) → Option (FleetMetrics N) → Option N
  metric_of field none = none
  metric_of field (some m) = field m

  abbrev pub is_lost : Option (FleetMetrics N) → Bool
  is_lost none = false
  is_lost (some m) = m.unavailable

  abbrev first_some : Option N → Option N → Option N
  first_some (some a) b = some a
  first_some none b = b

module _ {N : Type 0} (ms_text : N → Text) where
  -- `ms`
  unfoldable pub ms : Option N → Text
  ms none = dash
  ms (some s) = ms_text s

  -- `metrics` is missing until the first answer.
  unfoldable pub typical_ms : Option (FleetMetrics N) → Option Text
  unfolding ms
  typical_ms metrics =
      if is_lost metrics
      then none
      else some (
          ms (
            first_some (metric_of (λ m. m.propagation_p50) metrics)
              (metric_of (λ m. m.propagation_p99) metrics)))

  unfoldable pub health_headline : List NodeReadiness → Option (FleetMetrics N) → HealthHeadline
  unfolding all_ready nodes_ready typical_ms
  health_headline nodes metrics =
      if length nodes == 0
      then checking
      else if all_ready nodes
      then healthy (typical_ms metrics)
      else degraded (nodes_ready nodes) (length nodes)

  -- The tile "Live SSE clients", with `value ?? "—"` as a missing number.
  unfoldable pub clients_tile : Option (FleetMetrics N) → MetricTile (Option N)
  clients_tile metrics =
      if is_lost metrics then unavailable else metric (metric_of (λ m. m.sse_clients) metrics) none

  -- The tile "Propagation p99", with p50 and p95 in the small print.
  unfoldable pub p99_tile : Option (FleetMetrics N) → MetricTile Text
  unfolding ms
  p99_tile metrics =
      if is_lost metrics
      then unavailable
      else metric (ms (metric_of (λ m. m.propagation_p99) metrics)) (
          some (
            ms (metric_of (λ m. m.propagation_p50) metrics),
            ms (metric_of (λ m. m.propagation_p95) metrics),
          ))

  -- HealthStrip of the overview, with `value ?? "—"`.
  unfoldable pub health_strip : List NodeReadiness → Option (FleetMetrics N) → HealthStrip N
  unfolding nodes_ready all_ready ms
  health_strip nodes metrics =
      let total = length nodes in
      record {
        tone = if total == 0 then muted else if all_ready nodes then success else warning;
        counts = if total == 0 then none else some (nodes_ready nodes, total);
        clients = if is_lost metrics then none else metric_of (λ m. m.sse_clients) metrics;
        p99 = if is_lost metrics then dash else ms (metric_of (λ m. m.propagation_p99) metrics);
      }
