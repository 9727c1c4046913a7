-- ===== src/Cluster/Pages.antt =====
-- What the pages frontend/app/cluster/page.tsx and frontend/app/resilience/page.tsx say of the
-- cluster. Texts that carry numbers are constructors that keep them.
pub mod Claims
pub mod View
use feature_flag_system.Prelude.{
  ◌≡◌, refl, ◌∷◌, [], ℕ, min, Text, Bool, true, false, not, ◌&&◌, ◌||◌, List, Option, none, some,
  ◌==◌, ltb, is_none, or_else, if◌then◌else◌, map, keep, length, arith, text_eq, codes,
}
use feature_flag_system.Cluster.{NodeState, ClusterState}

pub data Tone : Type 0 where
  success warning destructive muted foreground : Tone

-- The headline of the cluster page.
pub data Headline : Type 0 where
  nothing_reachable spreading : Headline
  all_on : (servers version : ℕ) → Headline

unfoldable pub headline : ClusterState → Headline
headline c =
    if c.reachable_count == 0
    then nothing_reachable
    else if c.converged
    then all_on c.reachable_count c.latest_version
    else spreading

-- The banner of the cluster page: its tone and its text.
pub data Banner : Type 0 where
  no_nodes propagating diverging : Banner
  all_converged converged_at : ℕ → Banner

unfoldable pub cluster_banner : ClusterState → Tone × Banner
cluster_banner c = (
  if c.converged then success else warning,
  if c.reachable_count == 0
      then no_nodes
      else if c.converged
      then all_converged c.reachable_count
      else propagating,
)

-- A node that is behind the latest version, of either page's card.
abbrev pub behind : Bool → Option ℕ → ℕ → Bool
behind reachable version latest = reachable && elim version [ none ↦ false | some v ↦ ltb v latest ]

-- The readiness of a node, from `/readyz`.
pub record NodeReadiness : Type 0 where
  pub url : Text
  pub node_id : Text
  pub ready : Bool
  pub reachable : Bool
  pub postgres : Option Text
  pub redis : Option Text
  pub config_version : Option ℕ

pub record MergedNode : Type 0 where
  pub url : Text
  pub node_id : Text
  pub config_version : Option ℕ
  pub sse_clients : Option ℕ
  pub reachable : Bool
  pub ready : Bool
  pub postgres : Option Text
  pub redis : Option Text

-- `new Map(readiness.map((r) => [r.url, r])).get(url)`: the last entry with the url.
unfoldable pub ready_by_url : List NodeReadiness → Text → Option NodeReadiness
ready_by_url [] url = none
ready_by_url (r ∷ rs) url = elim (ready_by_url rs url) [
  | some later ↦ some later
  | none ↦ if text_eq r.url url then some r else none
]

unfoldable pub merge_node : List NodeReadiness → NodeState → MergedNode
unfolding ready_by_url
merge_node readiness n =
    let r = ready_by_url readiness n.url in
    record {
      url = n.url;
      node_id = n.node_id;
      config_version = n.config_version;
      sse_clients = n.sse_clients;
      reachable = n.ok;
      ready = elim r [ none ↦ false | some x ↦ x.ready ];
      postgres = elim r [ none ↦ none | some x ↦ x.postgres ];
      redis = elim r [ none ↦ none | some x ↦ x.redis ];
    }

unfoldable pub merged_nodes : List NodeReadiness → ClusterState → List MergedNode
unfolding merge_node
merged_nodes readiness c = map (merge_node readiness) c.nodes

unfoldable pub merged_versions : List MergedNode → List ℕ
merged_versions [] = []
merged_versions (n ∷ nodes) =
    let rest = merged_versions nodes in
    if n.reachable then elim n.config_version [ none ↦ rest | some v ↦ v ∷ rest ] else rest

-- `versions.length ? Math.min(...versions) : 0`
unfoldable pub min_of : List ℕ → ℕ
min_of [] = 0
min_of (v ∷ []) = v
min_of (v ∷ w ∷ vs) = min v (min_of (w ∷ vs))

unfoldable pub ready_count : List MergedNode → ℕ
ready_count nodes = length (keep (λ n. n.ready) nodes)

-- The small print of the resilience banner.
pub data Spread : Type 0 where
  dash : Spread
  in_sync : ℕ → Spread
  spread : (from to nodes : ℕ) → Spread

unfoldable pub resilience_banner : List NodeReadiness → ClusterState → Tone × Banner × Spread
unfolding merged_nodes merged_versions min_of
resilience_banner readiness c =
    let low = min_of (merged_versions (merged_nodes readiness c)) in
    if c.reachable_count == 0
    then (destructive, no_nodes, dash)
    else if c.converged
    then (success, converged_at c.latest_version, in_sync c.reachable_count)
    else (warning, diverging, spread low c.latest_version c.reachable_count)

-- The tile "Nodes ready": ready and all, with its tone.
unfoldable pub ready_tile : List MergedNode → Option (ℕ × ℕ) × Tone
unfolding ready_count
ready_tile nodes = if length nodes == 0 then (none, muted) else (
  some (ready_count nodes, length nodes),
  if ready_count nodes == length nodes then success else warning,
)

pub record RedisPublishErrors : Type 0 where
  pub total : Option ℕ
  pub unavailable : Bool

-- The tile "Redis publish errors". The query's data is missing until its first answer.
unfoldable pub errors_tile : Option RedisPublishErrors → Option ℕ × Tone
errors_tile none = (some 0, success)
errors_tile (some e) =
    let total = or_else e.total 0 in
    if e.unavailable then (none, muted) else (some total, if ltb 0 total then warning else success)

pub data Pill : Type 0 where
  down ready unready : Pill

pub record CardView : Type 0 where
  pub pill : Pill
  pub shown_version : Option ℕ
  pub tone : Tone

-- NodeCard of the resilience page, with its pill.
unfoldable pub card : MergedNode → ℕ → CardView
card node latest = record {
  pill = if not node.reachable then down else if node.ready then ready else unready;
  shown_version = if node.reachable then node.config_version else none;
  tone =
      if not node.reachable || is_none node.config_version
      then muted
      else if behind node.reachable node.config_version latest
      then warning
      else success;
}

-- DepStatus: its tone.
unfoldable pub dep_tone : Option Text → Bool → Tone
dep_tone none reachable = muted
dep_tone (some value) reachable =
    if not reachable then muted else if text_eq value (codes "ok") then foreground else destructive
