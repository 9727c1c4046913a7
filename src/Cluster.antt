-- ===== src/Cluster.antt =====
-- frontend/hooks/useCluster.ts: the state of the nodes behind the load balancer. What a node's
-- version endpoint answers is a parameter.
pub mod Agreement
pub mod Flip
pub mod Pages
pub mod Seeding
mod Tests
use feature_flag_system.Prelude.{
  ◌≡◌, refl, ◌∷◌, [], ℕ, max, Text, Bool, true, false, not, ◌&&◌, List, Option, none, some, ◌==◌,
  ltb, is_none, or_else, if◌then◌else◌, map, keep, every, length, arith,
}

pub record NodeState : Type 0 where
  pub url : Text
  pub node_id : Text
  pub config_version : Option ℕ
  pub sse_clients : Option ℕ
  pub ok : Bool

-- The answer of `/api/client/version`: a failure to reach the node or to parse its answer, a
-- status that is not ok, or the fields that it has with the types that are read.
pub data Reply : Type 0 where
  failed : Reply
  refused : ℕ → Reply
  answered : (node_id : Option Text) (config_version sse_clients : Option ℕ) → Reply

unfoldable pub fetch_node : (Text → Reply) → Text → NodeState
fetch_node net url = elim (net url) [
  | answered node_id config_version sse_clients ↦ record {
    url = url;
    node_id = or_else node_id url;
    config_version = config_version;
    sse_clients = sse_clients;
    ok = true;
  }
  | _ ↦ record { url = url; node_id = url; config_version = none; sse_clients = none; ok = false }
]

pub record ClusterState : Type 0 where
  pub nodes : List NodeState
  pub latest_version : ℕ
  pub converged : Bool
  pub reachable_count : ℕ

-- The versions of the nodes that are ok and have one.
unfoldable pub versions_of : List NodeState → List ℕ
versions_of [] = []
versions_of (n ∷ nodes) =
    let rest = versions_of nodes in
    if n.ok then elim n.config_version [ none ↦ rest | some v ↦ v ∷ rest ] else rest

-- `Math.max(...versions)`, for versions that are not negative.
unfoldable pub max_of : List ℕ → ℕ
max_of [] = 0
max_of (v ∷ vs) = max v (max_of vs)

abbrev pub all_first : List ℕ → Bool
all_first [] = false
all_first (v ∷ vs) = every (λ w. w == v) (v ∷ vs)

unfoldable pub cluster_state : (Text → Reply) → List Text → ClusterState
unfolding fetch_node versions_of max_of
cluster_state net urls =
    let nodes = map (fetch_node net) urls in
    let versions = versions_of nodes in
    record {
      nodes = nodes;
      latest_version = max_of versions;
      converged = all_first versions;
      reachable_count = length (keep (λ n. n.ok) nodes);
    }
