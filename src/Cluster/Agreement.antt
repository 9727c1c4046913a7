-- ===== src/Cluster/Agreement.antt =====
-- What frontend/hooks/useCluster.ts says of the nodes.
use feature_flag_system.Prelude.{
  ◌≡◌, refl, ◌∷◌, [], ℕ, ◌≤◌, Text, true, List, some, ◌==◌, ==_iff, map, every, length, arith,
  subst, All, length-keep, length-map,
}
use feature_flag_system.Cluster.{
  NodeState, Reply, fetch_node, versions_of, max_of, all_first, cluster_state,
}

-- The state of a node that is taken into account, with its version.
abbrev pub Reports : NodeState → ℕ → Type 0
Reports n v = (n.ok ≡ true) × (n.config_version ≡ some v)

-- Every node that reports a version reports this one.
abbrev pub Agree : ℕ → NodeState → Type 0
Agree v n = (w : ℕ) → Reports n w → w ≡ v

abbrev Bounds : ℕ → NodeState → Type 0
Bounds v n = (w : ℕ) → Reports n w → w ≤ v

Agree-versions_of :
    (v : ℕ) (nodes : List NodeState)
    → every (λ w. w == v) (versions_of nodes) ≡ true
    → All (Agree v) nodes
unfolding versions_of
Agree-versions_of v [] h = tt
Agree-versions_of v (n ∷ nodes) h =
    (λ w r. ground (arith, ==_iff w v), Agree-versions_of v nodes (ground arith))

max_of-Bounds :
    (nodes : List NodeState) (v : ℕ) → max_of (versions_of nodes) ≤ v → All (Bounds v) nodes
unfolding versions_of max_of
max_of-Bounds [] v h = tt
max_of-Bounds (n ∷ nodes) v h = (λ w r. ground arith, max_of-Bounds nodes v (ground arith))

max_of-every : (v : ℕ) (vs : List ℕ) → every (λ w. w == v) vs ≡ true → max_of vs ≤ v
unfolding max_of
max_of-every v [] h = omega arith
max_of-every v (w ∷ vs) h = ground (arith, max_of-every v vs, ==_iff w v)

max_of-all_first : (vs : List ℕ) → all_first vs ≡ true → every (λ w. w == max_of vs) vs ≡ true
unfolding max_of
max_of-all_first [] h = refl
max_of-all_first (v ∷ vs) h =
    subst (λ m. every (λ w. w == m) (v ∷ vs) ≡ true) (omega (arith, max_of-every v (v ∷ vs) h)) h

Agree-max_of :
    (nodes : List NodeState)
    → all_first (versions_of nodes) ≡ true
    → All (Agree (max_of (versions_of nodes))) nodes
Agree-max_of nodes h = Agree-versions_of _ nodes (max_of-all_first (versions_of nodes) h)

-- The panel's summary: it says converged only when all the nodes that report a version report the
-- latest one, the latest version is at least every version reported, and the number of reachable
-- nodes is at most that of the nodes asked.
pub cluster_state_sound :
    (net : Text → Reply) (urls : List Text)
    → let c = cluster_state net urls in
      (c.converged ≡ true → All (Agree c.latest_version) c.nodes)
      × All (λ n. (w : ℕ) → Reports n w → w ≤ c.latest_version) c.nodes
      × (c.reachable_count ≤ length urls)
unfolding cluster_state
cluster_state_sound net urls = (
  Agree-max_of (map (fetch_node net) urls),
  max_of-Bounds (map (fetch_node net) urls) _ (omega arith),
  omega (
    arith,
    length-keep (λ n. n.ok) (map (fetch_node net) urls),
    length-map (fetch_node net) urls,
  ),
)
