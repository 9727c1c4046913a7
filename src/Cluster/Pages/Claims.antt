-- ===== src/Cluster/Pages/Claims.antt =====
-- What the two pages say of the cluster is so.
use feature_flag_system.Prelude.{
  ◌≡◌, ◌≢◌, refl, ap, sym, ◌∷◌, [], ℕ, ◌≤◌, Text, Bool, true, false, List, Option, none, some, ◌==◌,
  if◌then◌else◌, map, All, arith, subst, ◌∙◌, Option-cases, Bool-cases, inl, inr,
}
use feature_flag_system.Cluster.{NodeState, ClusterState, Reply, cluster_state, versions_of}
use feature_flag_system.Cluster.Agreement.{Reports, Agree, cluster_state_sound}
use feature_flag_system.Cluster.Pages.{
  all_on, headline, converged_at, cluster_banner, warning, NodeReadiness, merge_node, merged_nodes,
  merged_versions, min_of, resilience_banner, spread, card,
}

-- When the headline of the cluster page says that so many servers are all on a version, at least
-- one server is reachable, so many are, and every node that reports a version reports that one.
pub headline_true :
    (net : Text → Reply) (urls : List Text) (servers version : ℕ)
    → let c = cluster_state net urls in
      headline c ≡ all_on servers version
      → (1 ≤ servers) × (c.reachable_count ≡ servers) × All (Agree version) c.nodes
unfolding headline
headline_true net urls servers version e =
    let c = cluster_state net urls in
    let conv : c.converged ≡ true = ground arith in
    let same : c.latest_version ≡ version = ground arith in
    (
      ground arith,
      ground arith,
      subst (λ v. All (Agree v) c.nodes) same ((cluster_state_sound net urls).0 conv),
    )

merged_versions_lem :
    (readiness : List NodeReadiness) (nodes : List NodeState)
    → merged_versions (map (merge_node readiness) nodes) ≡ versions_of nodes
unfolding merged_versions merge_node versions_of
merged_versions_lem readiness [] = refl
merged_versions_lem readiness (n ∷ nodes) = ground (arith, merged_versions_lem readiness nodes)

abbrev AtLeast : ℕ → NodeState → Type 0
AtLeast low n = (w : ℕ) → Reports n w → low ≤ w

All-le : (a b : ℕ) (vs : List ℕ) → a ≤ b → All (λ w. b ≤ w) vs → All (λ w. a ≤ w) vs
All-le a b [] l h = tt
All-le a b (v ∷ vs) l h = (omega (arith, h.0), All-le a b vs l h.1)

min_of-All : (vs : List ℕ) → All (λ w. min_of vs ≤ w) vs
unfolding min_of
min_of-All [] = tt
min_of-All (v ∷ []) = (omega arith, tt)
min_of-All (v ∷ w ∷ vs) = (
  omega arith,
  All-le (min_of (v ∷ w ∷ vs)) (min_of (w ∷ vs)) (w ∷ vs) (omega arith) (min_of-All (w ∷ vs)),
)

reported :
    (low : ℕ) (ok : Bool) (version : Option ℕ) (rest : List ℕ)
    → All (λ w. low ≤ w) (if ok then elim version [ none ↦ rest | some v ↦ v ∷ rest ] else rest)
    → ((w : ℕ) → (ok ≡ true) × (version ≡ some w) → low ≤ w) × All (λ w. low ≤ w) rest
reported low false version rest h = ((λ w r. absurd (cc)), h)
reported low true none rest h = ((λ w r. absurd (cc)), h)
reported low true (some v) rest h = ((λ w r. ground arith), h.1)

AtLeast-versions_of :
    (low : ℕ) (nodes : List NodeState)
    → All (λ w. low ≤ w) (versions_of nodes)
    → All (AtLeast low) nodes
unfolding versions_of
AtLeast-versions_of low [] h = tt
AtLeast-versions_of low (n ∷ nodes) h =
    let r = reported low n.ok n.config_version (versions_of nodes) h in
    (r.0, AtLeast-versions_of low nodes r.1)

All-both :
    (low high : ℕ) (nodes : List NodeState)
    → All (AtLeast low) nodes
    → All (λ n. (w : ℕ) → Reports n w → w ≤ high) nodes
    → All (λ n. (w : ℕ) → Reports n w → (low ≤ w) × (w ≤ high)) nodes
All-both low high [] h k = tt
All-both low high (n ∷ nodes) h k = ((λ w r. (h.0 w r, k.0 w r)), All-both low high nodes h.1 k.1)

-- The spread that the resilience page shows holds for every node that reports a version, whatever
-- the readiness endpoint answered.
pub spread_true :
    (net : Text → Reply) (urls : List Text) (readiness : List NodeReadiness) (low high count : ℕ)
    → let c = cluster_state net urls in
      (resilience_banner readiness c).2 ≡ spread low high count
      → All (λ n. (w : ℕ) → Reports n w → (low ≤ w) × (w ≤ high)) c.nodes
unfolding resilience_banner merged_nodes
spread_true net urls readiness low high count e =
    let c = cluster_state net urls in
    let from : min_of (merged_versions (map (merge_node readiness) c.nodes)) ≡ low = ground arith in
    let to : c.latest_version ≡ high = ground arith in
    let same = merged_versions_lem readiness c.nodes in
    let least = min_of-All (versions_of c.nodes) in
    All-both low high c.nodes
      (AtLeast-versions_of low c.nodes
        (subst (λ m. All (λ w. m ≤ w) (versions_of c.nodes)) (sym (ap min_of same) ∙ from) least))
      (subst (λ m. All (λ n. (w : ℕ) → Reports n w → w ≤ m) c.nodes) to
        (cluster_state_sound net urls).1)

-- The two pages agree on convergence: one has the banner of success exactly when the other has,
-- as long as a node is reachable.
pub banners_agree :
    (readiness : List NodeReadiness) (c : ClusterState)
    → (c.reachable_count == 0) ≡ false
    → (cluster_banner c).0 ≡ (resilience_banner readiness c).0
unfolding cluster_banner resilience_banner
banners_agree readiness c h = ground arith

card_of :
    (readiness : List NodeReadiness) (v : ℕ) (n : NodeState)
    → Agree v n
    → (card (merge_node readiness n) v).tone ≢ warning
unfolding card merge_node
card_of readiness v n a = elim (Option-cases n.config_version) [
  | inl e ↦ ground arith
  | inr w ↦ elim (Bool-cases n.ok) [
    | inl k ↦ ground (arith, w.1, a w.0 (k, w.1))
    | inr k ↦ ground arith
  ]
]

cards_of :
    (readiness : List NodeReadiness) (v : ℕ) (nodes : List NodeState)
    → All (Agree v) nodes
    → All (λ m. (card m v).tone ≢ warning) (map (merge_node readiness) nodes)
cards_of readiness v [] h = tt
cards_of readiness v (n ∷ nodes) h = (card_of readiness v n h.0, cards_of readiness v nodes h.1)

-- When the resilience banner says converged at a version, no node's card below it shows a version
-- that is behind.
pub converged_cards :
    (net : Text → Reply) (urls : List Text) (readiness : List NodeReadiness) (v : ℕ)
    → let c = cluster_state net urls in
      (resilience_banner readiness c).1 ≡ converged_at v
      → All (λ m. (card m v).tone ≢ warning) (merged_nodes readiness c)
unfolding resilience_banner merged_nodes
converged_cards net urls readiness v e =
    let c = cluster_state net urls in
    let conv : c.converged ≡ true = ground arith in
    let same : c.latest_version ≡ v = ground arith in
    cards_of readiness v c.nodes
      (subst (λ u. All (Agree u) c.nodes) same ((cluster_state_sound net urls).0 conv))
