-- ===== src/Cluster/Pages/View.antt =====
-- The cards and tiles of frontend/app/cluster/page.tsx and frontend/app/resilience/page.tsx, and
-- what each page draws before its first answer.
use feature_flag_system.Prelude.{
  ◌≡◌, ◌∷◌, [], ℕ, Text, codes, Bool, true, false, ◌&&◌, List, Option, none, some, ◌==◌,
  if◌then◌else◌, map, length, All, arith, or_else, Option-cases, Bool-cases, inl, inr,
}
use feature_flag_system.Cluster.{NodeState, ClusterState, Reply, cluster_state}
use feature_flag_system.Cluster.Agreement.{Agree, cluster_state_sound}
use feature_flag_system.Cluster.Pages.{
  Tone, foreground, Headline, headline, Banner, all_converged, cluster_banner, behind,
  NodeReadiness, MergedNode, merged_nodes, Spread, resilience_banner, ready_tile,
  RedisPublishErrors, errors_tile, CardView, card, dep_tone,
}

-- `data?.nodes ?? []` and so on: what stands for an answer that is not there yet.
abbrev pub no_cluster : ClusterState
no_cluster = record { nodes = []; latest_version = 0; converged = false; reachable_count = 0 }

abbrev pub cluster_data : Option ClusterState → ClusterState
cluster_data none = no_cluster
cluster_data (some c) = c

-- NodeCard of the cluster page.
pub record ClusterCard : Type 0 where
  pub node_id : Text
  pub is_up : Bool
  pub is_behind : Bool
  pub shown_version : Option ℕ
  pub sse_clients : Option ℕ

unfoldable pub cluster_card : ℕ → NodeState → ClusterCard
cluster_card latest n = record {
  node_id = n.node_id;
  is_up = n.ok;
  is_behind = behind n.ok n.config_version latest;
  shown_version = if n.ok then n.config_version else none;
  sse_clients = n.sse_clients;
}

-- The grid of a page: a skeleton of three while the first answer is awaited, or the cards.
pub data Cards (A : Type 0) : Type 0 where
  skeletons : ℕ → Cards A
  cards : List A → Cards A

unfoldable pub card_grid : {A B : Type 0} → Bool → List A → (A → B) → Cards B
card_grid is_loading nodes draw =
    if is_loading && length nodes == 0 then skeletons 3 else cards (map draw nodes)

pub record ClusterPage : Type 0 where
  pub status : Headline
  pub tone : Tone
  pub banner : Banner
  pub latest : ℕ
  pub cards : Cards ClusterCard

unfoldable pub cluster_page : Bool → Option ClusterState → ClusterPage
unfolding cluster_card card_grid cluster_banner
cluster_page is_loading data_ =
    let c = cluster_data data_ in
    record {
      status = headline c;
      tone = (cluster_banner c).0;
      banner = (cluster_banner c).1;
      latest = c.latest_version;
      cards = card_grid is_loading c.nodes (cluster_card c.latest_version);
    }

-- NodeCard of the resilience page with the states of the two dependencies.
pub record ResilienceCard : Type 0 where
  pub node_id : Text
  pub view : CardView
  pub sse_clients : Option ℕ
  pub postgres : Tone
  pub redis : Tone

unfoldable pub resilience_card : ℕ → MergedNode → ResilienceCard
resilience_card latest n = record {
  node_id = n.node_id;
  view = card n latest;
  sse_clients = n.sse_clients;
  postgres = dep_tone n.postgres n.reachable;
  redis = dep_tone n.redis n.reachable;
}

-- SignalTile, where a missing number is "—".
pub record SignalTile (A : Type 0) : Type 0 where
  pub label : Text
  pub value : Option A
  pub tone : Tone
  pub sub : Option Text

abbrev is_lost : Option RedisPublishErrors → Bool
is_lost none = false
is_lost (some e) = e.unavailable

pub record ResiliencePage : Type 0 where
  pub banner : Tone × Banner × Spread
  pub ready : SignalTile (ℕ × ℕ)
  pub version : SignalTile ℕ
  pub errors : SignalTile ℕ
  pub cards : Cards ResilienceCard

unfoldable pub resilience_page :
    Bool
    → Option ClusterState
    → Option (List NodeReadiness)
    → Option RedisPublishErrors
    → ResiliencePage
unfolding resilience_card card_grid ready_tile errors_tile merged_nodes
resilience_page is_loading data_ readiness publish_errors =
    let c = cluster_data data_ in
    let known = or_else readiness [] in
    let nodes = merged_nodes known c in
    record {
      banner = resilience_banner known c;
      ready = record {
        label = codes "Nodes ready";
        value = (ready_tile nodes).0;
        tone = (ready_tile nodes).1;
        sub = none;
      };
      version = record {
        label = codes "Latest version";
        value = if c.reachable_count == 0 then none else some c.latest_version;
        tone = foreground;
        sub = none;
      };
      errors = record {
        label = codes "Redis publish errors";
        value = (errors_tile publish_errors).0;
        tone = (errors_tile publish_errors).1;
        sub = some (
            if is_lost publish_errors
            then codes "prometheus unavailable"
            else codes "cumulative · fan-out health");
      };
      cards = card_grid is_loading nodes (resilience_card c.latest_version);
    }

card_not_behind : (v : ℕ) (n : NodeState) → Agree v n → (cluster_card v n).is_behind ≡ false
unfolding cluster_card
card_not_behind v n a = elim (Option-cases n.config_version) [
  | inl e ↦ ground arith
  | inr w ↦ elim (Bool-cases n.ok) [
    | inl k ↦ ground (arith, w.1, a w.0 (k, w.1))
    | inr k ↦ ground arith
  ]
]

not_behind :
    (v : ℕ) (nodes : List NodeState)
    → All (Agree v) nodes
    → All (λ k. k.is_behind ≡ false) (map (cluster_card v) nodes)
unfolding cluster_card
not_behind v [] h = tt
not_behind v (n ∷ nodes) h = (card_not_behind v n h.0, not_behind v nodes h.1)

-- Whatever the nodes answer: when the banner of the cluster page says that all have converged, no
-- card under it is drawn as behind.
pub all_converged-not_behind :
    (net : Text → Reply) (urls : List Text) (n : ℕ)
    → let c = cluster_state net urls in
      (cluster_page false (some c)).banner ≡ all_converged n
      → All (λ k. k.is_behind ≡ false) (map (cluster_card c.latest_version) c.nodes)
unfolding cluster_page cluster_banner
all_converged-not_behind net urls n e =
    let c = cluster_state net urls in
    let conv : c.converged ≡ true = ground arith in
    not_behind c.latest_version c.nodes ((cluster_state_sound net urls).0 conv)
