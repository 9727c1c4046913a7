-- ===== src/Cluster/Flip/View.antt =====
-- What frontend/components/cluster/ClusterHero.tsx draws, and the states that it fetches at the
-- first render. Texts that carry numbers are constructors that keep them.
use feature_flag_system.Prelude.{
  ℕ, ◌∷◌, [], Text, Bool, true, false, not, ◌&&◌, ◌||◌, List, Option, none, some, is_none, map,
  keep, length, ltb, if◌then◌else◌,
}
use feature_flag_system.Cluster.{NodeState}
use feature_flag_system.Cluster.Flip.{
  Phase, idle, running, converged, settled, Source, Hero, NodeRow, Narration,
}

abbrev or_other : Option ℕ → Option ℕ → Option ℕ
or_other none b = b
or_other (some a) b = some a

-- `states[i]` for each row: its name, and its version where it has one.
unfoldable pub refresh_rows : List NodeState → List NodeRow → List NodeRow
refresh_rows states [] = []
refresh_rows [] (n ∷ nodes) = n ∷ refresh_rows [] nodes
refresh_rows (s ∷ states) (n ∷ nodes) =
    record n { id = s.node_id; cur_version = or_other s.config_version n.cur_version }
    ∷ refresh_rows states nodes

abbrev in_run : Phase → Bool
in_run running = true
in_run idle = false
in_run converged = false
in_run settled = false

abbrev has_converged : Phase → Bool
has_converged converged = true
has_converged idle = false
has_converged running = false
has_converged settled = false

abbrev has_ended : Phase → Bool
has_ended idle = false
has_ended running = false
has_ended converged = true
has_ended settled = true

unfoldable pub arrived_rows : List NodeRow → ℕ
arrived_rows nodes = length (keep (λ n. n.arrived) nodes)

-- Nodes disagree while a run goes on.
unfoldable pub is_diverged : Hero → Bool
unfolding arrived_rows
is_diverged h =
    in_run h.phase && ltb 0 (arrived_rows h.nodes) && ltb (arrived_rows h.nodes) (length h.nodes)

pub data HeroBadge : Type 0 where
  converged_on : (version : ℕ) → HeroBadge
  diverged_on : (arrived total version : ℕ) → HeroBadge

unfoldable pub hero_badge : Hero → Option HeroBadge
unfolding is_diverged arrived_rows
hero_badge h = elim h.target [
  | none ↦ none
  | some v ↦
      if has_converged h.phase
      then some (converged_on v)
      else if has_ended h.phase || is_diverged h
      then some (diverged_on (arrived_rows h.nodes) (length h.nodes) v)
      else none
]

-- NodeCard: its frame, its time, and its version or the two between which it stands.
pub data CardTone : Type 0 where
  has_arrived is_behind plain : CardTone

pub data CardVersion : Type 0 where
  transition : (from to : ℕ) → CardVersion
  at_version : Option ℕ → CardVersion

pub record NodeCard : Type 0 where
  pub id : Text
  pub tone : CardTone
  pub ms : Option ℕ
  pub version : CardVersion

abbrev card_version : Option ℕ → NodeRow → CardVersion
card_version none n = at_version n.cur_version
card_version (some t) n =
    if n.arrived
    then at_version n.cur_version
    else elim n.pre_version [ none ↦ at_version n.cur_version | some v ↦ transition v t ]

unfoldable pub node_card : Option ℕ → NodeRow → NodeCard
node_card target n = record {
  id = n.id;
  tone = if n.arrived then has_arrived else if not (is_none target) then is_behind else plain;
  ms = if n.arrived then n.ms else none;
  version = card_version target n;
}

abbrev source_started : Source → Bool
source_started Source.idle = false
source_started Source.active = true
source_started Source.done = true

abbrev source_done : Source → Bool
source_done Source.idle = false
source_done Source.active = false
source_done Source.done = true

pub record ClusterView : Type 0 where
  pub flip_disabled : Bool
  pub has_replay : Bool
  pub you : Bool
  pub postgres : Bool
  pub redis : Bool
  pub cards : List NodeCard
  pub narration : Narration
  pub badge : Option HeroBadge
  pub has_error : Bool

-- The hero; `has_flag` is whether the list has the flag of the hero.
unfoldable pub render_cluster : Bool → Hero → ClusterView
unfolding node_card hero_badge
render_cluster has_flag h = record {
  flip_disabled = in_run h.phase || not has_flag;
  has_replay = has_ended h.phase;
  you = source_started h.source;
  postgres = source_done h.source;
  redis = source_done h.source;
  cards = map (node_card h.target) h.nodes;
  narration = h.narration;
  badge = hero_badge h;
  has_error = h.error;
}
