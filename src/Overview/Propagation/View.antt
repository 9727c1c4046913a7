-- ===== src/Overview/Propagation/View.antt =====
-- What frontend/components/overview/PropagationHero.tsx draws, and the names that the nodes get at
-- the first render. Texts that carry numbers are constructors that keep them.
use feature_flag_system.Prelude.{
  ℕ, ◌∷◌, [], Text, Bool, true, false, not, ◌&&◌, ◌||◌, List, Option, none, some, map, keep, length,
  ltb, if◌then◌else◌,
}
use feature_flag_system.Cluster.{NodeState}
use feature_flag_system.Cluster.Flip.{Phase, idle, running, converged, settled}
use feature_flag_system.Overview.Propagation.{
  Propagation, StageState, resting, active, done, NodeLite, Narration,
}

-- `states[i]?.nodeId ?? n.id`; a state always has a name.
unfoldable pub name_nodes : List NodeState → List NodeLite → List NodeLite
name_nodes states [] = []
name_nodes [] (n ∷ nodes) = n ∷ name_nodes [] nodes
name_nodes (s ∷ states) (n ∷ nodes) = record n { id = s.node_id } ∷ name_nodes states nodes

abbrev pub is_ended : Phase → Bool
is_ended idle = false
is_ended running = false
is_ended converged = true
is_ended settled = true

abbrev pub is_running_phase : Phase → Bool
is_running_phase running = true
is_running_phase idle = false
is_running_phase converged = false
is_running_phase settled = false

abbrev pub is_converged_phase : Phase → Bool
is_converged_phase converged = true
is_converged_phase idle = false
is_converged_phase running = false
is_converged_phase settled = false

abbrev is_done : StageState → Bool
is_done done = true
is_done active = false
is_done resting = false

-- Stage: its frame and whether it spins.
pub data StageTone : Type 0 where
  done_accent done_live working plain : StageTone

unfoldable pub stage_tone : (is_live : Bool) → StageState → StageTone × Bool
stage_tone is_live done = (if is_live then done_live else done_accent, false)
stage_tone is_live active = (working, true)
stage_tone is_live resting = (plain, false)

-- NodeChip
pub record Chip : Type 0 where
  pub id : Text
  pub is_checked : Bool
  pub ms : Option ℕ

unfoldable pub node_chip : NodeLite → Chip
node_chip n = record { id = n.id; is_checked = n.arrived; ms = if n.arrived then n.ms else none }

-- The badge at the end of a run.
pub data ResultBadge : Type 0 where
  converged_at : (version : ℕ) → (browser_ms : Option ℕ) → ResultBadge
  some_on : (arrived total version : ℕ) → ResultBadge

unfoldable pub arrived_count : List NodeLite → ℕ
arrived_count nodes = length (keep (λ n. n.arrived) nodes)

unfoldable pub result_badge : Propagation → Option ResultBadge
unfolding arrived_count
result_badge h = elim h.target_version [
  | none ↦ none
  | some v ↦
      if is_converged_phase h.phase
      then some (converged_at v h.browser_ms)
      else if is_ended h.phase
      then some (some_on (arrived_count h.nodes) (length h.urls) v)
      else none
]

pub record HeroView : Type 0 where
  pub flip_disabled : Bool
  pub has_replay : Bool
  pub admin : StageTone × Bool
  pub admin_connector : Bool
  pub postgres : StageTone × Bool
  pub postgres_connector : Bool
  pub redis : StageTone × Bool
  pub redis_connector : Bool
  pub backends : ℕ
  pub chips : List Chip
  pub browser_connector : Bool
  pub browser : StageTone × Bool
  pub browser_ms : Option ℕ
  pub narration : Narration
  pub badge : Option ResultBadge
  pub has_error : Bool

-- The hero; `has_flag` is whether the list has the flag of the hero.
unfoldable pub render_hero : Bool → Propagation → HeroView
unfolding stage_tone node_chip arrived_count result_badge
render_hero has_flag h = record {
  flip_disabled = is_running_phase h.phase || not has_flag;
  has_replay = is_ended h.phase;
  admin = stage_tone false h.admin;
  admin_connector = is_done h.admin;
  postgres = stage_tone false h.postgres;
  postgres_connector = is_done h.postgres;
  redis = stage_tone false h.redis;
  redis_connector = is_done h.redis && ltb 0 (arrived_count h.nodes);
  backends = length h.urls;
  chips = map node_chip h.nodes;
  browser_connector = is_done h.browser;
  browser = stage_tone true h.browser;
  browser_ms = h.browser_ms;
  narration = h.narration;
  badge = result_badge h;
  has_error = h.error;
}
