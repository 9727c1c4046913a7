-- ===== src/Overview/Tests.antt =====
-- The propagation hero at concrete inputs.
use feature_flag_system.Prelude.{
  ◌≡◌, refl, ◌∷◌, [], ◌<◌, ◌≤◌, ℕ, Text, codes, Bool, true, false, none, some, arith, pos,
  parse_int, text_eq, List, All,
}
use feature_flag_system.Types.{Flag}
use feature_flag_system.Flags.Form.Submit.{IsPercentage}
use feature_flag_system.Overview.Stats.{stats, rollout_sum}
use feature_flag_system.Overview.Average.{stats-IsPercentage}
use feature_flag_system.Cluster.{NodeState}
use feature_flag_system.Cluster.Flip.{Poll, converged, pre_max}
use feature_flag_system.Overview.Propagation.{
  Push, Happening, clicks, answered, toggle_answered, polls, pushes, happen, happen_all, open_page,
  same_stage, at_rest,
}
use feature_flag_system.Overview.Propagation.Runs.{IsConsistent, happen_all-IsConsistent}
use feature_flag_system.Overview.Propagation.Stale.{stale_event_observed}

abbrev urls : List Text
urls = codes "a" ∷ []

abbrev node : ℕ → NodeState
node v = record {
  url = codes "a";
  node_id = codes "a";
  config_version = some v;
  sse_clients = none;
  ok = true;
}

abbrev event : Push
event = record { last_event_id = codes "7"; key = some (codes "hero-demo") }

abbrev all_at_eight : Poll
all_at_eight = record { tested_at = 60; states = node 8 ∷ []; seen_at = 70 }

-- An event of version 7, before the nodes answer that they are at version 7.
abbrev run : List Happening
run =
    clicks true
    ∷ pushes event 10
    ∷ answered 7 (node 7 ∷ []) 20
    ∷ toggle_answered 50
    ∷ polls all_at_eight
    ∷ []

happen_all-IsConsistent_example :
    let h = happen_all run (open_page urls) in
    IsConsistent h × ((b : Bool) → same_stage h.stage at_rest ≡ false → happen (clicks b) h ≡ h)
happen_all-IsConsistent_example = happen_all-IsConsistent run urls

rested : (open_page urls).is_running ≡ false
unfolding open_page
rested = refl

first_target : (open_page urls).target ≤ 7
unfolding open_page
first_target = omega arith

heard_key : parse_int (codes "7") ≡ some (pos 7)
unfolding parse_int
heard_key = refl

before_known : 7 ≤ pre_max 7 (node 7 ∷ [])
unfolding pre_max
before_known = omega arith

stale_event_observed_example :
    ((happen_all run (open_page urls)).phase ≡ converged)
    × ((happen_all run (open_page urls)).observed ≡ some 10)
    × (7 < (happen_all run (open_page urls)).target)
unfolding pre_max text_eq
stale_event_observed_example =
    stale_event_observed (open_page urls) event 7 7 10 20 50 (node 7 ∷ []) all_at_eight rested refl
      heard_key first_target before_known (omega arith) refl

abbrev flag_at : ℕ → Flag
flag_at percentage = record {
  id = [];
  key = [];
  description = [];
  enabled = true;
  rollout_percentage = pos percentage;
  targeted_users = [];
  version = 1;
  created_at = [];
  updated_at = [];
}

abbrev two_flags : List Flag
two_flags = flag_at 50 ∷ flag_at 25 ∷ []

two_flags-All : All (λ f. IsPercentage f.rollout_percentage) two_flags
two_flags-All = omega arith

stats-IsPercentage_example : IsPercentage (stats two_flags).average_rollout
stats-IsPercentage_example = stats-IsPercentage two_flags two_flags-All

-- The mean of 50 and 25 is 37.5, which is rounded up.
mean : (stats two_flags).average_rollout ≡ pos 38
unfolding stats rollout_sum
mean = refl
