-- ===== src/Cluster/Tests.antt =====
-- Clusters of two nodes.
use feature_flag_system.Prelude.{
  ◌≡◌, refl, ◌∷◌, [], List, ℕ, ◌+◌, ◌≤◌, Text, codes, true, false, not, none, some, arith, All,
  length, if◌then◌else◌,
}
use feature_flag_system.Cluster.{NodeState, Reply, answered, cluster_state}
use feature_flag_system.Cluster.Agreement.{Agree}
use feature_flag_system.Cluster.Flip.{
  Poll, World, open_hero, run_flip, poll_loop, target_of, idle, converged, settled, pre_max,
  note_arrivals,
}
use feature_flag_system.Cluster.Flip.Outcome.{agrees_in_time, run_flip_outcome, poll_loop_ends}
use feature_flag_system.Cluster.Seeding.{
  Happening, brings, fails, happen, happen_all, unseeded, seed, hero_flag,
}
use feature_flag_system.Cluster.Pages.{headline, all_on, resilience_banner, spread, converged_at}
use feature_flag_system.Cluster.Pages.Claims.{headline_true}

abbrev urls : List Text
urls = codes "a" ∷ codes "b" ∷ []

-- Both nodes at version 7.
abbrev calm : Text → Reply
calm url = answered (some url) (some 7) (some 1)

-- The node of the longer name is one version ahead.
abbrev torn : Text → Reply
torn url = answered (some url) (some (7 + length url)) none

abbrev torn_urls : List Text
torn_urls = codes "a" ∷ codes "bb" ∷ []

abbrev node : Text → ℕ → NodeState
node url v = record {
  url = url;
  node_id = url;
  config_version = some v;
  sse_clients = none;
  ok = true;
}

abbrev poll : ℕ → ℕ → ℕ → Poll
poll time v w = record {
  tested_at = time;
  states = node (codes "a") v ∷ node (codes "b") w ∷ [];
  seen_at = time + 20;
}

-- The first poll finds one node at the new version, the second finds both.
abbrev quick : World
quick = record {
  known_version = 7;
  before = node (codes "a") 7 ∷ node (codes "b") 6 ∷ [];
  t0 = 1000;
  toggled = true;
  resumed_at = 1050;
  polls = poll 1050 8 7 ∷ poll 1230 8 8 ∷ [];
}

quick_converges :
    (target_of quick ≡ 8)
    × ((run_flip urls true quick (open_hero urls)).phase ≡ converged)
    × (agrees_in_time 8 9050 quick.polls ≡ true)
unfolding run_flip open_hero pre_max agrees_in_time note_arrivals
quick_converges = (refl, refl, refl)

open_idle : (open_hero urls).running ≡ false
unfolding open_hero
open_idle = refl

run_flip_outcome_example :
    ((run_flip urls true quick (open_hero urls)).phase ≡ (
      if not true
      then idle
      else if agrees_in_time (target_of quick) (1050 + 8000) quick.polls
      then converged
      else settled))
    × ((run_flip urls true quick (open_hero urls)).error ≡ not true)
    × ((run_flip urls true quick (open_hero urls)).running ≡ false)
run_flip_outcome_example = run_flip_outcome urls quick (open_hero urls) open_idle

poll_loop_ends_example :
    let made = poll_loop 8 2 1000 9050 (poll 1050 8 7 ∷ []) (open_hero urls) [] in
    let end =
      poll_loop 8 2 1000 9050
        (poll 1050 8 7 ∷ poll 9060 8 7 ∷ poll 9240 8 8 ∷ [])
        (open_hero urls)
        [] in
    (end.ended ≡ true)
    × (end.hero ≡ made.hero)
    × (end.arrival ≡ made.arrival)
    × (end.has_converged ≡ made.has_converged)
poll_loop_ends_example =
    poll_loop_ends 8 2 1000 9050 (poll 1050 8 7 ∷ []) (poll 9240 8 8 ∷ []) (poll 9060 8 7)
      (open_hero urls) [] (omega arith)

calm-headline : headline (cluster_state calm urls) ≡ all_on 2 7
unfolding headline cluster_state
calm-headline = refl

headline_true_example :
    (1 ≤ 2)
    × ((cluster_state calm urls).reachable_count ≡ 2)
    × All (Agree 7) (cluster_state calm urls).nodes
headline_true_example = headline_true calm urls 2 7 calm-headline

torn_spread : (resilience_banner [] (cluster_state torn torn_urls)).2 ≡ spread 8 9 2
unfolding resilience_banner cluster_state
torn_spread = refl

calm_banner : (resilience_banner [] (cluster_state calm urls)).1 ≡ converged_at 7
unfolding resilience_banner cluster_state
calm_banner = refl

-- The flag is missing, its creation fails, and the next list without it sends another.
abbrev two_tries : List Happening
two_tries = brings [] ∷ brings [] ∷ fails ∷ brings [] ∷ []

sent_twice : length (happen_all (codes "demo") two_tries unseeded).sent ≡ 2
unfolding happen_all happen seed hero_flag
sent_twice = refl
