-- ===== src/Health/Tests.antt =====
-- Three servers of which one answers that it is not ready, and the theorems at them.
use feature_flag_system.Prelude.{
  ℕ, ◌<◌, ◌∷◌, [], Text, codes, Bool, true, false, List, none, some, ◌≡◌, refl, ◌⊎◌, All, length,
  keep,
}
use feature_flag_system.Health.{
  ReadyReply, body, unreached, readiness, scalar, null, throws, fleet_metrics,
}
use feature_flag_system.Health.Page.{health_headline, degraded, checking, nodes_tile}
use feature_flag_system.Health.Honest.{headline_honest, says_healthy, answers_ready}

abbrev answer : Bool → ReadyReply
answer ready = body (record {
  node_id = some (codes "backend1");
  ready = ready;
  postgres = some (codes "ok");
  redis = none;
  config_version = some 4;
})

abbrev polled : List (Text × ReadyReply)
polled = (codes "a", answer true) ∷ (codes "b", answer false) ∷ (codes "c", unreached) ∷ []

headline_honest_example :
    let shown = health_headline (λ (t : Text). t) (readiness polled) none in
    let is_ready : Text × ReadyReply → Bool = λ n. answers_ready n.1 in
    let ready = length (keep is_ready polled) in
    ((says_healthy shown ≡ true) × (0 < length polled) × All (λ n. is_ready n ≡ true) polled)
    ⊎ ((shown ≡ checking) × (length polled ≡ 0))
    ⊎ ((shown ≡ degraded ready (length polled)) × (ready < length polled))
headline_honest_example = headline_honest (λ (t : Text). t) none polled

-- One of three is ready, and one query that throws loses all four metrics.
counted : health_headline (λ (t : Text). t) (readiness polled) none ≡ degraded 1 3
unfolding health_headline readiness
counted = refl

lost : (fleet_metrics {N = ℕ} (scalar 3) null throws (scalar 9)).unavailable ≡ true
unfolding fleet_metrics
lost = refl

-- Before the first answer the tile says that the servers are unreachable.
tile_before_answer : (nodes_tile []).pill.label ≡ codes "unreachable"
unfolding nodes_tile
tile_before_answer = refl
