-- ===== src/Health/Honest.antt =====
-- The health page's claims, and what the servers answered.
use feature_flag_system.Prelude.{
  ◌<◌, ◌∷◌, [], Text, Bool, true, false, not, List, Option, none, some, ◌≡◌, refl, sym, ◌∙◌, ◌↔◌,
  ◌⊎◌, ◌≢◌, ◌&&◌, is_empty, text_eq, arith, keep, length, length-map, length-keep, All, ◌==◌,
  if◌then◌else◌, Bool-cases, inl, inr,
}
use feature_flag_system.Cluster.Pages.{NodeReadiness}
use feature_flag_system.Health.{
  ReadyReply, unreached, not_json, null_body, body, fetch_readyz, readiness, FleetMetrics,
}
use feature_flag_system.Health.Page.{
  HealthHeadline, checking, all_healthy, all_healthy_in, degraded, health_headline, healthy,
  nodes_ready, all_ready, typical_ms, dash,
}

-- A server that answered `/readyz` with `ready: true`.
abbrev pub answers_ready : ReadyReply → Bool
answers_ready (body b) = b.ready
answers_ready unreached = false
answers_ready not_json = false
answers_ready null_body = false

abbrev pub says_healthy : HealthHeadline → Bool
says_healthy all_healthy = true
says_healthy (all_healthy_in t) = true
says_healthy checking = false
says_healthy (degraded r t) = false

fetch_readyz-ready : (url : Text) (r : ReadyReply) → (fetch_readyz url r).ready ≡ answers_ready r
unfolding fetch_readyz
fetch_readyz-ready url unreached = refl
fetch_readyz-ready url not_json = refl
fetch_readyz-ready url null_body = refl
fetch_readyz-ready url (body b) = refl

readiness-ready :
    (polled : List (Text × ReadyReply))
    → nodes_ready (readiness polled) ≡ length (keep (λ n. answers_ready n.1) polled)
unfolding nodes_ready readiness
readiness-ready [] = refl
readiness-ready (n ∷ ns) = ground (arith, fetch_readyz-ready n.0 n.1, readiness-ready ns)

-- All are kept exactly when the count says so.
keep-All {ℓ} :
    {A : Type ℓ} (p : A → Bool) (xs : List A)
    → (length (keep p xs) ≡ length xs) ↔ All (λ x. p x ≡ true) xs
keep-All p [] = (λ h. tt, λ h. refl)
keep-All p (x ∷ xs) =
    let rest = keep-All p xs in
    let bound = length-keep p xs in
    elim (Bool-cases (p x)) [
      | inl hit ↦ (λ h. (hit, rest.0 (ground arith)), λ h. ground (arith, rest.1 h.1))
      | inr miss ↦ (λ h. absurd (ground arith), λ h. absurd (cc (h.0)))
    ]

healthy-says : (t : Option Text) → says_healthy (healthy t) ≡ true
healthy-says none = refl
healthy-says (some t) = go (not (is_empty t) && not (text_eq t dash))
  where
    go : (b : Bool) → says_healthy (if b then all_healthy_in t else all_healthy) ≡ true
    go true = refl
    go false = refl

module _ {N : Type 0} (ms_text : N → Text) (metrics : Option (FleetMetrics N)) where
  headline_cases :
      (nodes : List NodeReadiness)
      → let shown = health_headline ms_text nodes metrics in
        ((says_healthy shown ≡ true) × (0 < length nodes) × (nodes_ready nodes ≡ length nodes))
        ⊎ ((shown ≡ checking) × (length nodes ≡ 0))
        ⊎ ((shown ≡ degraded (nodes_ready nodes) (length nodes))
            × (nodes_ready nodes ≢ length nodes))
  unfolding health_headline all_ready
  headline_cases nodes = elim (Bool-cases (length nodes == 0)) [
    | inl none_yet ↦ inr (inl (rw (health_headline, none_yet) refl, ground arith))
    | inr some_asked ↦ elim (Bool-cases (all_ready nodes)) [
      | inl all ↦ inl (
        rw (health_headline, some_asked, all) (healthy-says (typical_ms ms_text metrics)),
        ground arith,
        ground arith,
      )
      | inr not_all ↦ inr (inr (rw (health_headline, some_asked, not_all) refl, ground arith))
    ]
  ]

-- The health page says that all is healthy, and some server was asked and every one answered
-- `/readyz` with `ready: true`; or it says that it is checking, and none was asked; or it says that
-- r of n servers are ready, and n were asked, r of them answered so, and r is less than n. That
-- holds whatever the metrics are.
pub headline_honest :
    {N : Type 0} (ms_text : N → Text) (metrics : Option (FleetMetrics N))
    (polled : List (Text × ReadyReply))
    → let shown = health_headline ms_text (readiness polled) metrics in
      let is_ready : Text × ReadyReply → Bool = λ n. answers_ready n.1 in
      let ready = length (keep is_ready polled) in
      ((says_healthy shown ≡ true) × (0 < length polled) × All (λ n. is_ready n ≡ true) polled)
      ⊎ ((shown ≡ checking) × (length polled ≡ 0))
      ⊎ ((shown ≡ degraded ready (length polled)) × (ready < length polled))
headline_honest ms_text metrics polled =
    let nodes = readiness polled in
    let is_ready : Text × ReadyReply → Bool = λ n. answers_ready n.1 in
    let size : length nodes ≡ length polled =
      unfold readiness in length-map (λ n. fetch_readyz n.0 n.1) polled in
    let count = readiness-ready polled in
    let bound = length-keep is_ready polled in
    elim (headline_cases ms_text metrics nodes) [
      | inl (said, some_asked, all) ↦
          inl
            (said, omega (arith, some_asked), (keep-All is_ready polled).0 (sym count ∙ all ∙ size))
      | inr (inl (said, none_asked)) ↦ inr (inl (said, sym size ∙ none_asked))
      | inr (inr (said, less)) ↦ inr (inr (rw (said, count, size) refl, omega arith))
    ]
