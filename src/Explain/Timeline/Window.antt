-- ===== src/Explain/Timeline/Window.antt =====
-- The timeline of frontend/components/explain/VersionTimeline.tsx shows the end of the log.
use feature_flag_system.Prelude.{
  ◌≡◌, refl, ◌∷◌, [], ℕ, suc, zero, ◌-◌, ◌≤◌, max, List, arith, length, All, ap, ◌∙◌, take,
}
use feature_flag_system.Types.{FlagEvent}
use feature_flag_system.Sdk.Log.{Above, Above-weaken, after, latest, latest-All}
use feature_flag_system.Sdk.CatchUp.{list_events_since, page_limit}
use feature_flag_system.Explain.Timeline.{
  Timeline, sort_events, insert_event, receive_events, since_of,
}

Above-after : (lo v : ℕ) (es : List FlagEvent) → Above lo es → Above lo (after v es)
unfolding after
Above-after lo v [] u = tt
Above-after lo v (e ∷ es) u = ground (
  arith,
  Above-after e.version v es u.1,
  Above-weaken lo e.version (after v es) (omega (arith, u.0)),
)

length-after :
    (lo v n : ℕ) (es : List FlagEvent)
    → Above lo es
    → All (λ x. x.version ≤ n) es
    → length (after v es) ≤ n - max lo v
unfolding after
length-after lo v n [] u b = omega arith
length-after lo v n (e ∷ es) u b = ground (arith, length-after e.version v n es u.1 b.1)

take_all : (n : ℕ) (es : List FlagEvent) → length es ≤ n → take n es ≡ es
take_all zero [] h = refl
take_all zero (e ∷ es) h = absurd (omega arith)
take_all (suc n) [] h = refl
take_all (suc n) (e ∷ es) h = ap (λ ds. e ∷ ds) (take_all n es (omega arith))

insert_first :
    (e : FlagEvent) (es : List FlagEvent) → Above e.version es → insert_event e es ≡ e ∷ es
unfolding insert_event
insert_first e [] u = refl
insert_first e (d ∷ es) u = ground arith

sort_sorted : (lo : ℕ) (es : List FlagEvent) → Above lo es → sort_events es ≡ es
unfolding sort_events
sort_sorted lo [] u = refl
sort_sorted lo (e ∷ es) u =
    ap (insert_event e) (sort_sorted e.version es u.1) ∙ insert_first e es u.1

-- For a log that ascends and a version that no event exceeds, the timeline shows exactly the
-- events of the last 40 versions, oldest first: the server's limit on a page cuts none of them.
pub timeline_window :
    (log : List FlagEvent) (n : ℕ) (t : Timeline)
    → Above 0 log
    → latest log ≤ n
    → (receive_events (list_events_since log (since_of n 40) 0) t).events ≡ after (n - 40) log
unfolding receive_events list_events_since page_limit since_of
timeline_window log n t u b =
    let short : length (after (n - 40) log) ≤ 500 =
      omega (arith, length-after 0 (n - 40) n log u (latest-All n log b)) in
    ap sort_events (take_all 500 (after (n - 40) log) short)
    ∙ sort_sorted 0 (after (n - 40) log) (Above-after 0 (n - 40) log u)
