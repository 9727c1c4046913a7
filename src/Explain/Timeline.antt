-- ===== src/Explain/Timeline.antt =====
-- frontend/components/explain/VersionTimeline.tsx with frontend/hooks/useEvents.ts: the recent part
-- of the event log, oldest first, with one entry selected. Clocks are in milliseconds.
pub mod View
pub mod Window
use feature_flag_system.Prelude.{
  ◌≡◌, refl, ◌∷◌, [], ℕ, ◌-◌, ◌+◌, ◌/◌, ◌<◌, ◌≤◌, Text, Bool, true, false, not, List, Option, none,
  some, ◌==◌, ltb, leb, if◌then◌else◌, find, arith, length, ℤ,
}
use feature_flag_system.Types.{
  FlagEvent, FlagConfig, Payload, full, stub, EventType, created, updated, deleted,
}

-- The query: what it asks for, and whether it runs.
unfoldable pub since_of : ℕ → ℕ → ℕ
since_of latest window = latest - window

unfoldable pub events_enabled : ℕ → Bool
events_enabled latest = ltb 0 latest

-- `[...events].sort((a, b) => a.version - b.version)`, which keeps the order of equal versions.
unfoldable pub insert_event : FlagEvent → List FlagEvent → List FlagEvent
insert_event e [] = e ∷ []
insert_event e (d ∷ events) =
    let rest = insert_event e events in if ltb d.version e.version then d ∷ rest else e ∷ d ∷ events

unfoldable pub sort_events : List FlagEvent → List FlagEvent
unfolding insert_event
sort_events [] = []
sort_events (e ∷ events) = insert_event e (sort_events events)

pub record Timeline : Type 0 where
  pub events : List FlagEvent
  pub selected : Option ℕ

unfoldable pub select_version : ℕ → Timeline → Timeline
select_version v t = record t {
  selected = elim t.selected [ none ↦ some v | some w ↦ if w == v then none else some v ];
}

-- A new answer of the query; the selection stays.
unfoldable pub receive_events : List FlagEvent → Timeline → Timeline
unfolding sort_events
receive_events events t = record t { events = sort_events events }

unfoldable pub selected_event : Timeline → Option FlagEvent
selected_event t = elim t.selected [ none ↦ none | some v ↦ find (λ e. e.version == v) t.events ]

-- What the timeline shows in place of ticks.
pub data Body : Type 0 where
  skeleton no_changes : Body
  ticks : List FlagEvent → Body

unfoldable pub render_timeline : Bool → Timeline → Body
render_timeline is_loading t = elim t.events [
  | [] ↦ if is_loading then skeleton else no_changes
  | e ∷ events ↦ ticks (e ∷ events)
]

-- The detail of an entry: removed, or the state that it set, with the number of targeted users
-- if there are any.
pub data DetailText : Type 0 where
  removed : DetailText
  now_is : (on : Bool) (rollout : Option ℤ) (targeted : Option ℕ) → DetailText

unfoldable pub detail_of : FlagEvent → DetailText
detail_of e = elim e.event_type [
  | deleted ↦ removed
  | _ ↦ elim e.payload [
    | stub id key ↦ now_is false none none
    | full f ↦
        now_is f.enabled (some f.rollout_percentage)
          (if length f.targeted_users == 0 then none else some (length f.targeted_users))
  ]
]

-- The age of an entry, in a unit: `Math.max(0, Math.round((now - then) / 1000))` seconds.
pub data Age : Type 0 where
  seconds minutes hours days : ℕ → Age

unfoldable pub age_of : ℕ → ℕ → Age
age_of now then_ =
    let s = (now - then_ + 500) / 1000 in
    if ltb s 60
    then seconds s
    else if ltb s 3600
    then minutes (s / 60)
    else if ltb s 86400
    then hours (s / 3600)
    else days (s / 86400)
