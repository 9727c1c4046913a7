-- ===== src/Explain/Timeline/View.antt =====
-- What frontend/components/explain/VersionTimeline.tsx draws for each entry of the log.
use feature_flag_system.Prelude.{
  ◌∷◌, [], ℕ, Text, Bool, false, List, Option, none, some, codes, ◌==◌, if◌then◌else◌, not, suc,
  ◌≡◌, refl, ◌≤◌, arith, le_or_lt, inl, inr, find,
}
use feature_flag_system.Types.{FlagEvent, EventType, created, updated, deleted}
use feature_flag_system.Sdk.Log.{Above}
use feature_flag_system.Explain.Timeline.{
  Timeline, Age, age_of, DetailText, detail_of, selected_event,
}

-- KIND_STYLE: the label and the colour.
pub data TickTone : Type 0 where
  primary foreground muted : TickTone

unfoldable pub kind_style : EventType → Text × TickTone
kind_style created = (codes "created", primary)
kind_style updated = (codes "updated", foreground)
kind_style deleted = (codes "deleted", muted)

-- TimelineTick. Only the first has no line to its left. Each has a clock of its own: `clock` gives it
-- by the version, and `to_ms` is `new Date(…).getTime()`.
pub record TimelineTick : Type 0 where
  pub version : ℕ
  pub flag_key : Text
  pub label : Text
  pub tone : TickTone
  pub age : Age
  pub has_line_before : Bool
  pub is_pressed : Bool

abbrev is_version : Option ℕ → ℕ → Bool
is_version none version = false
is_version (some v) version = version == v

module _ (to_ms : Text → ℕ) (clock : ℕ → ℕ) where
  unfoldable pub timeline_tick : (first : Bool) → Option ℕ → FlagEvent → TimelineTick
  unfolding kind_style
  timeline_tick first selected e = record {
    version = e.version;
    flag_key = e.flag_key;
    label = (kind_style e.event_type).0;
    tone = (kind_style e.event_type).1;
    age = age_of (clock e.version) (to_ms e.created_at);
    has_line_before = not first;
    is_pressed = is_version selected e.version;
  }

  unfoldable pub timeline_ticks : (first : Bool) → Option ℕ → List FlagEvent → List TimelineTick
  unfolding timeline_tick
  timeline_ticks first selected [] = []
  timeline_ticks first selected (e ∷ events) =
      timeline_tick first selected e ∷ timeline_ticks false selected events

  -- Detail: the entry's name for what happened, and what it says below.
  unfoldable pub timeline_detail : Timeline → Option ((ℕ × Text × EventType) × DetailText)
  timeline_detail t = elim (selected_event t) [
    | none ↦ none
    | some e ↦ some ((e.version, e.flag_key, e.event_type), detail_of e)
  ]

abbrev pub count_pressed : List TimelineTick → ℕ
count_pressed [] = 0
count_pressed (k ∷ rest) = if k.is_pressed then suc (count_pressed rest) else count_pressed rest

module _ (to_ms : Text → ℕ) (clock : ℕ → ℕ) where
  -- In an ascending list no entry is pressed whose version lies past the selected one.
  unpressed :
      (first : Bool) (v lo : ℕ) (events : List FlagEvent)
      → Above lo events
      → v ≤ lo
      → count_pressed (timeline_ticks to_ms clock first (some v) events) ≡ 0
  unfolding timeline_ticks
  unpressed first v lo [] u h = refl
  unpressed first v lo (e ∷ events) u h =
      ground (arith, unpressed false v e.version events u.1 (omega (arith, u.0, h)))

  -- In an ascending list one tick is pressed where an entry has the selected version, which is
  -- then the entry of the detail, and no tick otherwise.
  pub pressed-find :
      (first : Bool) (v lo : ℕ) (events : List FlagEvent)
      → Above lo events
      → count_pressed (timeline_ticks to_ms clock first (some v) events)
        ≡ elim (find (λ e. e.version == v) events) [ none ↦ 0 | some e ↦ 1 ]
  unfolding timeline_ticks
  pressed-find first v lo [] u = refl
  pressed-find first v lo (e ∷ events) u = elim (le_or_lt v e.version) [
    | inl k ↦
        ground (
          arith,
          unpressed false v e.version events u.1 k,
          pressed-find false v e.version events u.1,
        )
    | inr k ↦ ground (arith, pressed-find false v e.version events u.1)
  ]
