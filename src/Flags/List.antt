-- ===== src/Flags/List.antt =====
-- frontend/components/flags/FlagList.tsx with the parts of a row, and FlagHistoryDrawer.tsx.
use feature_flag_system.Prelude.{
  ℕ, ◌∷◌, [], ◌++◌, Text, codes, Bool, true, List, Option, none, some, ℤ, pos, negsuc, leb, min,
  length, map, is_empty, if◌then◌else◌, decimal,
}
use feature_flag_system.Types.{
  Flag, FlagEvent, EventType, created, updated, deleted, Payload, full, stub,
}

-- RolloutBar: `Math.max(0, Math.min(100, percentage))`.
unfoldable pub clamped : ℤ → ℕ
clamped (pos n) = min 100 n
clamped (negsuc n) = 0

pub record RolloutBar : Type 0 where
  pub value : ℕ
  pub is_colored : Bool
  pub label : Option ℕ

unfoldable pub rollout_bar : ℤ → (active show_label : Bool) → RolloutBar
unfolding clamped
rollout_bar percentage active show_label = record {
  value = clamped percentage;
  is_colored = active;
  label = if show_label then some (clamped percentage) else none;
}

-- StatusBadge: whether it is green, and its word.
unfoldable pub status_badge : Bool → Bool × Text
status_badge enabled = (enabled, if enabled then codes "On" else codes "Off")

-- ToggleSwitch
pub record ToggleSwitch : Type 0 where
  pub is_checked : Bool
  pub is_disabled : Bool
  pub label : Text

unfoldable pub toggle_switch : (enabled disabled : Bool) → ToggleSwitch
toggle_switch enabled disabled = record {
  is_checked = enabled;
  is_disabled = disabled;
  label = if enabled then codes "Disable flag" else codes "Enable flag";
}

-- A row of the table. The description has a tooltip unless it is empty.
pub record FlagRow : Type 0 where
  pub badge : Bool × Text
  pub key : Text
  pub href : Text
  pub description : Text
  pub tooltip : Option Text
  pub rollout : RolloutBar
  pub version : Text
  pub targeting : Option ℕ
  pub toggle : ToggleSwitch

unfoldable pub flag_row : Bool → Flag → FlagRow
unfolding status_badge rollout_bar toggle_switch
flag_row is_pending f = record {
  badge = status_badge f.enabled;
  key = f.key;
  href = codes "/flags/" ++ f.id;
  description = if is_empty f.description then codes "—" else f.description;
  tooltip = if is_empty f.description then none else some f.description;
  rollout = rollout_bar f.rollout_percentage f.enabled true;
  version = codes "v" ++ decimal f.version;
  targeting = if leb (length f.targeted_users) 0 then none else some (length f.targeted_users);
  toggle = toggle_switch f.enabled is_pending;
}

-- What the list shows. The query's data may be missing.
pub data ListBody : Type 0 where
  error_state skeleton empty_state : ListBody
  table : List FlagRow → ListBody

abbrev rows_of : Bool → Option (List Flag) → ListBody
rows_of is_pending none = empty_state
rows_of is_pending (some []) = empty_state
rows_of is_pending (some (f ∷ fs)) = table (map (flag_row is_pending) (f ∷ fs))

unfoldable pub flag_list : (is_error is_loading is_pending : Bool) → Option (List Flag) → ListBody
unfolding flag_row
flag_list is_error is_loading is_pending flags =
    if is_error then error_state else if is_loading then skeleton else rows_of is_pending flags

-- EVENT_META
unfoldable pub event_label : EventType → Text
event_label created = codes "Created"
event_label updated = codes "Updated"
event_label deleted = codes "Deleted"

-- The fields of the payload that a row reads: a stub has neither.
abbrev shown_state : Payload → Option (Bool × ℤ)
shown_state (full f) = some (f.enabled, f.rollout_percentage)
shown_state (stub id key) = none

abbrev state_note : EventType → Payload → Option (Bool × ℤ)
state_note deleted p = none
state_note created p = shown_state p
state_note updated p = shown_state p

pub record EventRow : Type 0 where
  pub label : Text
  pub version : Text
  pub state : Option (Bool × ℤ)

-- EventRow, without the local form of its time.
unfoldable pub event_row : FlagEvent → EventRow
unfolding event_label
event_row e = record {
  label = event_label e.event_type;
  version = codes "v" ++ decimal e.version;
  state = state_note e.event_type e.payload;
}

pub data HistoryBody : Type 0 where
  loading_rows no_events : HistoryBody
  event_rows : List EventRow → HistoryBody

abbrev history_rows : Option (List FlagEvent) → HistoryBody
history_rows none = no_events
history_rows (some []) = no_events
history_rows (some (e ∷ es)) = event_rows (map event_row (e ∷ es))

-- The drawer that is open.
unfoldable pub history_drawer : Bool → Option (List FlagEvent) → HistoryBody
unfolding event_row
history_drawer is_loading events = if is_loading then loading_rows else history_rows events
