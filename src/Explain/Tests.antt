-- ===== src/Explain/Tests.antt =====
-- The teaching components at concrete inputs.
use feature_flag_system.Prelude.{
  ◌-◌, ℕ, ◌≤◌, none, ◌≡◌, refl, ◌∷◌, [], List, pos, Text, codes, true, false, some, arith, length,
  get_elem?, not, ◌&&◌, ◌||◌, ap, split, join, includes,
}
use feature_flag_system.Types.{FlagEvent, updated, stub}
use feature_flag_system.Sdk.Log.{after, latest}
use feature_flag_system.Sdk.CatchUp.{list_events_since}
use feature_flag_system.Explain.Mode.{SwitchStorage}
use feature_flag_system.Explain.Timeline.{receive_events, since_of}
use feature_flag_system.Explain.Timeline.Window.{timeline_window}
use feature_flag_system.Sdk.Hash.{rollout_bucket}
use feature_flag_system.Evaluate.{EvaluableFlag, evaluate}
use feature_flag_system.Explain.Why.{enabled_step, targeting_step, rollout_step, rolled, quoted}
use feature_flag_system.Explain.Why.Honest.{passes, skips, steps-verdict}
use feature_flag_system.Explain.Grid.{
  Cell, cells_of, sort_cells, insert_cell, sample, state_of, is_off, on_rollout, text_lt,
}
use feature_flag_system.Explain.Grid.Meter.{cells_fill}
use feature_flag_system.Explain.Console.{
  Happening, Frame, happen, on_open, on_error, push, toggle_paused, opens, errors, clicks_pause,
  update, deletion, happen_all, open_console,
}
use feature_flag_system.Explain.Tour.{Storage, link, load, read_open, offers, seen}

abbrev checkout : EvaluableFlag
checkout = record {
  key = codes "checkout";
  enabled = true;
  rollout_percentage = pos 50;
  targeted_users = [];
}

abbrev user : Text
user = codes "user-2"

steps-verdict_example :
    ((evaluate (some checkout) user).on ≡ (
      passes (enabled_step checkout)
      && (passes (targeting_step (evaluate (some checkout) user) checkout)
          || passes (rollout_step (evaluate (some checkout) user) checkout))))
    × (skips (targeting_step (evaluate (some checkout) user) checkout)
        ≡ not (passes (enabled_step checkout)))
    × (skips (rollout_step (evaluate (some checkout) user) checkout) ≡ (
        not (passes (enabled_step checkout))
        || passes (targeting_step (evaluate (some checkout) user) checkout)))
steps-verdict_example = steps-verdict checkout user

shown_roll :
    (rollout_step (evaluate (some checkout) user) checkout).detail
    ≡ rolled (some 17) true (pos 50) (codes "checkout:user-2")
unfolding rollout_step evaluate quoted split join rollout_bucket includes
shown_roll = refl

-- Two sample users and their cells.
abbrev two : List Text
two = codes "user-1" ∷ codes "user-2" ∷ []

abbrev first_cell : Cell
first_cell = record { user = codes "user-2"; bucket = 17 }

abbrev second_cell : Cell
second_cell = record { user = codes "user-1"; bucket = 60 }

two_cells : cells_of checkout.key two ≡ first_cell ∷ second_cell ∷ []
unfolding cells_of sort_cells insert_cell rollout_bucket text_lt
two_cells = refl

sample_size : length sample ≡ 100
unfolding sample
sample_size = refl

abbrev wide : EvaluableFlag
wide = record checkout { rollout_percentage = pos 70 }

at_zero : get_elem? (cells_of wide.key two) 0 ≡ some first_cell
at_zero = ap (λ cells. get_elem? cells 0) two_cells

at_one : get_elem? (cells_of wide.key two) 1 ≡ some second_cell
at_one = ap (λ cells. get_elem? cells 1) two_cells

second_on : state_of wide second_cell ≡ on_rollout
unfolding state_of evaluate rollout_bucket includes
second_on = refl

cells_fill_example : is_off (state_of wide first_cell) ≡ false
cells_fill_example =
    cells_fill wide two 0 1 first_cell second_cell (omega arith) at_zero at_one second_on

abbrev frame : Frame
frame = record {
  last_event_id = codes "2254";
  parsed = some (record {
    key = some (codes "checkout");
    enabled = true;
    rollout_percentage = some (pos 50);
  });
}

abbrev day : List Happening
day =
    opens
    ∷ update frame 5
    ∷ clicks_pause
    ∷ deletion frame 6
    ∷ clicks_pause
    ∷ deletion frame 7
    ∷ errors
    ∷ []

two_entries : length (happen_all day (open_console false)).entries ≡ 2
unfolding happen_all open_console happen on_open on_error push toggle_paused
two_entries = refl

abbrev fresh_storage : Storage
fresh_storage = record { available = true; seen_mark = false }

offered : offers (load fresh_storage) link ≡ true
unfolding offers load read_open seen
offered = refl

abbrev event : ℕ → FlagEvent
event v = record {
  version = v;
  event_type = updated;
  flag_key = codes "checkout";
  payload = stub [] [];
  created_at = [];
}

-- Of the versions 3, 50 and 90, a timeline at 90 shows the last.
abbrev events : List FlagEvent
events = event 3 ∷ event 50 ∷ event 90 ∷ []

last_shown : after (90 - 40) events ≡ event 90 ∷ []
unfolding after
last_shown = refl

latest_le : latest events ≤ 90
unfolding latest
latest_le = omega arith

timeline_window_example :
    (receive_events
      (list_events_since events (since_of 90 40) 0)
      (record { events = []; selected = none })).events
    ≡ after (90 - 40) events
timeline_window_example =
    timeline_window events 90 (record { events = []; selected = none })
      (omega arith, (omega arith, (omega arith, tt))) latest_le

abbrev never_stored : SwitchStorage
never_stored = record { available = true; stored = none }
