-- ===== src/Server/Tests.antt =====
-- A short history of the server, and the theorems at it.
use feature_flag_system.Prelude.{
  arith, ℕ, ◌<◌, ◌⊎◌, ◌≡◌, ◌≢◌, refl, ◌∷◌, [], pos, Text, codes, Bool, true, false, not, List, none,
  some, get, ltb, text_eq, if◌then◌else◌, is_none,
}
use feature_flag_system.Types.{Flag, FlagConfig, CreateFlagInput}
use feature_flag_system.Sdk.Client.{Client, new_client}
use feature_flag_system.Sdk.Init.{init, init_rest}
use feature_flag_system.Sdk.Log.{no_flags, state_at, latest, after}
use feature_flag_system.Flags.Form.{
  FlagForm, open_form, to_create, create_input, handle_submit, validate, key_error, rollout_error,
  edit_field, key_to,
}
use feature_flag_system.Server.{Store, empty_store, to_config, get_by_key, get_by_id, is_storable}
use feature_flag_system.Server.Repository.{
  UpdateRequest, create_row, update_row, toggle_row, write_row, toggle_found, update_found,
}
use feature_flag_system.Server.Service.{
  Write, create, toggle, interrupted, run_writes, run_write, update_flag, toggle_flag, ok, failed,
  conflict, nothing, invalid, create_flag, create_error, utf8_length, published_by,
}
use feature_flag_system.Server.Rows.{config_at}
use feature_flag_system.Server.Sound.{IsSound}
use feature_flag_system.Server.Sound.Writes.{run_writes-IsSound}
use feature_flag_system.Server.Serving.{World, begin, and_then, write, world_at, serves_truth}
use feature_flag_system.Server.Races.{second_editor_refused}
use feature_flag_system.Server.Torn.{torn_snapshot}
use feature_flag_system.Server.Queries.{Heads, get_flag_history, history-Heads}
use feature_flag_system.Server.Rollout.{go_is_enabled, go_sdk_agrees}
use feature_flag_system.Sdk.Client.{is_enabled}
use feature_flag_system.Server.Listing.{get_all_flags}
use feature_flag_system.Server.Forms.{form_never_invalid, deliver}
use feature_flag_system.Server.Announced.{IsAnnounced, write-IsAnnounced}

abbrev beta : Text
beta = codes "beta"

abbrev pub request : CreateFlagInput
request = record {
  key = beta;
  description = [];
  enabled = false;
  rollout_percentage = pos 50;
  targeted_users = [];
}

abbrev pub id1 : Text
id1 = codes "1"

abbrev pub noon : Text
noon = codes "12:00"

abbrev pub history : List Write
history = create request id1 noon ∷ interrupted ∷ []

abbrev newest_first : Flag → Flag → Bool
newest_first a b = ltb b.version a.version

abbrev to_percentage : ℕ → UpdateRequest
to_percentage p = record {
  description = none;
  enabled = none;
  rollout_percentage = some (pos p);
  targeted_users = none;
  expected_version = some (pos 1);
}

abbrev fresh : Client
fresh = init (new_client none)

abbrev stored : Store
stored = run_writes history empty_store

-- The row after one creation and one interrupted transaction, and the number drawn for nothing.
stored-created :
    (config_at beta stored.flags
      ≡ some (record {
        id = id1;
        key = beta;
        description = [];
        enabled = false;
        rollout_percentage = pos 50;
        targeted_users = [];
        version = 1;
      }))
    × (stored.sequence ≡ 2)
    × (latest stored.events ≡ 1)
unfolding run_writes run_write create_flag get_by_key create_error utf8_length create_row
    is_storable get_by_id text_eq to_config latest
stored-created = (refl, refl, refl)

run_writes-IsSound_example : IsSound stored
run_writes-IsSound_example = run_writes-IsSound history

-- A client that starts then, and a toggle after it.
abbrev world0 : World
world0 = world_at newest_first fresh stored

abbrev world1 : World
world1 = record world0 { store = run_write (toggle id1 noon) stored }

serves_truth_example :
    (get beta world1.client.flags
      ≡ state_at world1.client.config_version world1.store.events no_flags beta)
    × (((world1.client.config_version ≡ latest world1.store.events)
          × (get beta world1.client.flags ≡ config_at beta world1.store.flags))
        ⊎ (world1.client.config_version < latest world1.store.events))
serves_truth_example =
    serves_truth newest_first fresh history (and_then begin (write (toggle id1 noon))) beta

write-IsAnnounced_example :
    IsAnnounced false stored
      (run_write (toggle id1 noon) stored)
      (published_by (toggle id1 noon) stored)
write-IsAnnounced_example = write-IsAnnounced stored (toggle id1 noon)

abbrev row_with : Bool → ℕ → Flag
row_with enabled percentage = record {
  id = id1;
  key = beta;
  description = [];
  enabled = enabled;
  rollout_percentage = pos percentage;
  targeted_users = [];
  version = 3;
  created_at = noon;
  updated_at = noon;
}

first_saved : (update_flag (to_percentage 60) id1 noon stored).reply ≡ ok (row_with false 60)
unfolding run_writes run_write create_flag get_by_key create_error utf8_length create_row
    is_storable get_by_id text_eq to_config latest update_flag update_row update_found write_row
first_saved = refl

-- Between the two, somebody toggles the flag.
second_editor_refused_example :
    let u =
      run_writes (toggle id1 noon ∷ []) (update_flag (to_percentage 60) id1 noon stored).store in
    let r = update_flag (to_percentage 70) id1 noon u in
    (r.reply ≡ (if is_none (get_by_id id1 u.flags) then nothing else failed conflict))
    × (r.store.flags ≡ u.flags)
    × (r.store.events ≡ u.events)
    × (r.published ≡ [])
second_editor_refused_example =
    second_editor_refused history (toggle id1 noon ∷ []) (to_percentage 60) (to_percentage 70) id1
      noon noon (pos 1) (row_with false 60) refl refl refl refl refl first_saved

toggled : (toggle_flag id1 noon stored).reply ≡ ok (row_with true 50)
unfolding run_writes run_write create_flag get_by_key create_error utf8_length create_row
    is_storable get_by_id text_eq to_config latest toggle_flag toggle_row toggle_found write_row
toggled = refl

torn_snapshot_example :
    let t = (toggle_flag id1 noon stored).store in
    let d = (init_rest (get_all_flags newest_first (some stored) (some t)) fresh).0 in
    ((f : FlagConfig) × (get beta d.flags ≡ some f) × (f.enabled ≡ not true))
    × (state_at d.config_version t.events no_flags beta ≡ some (to_config (row_with true 50)))
    × (after d.config_version t.events ≡ [])
torn_snapshot_example = torn_snapshot newest_first fresh history id1 noon (row_with true 50) toggled

abbrev filled : FlagForm
filled = edit_field (key_to beta) (open_form none)

filled-submits : (handle_submit filled).1 ≡ some (to_create (create_input filled))
unfolding handle_submit validate key_error rollout_error open_form edit_field
filled-submits = refl

form_never_invalid_example :
    (deliver (to_create (create_input filled)) none id1 noon stored).reply
    ≢ failed (invalid (codes "key must be alphanumeric with hyphens only"))
form_never_invalid_example =
    form_never_invalid filled (to_create (create_input filled)) none id1 noon stored
      (codes "key must be alphanumeric with hyphens only") filled-submits

abbrev beta_row : Flag
beta_row = record {
  id = id1;
  key = beta;
  description = [];
  enabled = false;
  rollout_percentage = pos 50;
  targeted_users = [];
  version = 1;
  created_at = noon;
  updated_at = noon;
}

beta_found : get_by_id id1 stored.flags ≡ some beta_row
unfolding run_writes run_write create_flag get_by_key create_error utf8_length create_row
    is_storable get_by_id text_eq to_config latest
beta_found = refl

history-Heads_example : Heads (to_config beta_row) (get_flag_history id1 50 stored)
history-Heads_example = history-Heads history id1 50 beta_row beta_found

go_sdk_agrees_example :
    go_is_enabled world0.client.flags beta (codes "ann")
    ≡ is_enabled world0.client beta (codes "ann")
go_sdk_agrees_example = go_sdk_agrees world0.client beta (codes "ann") (omega arith) (omega arith)
