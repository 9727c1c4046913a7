-- ===== src/Server/Repository.antt =====
-- backend/internal/repository/flag_repository.go: the writes, each in a transaction of its own.
-- One transaction runs at a time. A transaction that is not committed leaves the tables as they
-- were, but a number that it drew from the sequence stays drawn.
use feature_flag_system.Prelude.{
  ℕ, suc, Text, Bool, true, false, ◌&&◌, not, List, [], ◌∷◌, ◌++◌, Option, none, some, ℤ, pos,
  negsuc, ◌==◌, if◌then◌else◌, or_else, is_none,
}
use feature_flag_system.Types.{
  Flag, FlagEvent, EventType, created, updated, deleted, Payload, full, stub, CreateFlagInput,
}
use feature_flag_system.Server.{
  Store, to_config, get_by_id, get_by_key, put_row, delete_row, is_storable,
}

-- How a write ends: with a value, with no row, with `ErrVersionConflict`, with an error of the
-- database, and for `Delete` with "flag not found".
pub data Written (A : Type 0) : Type 0 where
  done : A → Written A
  no_row version_conflict database_error not_found : Written A

pub record UpdateRequest : Type 0 where
  pub description : Option Text
  pub enabled : Option Bool
  pub rollout_percentage : Option ℤ
  pub targeted_users : Option (List Text)
  pub expected_version : Option ℤ

-- `nextVersion`, outside the reach of a rollback.
abbrev pub draw : Store → Store
draw s = record s { sequence = suc s.sequence }

abbrev pub event_at : EventType → Text → Payload → Text → ℕ → FlagEvent
event_at t key payload now version = record {
  version = version;
  event_type = t;
  flag_key = key;
  payload = payload;
  created_at = now;
}

-- `appendEvent` and the commit: `rows` are the flags as the transaction leaves them.
unfoldable pub commit_event : EventType → Text → Payload → Text → List Flag → Store → Store
commit_event t key payload now rows s = record {
  flags = rows;
  events = s.events ++ event_at t key payload now (suc s.sequence) ∷ [];
  sequence = suc s.sequence;
}

abbrev pub new_row : CreateFlagInput → Text → Text → ℕ → Flag
new_row req id now version = record {
  id = id;
  key = req.key;
  description = req.description;
  enabled = req.enabled;
  rollout_percentage = req.rollout_percentage;
  targeted_users = req.targeted_users;
  version = version;
  created_at = now;
  updated_at = now;
}

-- The columns' conditions, and `UNIQUE` and `PRIMARY KEY`.
abbrev pub can_insert : Flag → List Flag → Bool
can_insert row rows =
    is_storable row && is_none (get_by_key row.key rows) && is_none (get_by_id row.id rows)

-- The row and its event, where the table takes it.
unfoldable pub insert_row : Flag → Text → Store → Written Flag × Store
unfolding commit_event
insert_row row now s =
    if can_insert row s.flags
    then (done row, commit_event created row.key (full (to_config row)) now (s.flags ++ row ∷ []) s)
    else (database_error, draw s)

-- `Create`; the database gives the id and the time.
unfoldable pub create_row : CreateFlagInput → Text → Text → Store → Written Flag × Store
unfolding insert_row
create_row req id now s = insert_row (new_row req id now (suc s.sequence)) now s

abbrev pub has_no_change : UpdateRequest → Bool
has_no_change req =
    is_none req.description
    && is_none req.enabled
    && is_none req.rollout_percentage
    && is_none req.targeted_users

-- `SET ...`, and the trigger on `updated_at`.
abbrev pub updated_row : UpdateRequest → Text → ℕ → Flag → Flag
updated_row req now version f = record f {
  description = or_else req.description f.description;
  enabled = or_else req.enabled f.enabled;
  rollout_percentage = or_else req.rollout_percentage f.rollout_percentage;
  targeted_users = or_else req.targeted_users f.targeted_users;
  version = version;
  updated_at = now;
}

-- `version = $n`
abbrev pub is_version : ℤ → ℕ → Bool
is_version (pos n) v = n == v
is_version (negsuc n) v = false

abbrev pub is_expected : Option ℤ → ℕ → Bool
is_expected none v = true
is_expected (some e) v = is_version e v

-- The row that is written and the event of the writing, where the columns take it.
unfoldable pub write_row : Flag → Text → Store → Written Flag × Store
unfolding commit_event
write_row row now s =
    if is_storable row
    then (done row, commit_event updated row.key (full (to_config row)) now (put_row row s.flags) s)
    else (database_error, draw s)

-- A request for the row with the id `id`, once it has been looked up.
unfoldable pub update_found : UpdateRequest → Text → Option Flag → Store → Written Flag × Store
unfolding write_row
update_found req now none s = (no_row, draw s)
update_found req now (some f) s =
    if is_expected req.expected_version f.version
    then write_row (updated_row req now (suc s.sequence) f) now s
    else (version_conflict, draw s)

abbrev pub as_written : Option Flag → Written Flag
as_written none = no_row
as_written (some f) = done f

-- `Update`
unfoldable pub update_row : UpdateRequest → Text → Text → Store → Written Flag × Store
unfolding update_found
update_row req id now s =
    if has_no_change req
    then (as_written (get_by_id id s.flags), s)
    else update_found req now (get_by_id id s.flags) s

abbrev pub toggled_row : Text → ℕ → Flag → Flag
toggled_row now version f = record f {
  enabled = not f.enabled;
  version = version;
  updated_at = now;
}

unfoldable pub toggle_found : Text → Option Flag → Store → Written Flag × Store
unfolding write_row
toggle_found now none s = (no_row, draw s)
toggle_found now (some f) s = write_row (toggled_row now (suc s.sequence) f) now s

-- `Toggle`
unfoldable pub toggle_row : Text → Text → Store → Written Flag × Store
unfolding toggle_found
toggle_row id now s = toggle_found now (get_by_id id s.flags) s

unfoldable pub delete_found : Text → Text → Option Flag → Store → Written ℕ × Store
unfolding commit_event
delete_found id now none s = (not_found, s)
delete_found id now (some f) s = (
  done (suc s.sequence),
  commit_event deleted f.key (stub id f.key) now (delete_row id s.flags) s,
)

-- `Delete`
unfoldable pub remove_row : Text → Text → Store → Written ℕ × Store
unfolding delete_found
remove_row id now s = delete_found id now (get_by_id id s.flags) s
