-- ===== src/Server/Overlap.antt =====
-- The writes of backend/internal/repository/flag_repository.go when transactions overlap. A
-- transaction draws its version first and takes the lock of its row with its statement, which it
-- holds until it commits: under READ COMMITTED the statement sees what was committed before it, so
-- that the statement, the event and the commit are one step, and other transactions may draw or
-- commit between the draw and this step.
pub mod Alone
pub mod Toggles
pub mod Appended
pub mod Unique
mod Tests
use feature_flag_system.Prelude.{
  ℕ, suc, Text, Bool, true, false, List, [], ◌∷◌, ◌++◌, Option, none, some, ◌==◌, ltb,
  if◌then◌else◌,
}
use feature_flag_system.Types.{
  Flag, FlagEvent, EventType, created, updated, deleted, Payload, full, stub, CreateFlagInput,
}
use feature_flag_system.Server.{Store, to_config, get_by_id, put_row, delete_row, is_storable}
use feature_flag_system.Server.Repository.{
  Written, done, no_row, version_conflict, database_error, UpdateRequest, draw, event_at, new_row,
  can_insert, updated_row, toggled_row, is_expected,
}

-- `appendEvent` and the commit, at a version that was drawn before.
abbrev pub commit_at : EventType → Text → Payload → Text → List Flag → ℕ → Store → Store
commit_at t key payload now rows version s = record s {
  flags = rows;
  events = s.events ++ event_at t key payload now version ∷ [];
}

unfoldable pub create_at : CreateFlagInput → Text → Text → ℕ → Store → Written Flag × Store
create_at req id now version s =
    let row = new_row req id now version in
    if can_insert row s.flags
    then (
      done row,
      commit_at created row.key (full (to_config row)) now (s.flags ++ row ∷ []) version s,
    )
    else (database_error, s)

unfoldable pub write_at : Flag → Text → ℕ → Store → Written Flag × Store
write_at row now version s =
    if is_storable row
    then (
      done row,
      commit_at updated row.key (full (to_config row)) now (put_row row s.flags) version s,
    )
    else (database_error, s)

unfoldable pub update_found_at :
    UpdateRequest → Text → ℕ → Option Flag → Store → Written Flag × Store
unfolding write_at
update_found_at req now version none s = (no_row, s)
update_found_at req now version (some f) s =
    if is_expected req.expected_version f.version
    then write_at (updated_row req now version f) now version s
    else (version_conflict, s)

unfoldable pub toggle_found_at : Text → ℕ → Option Flag → Store → Written Flag × Store
unfolding write_at
toggle_found_at now version none s = (no_row, s)
toggle_found_at now version (some f) s = write_at (toggled_row now version f) now version s

-- The key was read before the version was drawn. The event is written whether or not the row is
-- still there.
unfoldable pub remove_at : Text → Text → Text → ℕ → Store → Written ℕ × Store
remove_at id key now version s =
    (done version, commit_at deleted key (stub id key) now (delete_row id s.flags) version s)

-- A transaction that has drawn its version; an update that changes nothing has no transaction.
pub data Pending : Type 0 where
  creating : CreateFlagInput → (id : Text) → Pending
  updating : UpdateRequest → (id : Text) → Pending
  toggling : (id : Text) → Pending
  deleting : (id key : Text) → Pending

unfoldable pub perform : Pending → Text → ℕ → Store → Store
unfolding create_at update_found_at toggle_found_at remove_at
perform (creating req id) now version s = (create_at req id now version s).1
perform (updating req id) now version s =
    (update_found_at req now version (get_by_id id s.flags) s).1
perform (toggling id) now version s = (toggle_found_at now version (get_by_id id s.flags) s).1
perform (deleting id key) now version s = (remove_at id key now version s).1

pub record Overlap : Type 0 where
  pub store : Store
  pub pending : List (ℕ × Pending)

-- `tx.Begin` and `nextVersion`
unfoldable pub begin_tx : Pending → Overlap → Overlap
begin_tx p o = record { store = draw o.store; pending = (suc o.store.sequence, p) ∷ o.pending }

unfoldable pub pending_at : ℕ → List (ℕ × Pending) → Option Pending
pending_at version [] = none
pending_at version ((v, p) ∷ rest) = if v == version then some p else pending_at version rest

unfoldable pub without : ℕ → List (ℕ × Pending) → List (ℕ × Pending)
without version [] = []
without version ((v, p) ∷ rest) =
    let others = without version rest in if v == version then others else (v, p) ∷ others

-- The statement, `appendEvent` and `tx.Commit`, or `tx.Rollback` where the statement fails.
unfoldable pub end_found : ℕ → Text → Option Pending → Overlap → Overlap
unfolding perform without
end_found version now none o = o
end_found version now (some p) o = record {
  store = perform p now version o.store;
  pending = without version o.pending;
}

unfoldable pub end_tx : ℕ → Text → Overlap → Overlap
unfolding end_found pending_at
end_tx version now o = end_found version now (pending_at version o.pending) o

-- What transactions do, in any interleaving; one that ends without a commit leaves its version drawn.
pub data TxStep : Type 0 where
  begins : Pending → TxStep
  ends : (version : ℕ) (now : Text) → TxStep
  rolls_back : (version : ℕ) → TxStep

unfoldable pub tx_step : TxStep → Overlap → Overlap
unfolding begin_tx end_tx
tx_step (begins p) o = begin_tx p o
tx_step (ends version now) o = end_tx version now o
tx_step (rolls_back version) o = record o { pending = without version o.pending }

unfoldable pub tx_steps : List TxStep → Overlap → Overlap
unfolding tx_step
tx_steps [] o = o
tx_steps (t ∷ steps) o = tx_steps steps (tx_step t o)

-- `ORDER BY version ASC`, which readers of the log ask for: the rows stand in the order of their
-- commits.
unfoldable pub insert_by_version : FlagEvent → List FlagEvent → List FlagEvent
insert_by_version e [] = e ∷ []
insert_by_version e (d ∷ events) =
    let rest = insert_by_version e events in
    if ltb d.version e.version then d ∷ rest else e ∷ d ∷ events

unfoldable pub by_version : List FlagEvent → List FlagEvent
unfolding insert_by_version
by_version [] = []
by_version (e ∷ events) = insert_by_version e (by_version events)
