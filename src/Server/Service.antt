-- ===== src/Server/Service.antt =====
-- backend/internal/service/flag_service.go: the checks before a write, and what is published
-- after it. An envelope is what goes to the channel of Redis that feeds every node's streams.
use feature_flag_system.Prelude.{
  ℕ, suc, Text, codes, Bool, false, ◌||◌, not, List, [], ◌∷◌, Option, none, some, ℤ, pos, leb, ltb,
  ltb_ℤ, is_empty, is_none, if◌then◌else◌, ◌+◌, ◌&&◌,
}
use feature_flag_system.Types.{Flag, FlagConfig, CreateFlagInput}
use feature_flag_system.Flags.Form.{matches_key}
use feature_flag_system.Server.{Store, to_config, get_by_id, get_by_key}
use feature_flag_system.Server.Repository.{
  Written, done, no_row, version_conflict, database_error, not_found, UpdateRequest, create_row,
  update_row, toggle_row, remove_row,
}

pub data Envelope : Type 0 where
  flag_updated : ℕ → FlagConfig → Envelope
  flag_deleted : ℕ → Text → Envelope

pub data ServiceError : Type 0 where
  invalid : Text → ServiceError
  duplicate_key flag_not_found conflict internal : ServiceError

-- A value, nothing without an error, or an error.
pub data Reply (A : Type 0) : Type 0 where
  ok : A → Reply A
  nothing : Reply A
  failed : ServiceError → Reply A

pub record Served (A : Type 0) : Type 0 where
  pub reply : Reply A
  pub store : Store
  pub published : List Envelope

-- `len(s)`: the bytes of UTF-8. Each half of a surrogate pair counts for two.
unfoldable pub utf8_length : Text → ℕ
utf8_length [] = 0
utf8_length (c ∷ s) =
    let rest = utf8_length s in
    if ltb c 128
    then 1 + rest
    else if ltb c 2048
    then 2 + rest
    else if leb 55296 c && leb c 57343
    then 2 + rest
    else 3 + rest

abbrev pub bad_percentage : ℤ → Bool
bad_percentage p = ltb_ℤ p (pos 0) || ltb_ℤ (pos 100) p

-- The checks of `CreateFlag` that read the request alone.
unfoldable pub create_error : CreateFlagInput → Option Text
create_error req =
    if is_empty req.key || ltb 64 (utf8_length req.key)
    then some (codes "key is required and must be at most 64 characters")
    else if not (matches_key req.key)
    then some (codes "key must be alphanumeric with hyphens only")
    else if bad_percentage req.rollout_percentage
    then some (codes "rollout_percentage must be between 0 and 100")
    else none

abbrev pub refuse : ServiceError → Store → Served Flag
refuse e s = record { reply = failed e; store = s; published = [] }

-- What a write of a row is answered with; `publishFlagUpdate` after a row that was written.
abbrev pub answer_write : Written Flag × Store → Served Flag
answer_write (done f, s) = record {
  reply = ok f;
  store = s;
  published = flag_updated f.version (to_config f) ∷ [];
}
answer_write (no_row, s) = record { reply = nothing; store = s; published = [] }
answer_write (version_conflict, s) = refuse conflict s
answer_write (database_error, s) = refuse internal s
answer_write (not_found, s) = refuse flag_not_found s

abbrev pub create_checked : Option Text → CreateFlagInput → Text → Text → Store → Served Flag
create_checked (some e) req id now s = refuse (invalid e) s
create_checked none req id now s =
    if is_none (get_by_key req.key s.flags)
    then answer_write (create_row req id now s)
    else refuse duplicate_key s

-- `CreateFlag`
unfoldable pub create_flag : CreateFlagInput → Text → Text → Store → Served Flag
create_flag req id now s = create_checked (create_error req) req id now s

abbrev pub bad_change : Option ℤ → Bool
bad_change none = false
bad_change (some p) = bad_percentage p

-- `UpdateFlag`. A request without a change is answered with the row, and publishes it.
unfoldable pub update_flag : UpdateRequest → Text → Text → Store → Served Flag
update_flag req id now s =
    if bad_change req.rollout_percentage
    then refuse (invalid (codes "rollout_percentage must be between 0 and 100")) s
    else answer_write (update_row req id now s)

-- `ToggleFlag`
unfoldable pub toggle_flag : Text → Text → Store → Served Flag
toggle_flag id now s = answer_write (toggle_row id now s)

abbrev pub answer_delete : Text → Written ℕ × Store → Served Unit
answer_delete key (done v, s) = record {
  reply = ok tt;
  store = s;
  published = flag_deleted v key ∷ [];
}
answer_delete key (no_row, s) = record { reply = failed internal; store = s; published = [] }
answer_delete key (version_conflict, s) = record {
  reply = failed internal;
  store = s;
  published = [];
}
answer_delete key (database_error, s) = record {
  reply = failed internal;
  store = s;
  published = [];
}
answer_delete key (not_found, s) = record {
  reply = failed flag_not_found;
  store = s;
  published = [];
}

abbrev pub delete_looked_up : Option Flag → Text → Text → Store → Served Unit
delete_looked_up none id now s = record { reply = failed flag_not_found; store = s; published = [] }
delete_looked_up (some f) id now s = answer_delete f.key (remove_row id now s)

-- `DeleteFlag`
unfoldable pub delete_flag : Text → Text → Store → Served Unit
delete_flag id now s = delete_looked_up (get_by_id id s.flags) id now s

-- A write that a caller asks for; the database gives ids and times. `interrupted` is a
-- transaction that fails after it drew its number.
pub data Write : Type 0 where
  create : CreateFlagInput → Text → Text → Write
  update : UpdateRequest → Text → Text → Write
  toggle delete : Text → Text → Write
  interrupted : Write

unfoldable pub run_write : Write → Store → Store
run_write (create req id now) s = (create_flag req id now s).store
run_write (update req id now) s = (update_flag req id now s).store
run_write (toggle id now) s = (toggle_flag id now s).store
run_write (delete id now) s = (delete_flag id now s).store
run_write interrupted s = record s { sequence = suc s.sequence }

unfoldable pub published_by : Write → Store → List Envelope
published_by (create req id now) s = (create_flag req id now s).published
published_by (update req id now) s = (update_flag req id now s).published
published_by (toggle id now) s = (toggle_flag id now s).published
published_by (delete id now) s = (delete_flag id now s).published
published_by interrupted s = []

unfoldable pub run_writes : List Write → Store → Store
unfolding run_write
run_writes [] s = s
run_writes (w ∷ ws) s = run_writes ws (run_write w s)
