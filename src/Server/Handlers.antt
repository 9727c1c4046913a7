-- ===== src/Server/Handlers.antt =====
-- backend/internal/handler/admin_handler.go and middleware/auth.go: how the service's replies
-- become responses. The JSON encoder and decoder, and the words of an error of the database, are
-- parameters; the router hands over the id of the path.
pub mod Saving
mod Tests
use feature_flag_system.Prelude.{
  ℕ, Text, codes, Bool, true, false, ◌&&◌, ◌||◌, List, [], ◌∷◌, Option, none, some, ℤ, ◌==◌,
  if◌then◌else◌, is_empty, text_eq, parse_int64, map, or_else,
}
use feature_flag_system.Types.{Flag, FlagEvent, CreateFlagInput, UpdateFlagInput}
use feature_flag_system.Admin.{Response, Request}
use feature_flag_system.Sdk.Log.{latest}
use feature_flag_system.Server.{Store, get_by_id}
use feature_flag_system.Server.Service.{
  Reply, ok, nothing, failed, ServiceError, invalid, duplicate_key, flag_not_found, conflict,
  internal, Served, create_flag, update_flag, toggle_flag, delete_flag,
}
use feature_flag_system.Server.Listing.{list_rows}
use feature_flag_system.Server.Forms.{update_request}

-- `strings.Contains`
abbrev starts : Text → Text → Bool
starts [] s = true
starts (p ∷ ps) [] = false
starts (p ∷ ps) (c ∷ s) = p == c && starts ps s

unfoldable pub contains : Text → Text → Bool
contains [] p = is_empty p
contains (c ∷ s) p = starts p (c ∷ s) || contains s p

-- `strings.Trim(header, "\"")`
unfoldable pub drop_quotes : Text → Text
drop_quotes [] = []
drop_quotes (c ∷ s) = let rest = drop_quotes s in if c == b'"' then rest else c ∷ s

unfoldable pub drop_last_quotes : Text → Text
drop_last_quotes [] = []
drop_last_quotes (c ∷ s) =
    let rest = drop_last_quotes s in if c == b'"' && is_empty rest then [] else c ∷ rest

-- The version that `If-Match` asks for; a header that is no number asks for none.
unfoldable pub expected_version : Option Text → Option ℤ
unfolding drop_quotes drop_last_quotes
expected_version header =
    let t = drop_last_quotes (drop_quotes (or_else header [])) in
    if is_empty t then none else parse_int64 t

-- `err.Error()`
abbrev pub error_words : Text → ServiceError → Text
error_words db (invalid m) = m
error_words db duplicate_key = codes "duplicate_key"
error_words db flag_not_found = codes "flag not found"
error_words db conflict = codes "version conflict"
error_words db internal = db

-- `errors.Is(err, service.ErrVersionConflict)`
abbrev pub is_conflict : ServiceError → Bool
is_conflict conflict = true
is_conflict (invalid m) = false
is_conflict duplicate_key = false
is_conflict flag_not_found = false
is_conflict internal = false

-- `writeJSON`
abbrev pub write_json : ℕ → Text → Response
write_json status body = record {
  status = status;
  content_type = some (codes "application/json");
  body = body;
}

-- A handler that panics breaks the connection, which is `none`.
module _ (flag_json : Flag → Text) (error_json : (error message : Text) → Text) (db : Text) where
  -- `writeError`
  abbrev write_error : ℕ → Text → Text → Response
  write_error status error message = write_json status (error_json error message)

  abbrev internal_error : Text → Response
  internal_error message = write_error 500 (codes "internal_error") message

  abbrev flag_missing : Response
  flag_missing = write_error 404 (codes "not_found") (codes "Flag not found")

  abbrev bad_body : Response
  bad_body = write_error 400 (codes "invalid_request") (codes "Invalid request body")

  unfoldable pub created_response : Reply Flag → Option Response
  unfolding contains
  created_response (ok f) = some (write_json 201 (flag_json f))
  created_response nothing = none
  created_response (failed e) =
      let m = error_words db e in
      some (
        if contains m (codes "duplicate_key")
        then write_error 409 (codes "duplicate_key") (codes "A flag with this key already exists")
        else if contains m (codes "must be") || contains m (codes "required")
        then write_error 400 (codes "validation_error") m
        else internal_error (codes "Failed to create flag"))

  unfoldable pub updated_response : Reply Flag → Option Response
  updated_response (ok f) = some (write_json 200 (flag_json f))
  updated_response nothing = some flag_missing
  updated_response (failed e) =
      let m = error_words db e in
      some (
        if is_conflict e
        then write_error 409 (codes "version_conflict")
            (codes "This flag was changed by someone else. Reload and try again.")
        else if contains m (codes "must be")
        then write_error 400 (codes "validation_error") m
        else internal_error (codes "Failed to update flag"))

  unfoldable pub toggled_response : Reply Flag → Option Response
  toggled_response (ok f) = some (write_json 200 (flag_json f))
  toggled_response nothing = some flag_missing
  toggled_response (failed e) = some (internal_error (codes "Failed to toggle flag"))

  unfoldable pub deleted_response : Reply Unit → Option Response
  unfolding contains
  deleted_response (ok u) = some (record { status = 204; content_type = none; body = [] })
  deleted_response nothing = some (record { status = 204; content_type = none; body = [] })
  deleted_response (failed e) = some (
      if contains (error_words db e) (codes "not found")
      then flag_missing
      else internal_error (codes "Failed to delete flag"))

  -- The handlers, each with the store that it leaves. A body that is no JSON is `none`.
  unfoldable pub handle_create :
      Option CreateFlagInput → (id now : Text) → Store → Option Response × Store
  unfolding created_response
  handle_create none id now s = (some bad_body, s)
  handle_create (some req) id now s =
      let r = create_flag req id now s in (created_response r.reply, r.store)

  unfoldable pub handle_update :
      Option UpdateFlagInput
      → (if_match : Option Text) → (id now : Text) → Store
      → Option Response × Store
  unfolding updated_response
  handle_update none if_match id now s = (some bad_body, s)
  handle_update (some input) if_match id now s =
      let r = update_flag (update_request input (expected_version if_match)) id now s in
      (updated_response r.reply, r.store)

  unfoldable pub handle_toggle : (id now : Text) → Store → Option Response × Store
  unfolding toggled_response
  handle_toggle id now s = let r = toggle_flag id now s in (toggled_response r.reply, r.store)

  unfoldable pub handle_delete : (id now : Text) → Store → Option Response × Store
  unfolding deleted_response
  handle_delete id now s = let r = delete_flag id now s in (deleted_response r.reply, r.store)

  -- `GetFlag`; `is_up` says whether the query succeeds.
  unfoldable pub handle_get : (is_up : Bool) → Text → Store → Response
  handle_get false id s = internal_error (codes "Failed to get flag")
  handle_get true id s = elim (get_by_id id s.flags) [
    | none ↦ flag_missing
    | some f ↦ write_json 200 (flag_json f)
  ]

module _ (error_json : (error message : Text) → Text) (list_json : List Flag → ℕ → Text) where
  abbrev list_failed : Response
  list_failed = write_json 500 (error_json (codes "internal_error") (codes "Failed to list flags"))

  -- `ListFlags`, with a query for the flags and one for the version, each at its own store.
  unfoldable pub handle_list : (Flag → Flag → Bool) → Option Store → Option Store → Response
  handle_list precedes none t = list_failed
  handle_list precedes (some s) none = list_failed
  handle_list precedes (some s) (some t) =
      write_json 200 (list_json (list_rows precedes s.flags) (latest t.events))

-- `AdminAuth` and `SDKAuth`: whether the request goes on to its handler, else it is answered 401.
unfoldable pub admin_allowed : (api_key : Text) → (header : Option Text) → Bool
admin_allowed api_key header = text_eq (or_else header []) api_key

unfoldable pub sdk_allowed : (sdk_key : Text) → (header query : Option Text) → Bool
sdk_allowed sdk_key header query =
    let key = or_else header [] in text_eq (if is_empty key then or_else query [] else key) sdk_key
