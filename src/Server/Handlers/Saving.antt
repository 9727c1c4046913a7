-- ===== src/Server/Handlers/Saving.antt =====
-- A save of the flag editor on its whole way: frontend/lib/api.ts, the proxy of
-- frontend/lib/admin-proxy.ts, the handler of backend/internal/handler/admin_handler.go and back.
use feature_flag_system.Prelude.{
  ℕ, ◌<◌, ◌^◌, Text, codes, Bool, true, false, [], ◌∷◌, ◌++◌, Option, some, pos, subst, ◌==◌, ◌≡◌,
  leb, ◌&&◌, refl, sym, ap, ◌∙◌, arith, every, is_digit, decimal-digits, parse_int64,
  parse_int64-decimal, if◌then◌else◌, is_empty, text_eq_refl,
}
use feature_flag_system.Types.{Flag, UpdateFlagInput}
use feature_flag_system.Admin.{
  put, Net, Response, Request, Outcome, thrown, nothing, parsed, ErrorBody, message, request, etag,
  flag_route, backend_path, forwarded, as_json, outcome_of,
}
use feature_flag_system.Admin
use feature_flag_system.Admin.Passage.{proxied, proxied_transparent, update_forwarded}
use feature_flag_system.Server.{Store}
use feature_flag_system.Server.Service
use feature_flag_system.Server.Service.{
  Reply, ok, failed, refuse, answer_write, bad_change, ServiceError, invalid, duplicate_key,
  flag_not_found, conflict, internal,
}
use feature_flag_system.Server.Repository.{UpdateRequest, update_row}
use feature_flag_system.Server.Forms.{update_request, answer_write-valid}
use feature_flag_system.Server.Handlers.{
  contains, drop_last_quotes, expected_version, updated_response, handle_update, admin_allowed,
  write_json,
}

-- The quotes come off a text of digits.
drop_last_quotes-digits :
    (t : Text) → every is_digit t ≡ true → drop_last_quotes (t ++ b'"' ∷ []) ≡ t
unfolding drop_last_quotes
drop_last_quotes-digits [] h = refl
drop_last_quotes-digits (c ∷ s) h = ground (arith, drop_last_quotes-digits s)

-- The version that `api.ts` puts into `If-Match` is the one that the handler reads there.
expected_version-etag : (v : ℕ) → v < 2 ^ 63 → expected_version (some (etag v)) ≡ some (pos v)
unfolding expected_version
expected_version-etag v h =
    let (c, s, e, digits) = decimal-digits v in
    let bare = drop_last_quotes-digits (c ∷ s) digits in
    let read : parse_int64 (c ∷ s) ≡ some (pos v) =
      ap parse_int64 (sym e) ∙ parse_int64-decimal v h in
    let head : (c == b'"') ≡ false = ground arith in rw (e, expected_version, head, bare) read

abbrev range_words : Text
range_words = codes "rollout_percentage must be between 0 and 100"

range_words-ours : (contains range_words (codes "must be") ≡ true) × (is_empty range_words ≡ false)
unfolding contains
range_words-ours = (refl, refl)

-- An update is found invalid in one way only.
update_flag-invalid :
    (req : UpdateRequest) (id now m : Text) (s : Store)
    → (Service.update_flag req id now s).reply ≡ failed (invalid m)
    → range_words ≡ m
unfolding Service.update_flag
update_flag-invalid req id now m s = go (bad_change req.rollout_percentage)
  where
    go :
        (b : Bool)
        → (if b
            then refuse (invalid range_words) s
            else answer_write (update_row req id now s)).reply
          ≡ failed (invalid m)
        → range_words ≡ m
    go true h = cc h
    go false h = absurd (answer_write-valid (update_row req id now s) m h)

module _ (flag_json : Flag → Text) where
  -- What the editor is told of a reply.
  abbrev pub told : Reply Flag → Outcome
  told (ok f) = parsed (flag_json f)
  told Service.nothing = thrown (codes "Flag not found")
  told (failed conflict) =
      thrown (codes "This flag was changed by someone else. Reload and try again.")
  told (failed (invalid m)) = thrown m
  told (failed duplicate_key) = thrown (codes "Failed to update flag")
  told (failed flag_not_found) = thrown (codes "Failed to update flag")
  told (failed internal) = thrown (codes "Failed to update flag")

module _ (flag_json : Flag → Text) (error_json : (error message : Text) → Text) (db : Text)
    (decode : Text → Option UpdateFlagInput) where
  -- `PUT /api/admin/flags/{id}` behind `AdminAuth`, at a store.
  unfoldable pub update_backend : (api_key id now : Text) → Store → Net
  update_backend api_key id now s r =
      if admin_allowed api_key r.headers.admin_key
      then (handle_update flag_json error_json db (decode r.body) r.headers.if_match id now s).0
      else some (record {
        status = 401;
        content_type = some (codes "application/json");
        body = error_json (codes "unauthorized") (codes "Invalid or missing admin API key");
      })

module _ (flag_json : Flag → Text) (error_json : (error message : Text) → Text) (db : Text)
    (decode : Text → Option UpdateFlagInput) (encode : UpdateFlagInput → Text)
    (read_error : Text → ErrorBody) (status_text : ℕ → Text)
    (decoded : (u : UpdateFlagInput) → decode (encode u) ≡ some u)
    (written : (u : UpdateFlagInput) → is_empty (encode u) ≡ false)
    (error_read : (t m : Text) → read_error (error_json t m) ≡ message (some m))
    (not_ours : contains db (codes "must be") ≡ false) where
  error-told :
      (status : ℕ) (t m : Text)
      → (leb 200 status && leb status 299) ≡ false
      → is_empty m ≡ false
      → outcome_of read_error status_text (write_json status (error_json t m)) ≡ thrown m
  unfolding outcome_of
  error-told status t m h k = rw (h, error_read t m, k) refl

  -- A reply, as a response, is heard by `request` as `told`.
  reply-told :
      (r : Reply Flag)
      → ((m : Text)
          → r ≡ failed (invalid m)
          → (contains m (codes "must be") ≡ true) × (is_empty m ≡ false))
      → (res : Response) × (updated_response flag_json error_json db r ≡ some res)
        × (outcome_of read_error status_text res ≡ told flag_json r)
  unfolding updated_response outcome_of contains
  reply-told (ok f) h = (_, refl, refl)
  reply-told Service.nothing h =
      (_, refl, error-told 404 (codes "not_found") (codes "Flag not found") refl refl)
  reply-told (failed conflict) h = (
    _,
    refl,
    error-told 409 (codes "version_conflict")
        (codes "This flag was changed by someone else. Reload and try again.") refl refl,
  )
  reply-told (failed (invalid m)) h =
      let (ours, full) = h m refl in
      (
        write_json 400 (error_json (codes "validation_error") m),
        rw ours refl,
        error-told 400 (codes "validation_error") m refl full,
      )
  reply-told (failed duplicate_key) h =
      (_, refl, error-told 500 (codes "internal_error") (codes "Failed to update flag") refl refl)
  reply-told (failed flag_not_found) h =
      (_, refl, error-told 500 (codes "internal_error") (codes "Failed to update flag") refl refl)
  reply-told (failed internal) h = (
    write_json 500 (error_json (codes "internal_error") (codes "Failed to update flag")),
    rw not_ours refl,
    error-told 500 (codes "internal_error") (codes "Failed to update flag") refl refl,
  )

  -- The handler takes the change and the version from the request that the proxy sends.
  handled :
      (key path id now : Text) (input : UpdateFlagInput) (v : ℕ) (s : Store)
      → v < 2 ^ 63
      → update_backend flag_json error_json db decode key id now s (record {
        method = put;
        path = path;
        headers = record {
          content_type = some (codes "application/json");
          if_match = some (etag v);
          admin_key = some key;
        };
        body = encode input;
      })
        ≡ updated_response flag_json error_json db
            (Service.update_flag (update_request input (some (pos v))) id now s).reply
  unfolding update_backend handle_update admin_allowed
  handled key path id now input v s small =
      rw (text_eq_refl key, decoded input, expected_version-etag v small) refl

  -- A save of the editor, sent through the proxy with the version that the editor loaded, ends
  -- as the service's reply to exactly this change under exactly this version says: with the row
  -- that was saved, with the service's own words for a percentage out of range, with the message
  -- of a conflict or of a missing flag, or with "Failed to update flag". This is for versions
  -- that fit 64 bits, a JSON decoder that reads what the encoder wrote, and a database whose
  -- errors do not contain "must be".
  pub save_told :
      (encode_id : Text → Text) (key id now : Text) (input : UpdateFlagInput) (v : ℕ) (s : Store)
      → v < 2 ^ 63
      → request
          (proxied
            (update_backend flag_json error_json db decode key id now s)
            key
            (backend_path encode_id (flag_route id)))
          read_error
          status_text
          (Admin.update_flag id (encode input) (some v))
        ≡ told flag_json (Service.update_flag (update_request input (some (pos v))) id now s).reply
  save_told encode_id key id now input v s small =
      let path = backend_path encode_id (flag_route id) in
      let req = Admin.update_flag id (encode input) (some v) in
      let backend = update_backend flag_json error_json db decode key id now s in
      let change = update_request input (some (pos v)) in
      let (res, sent, heard) = reply-told (Service.update_flag change id now s).reply (λ m h.
        subst (λ x. (contains x (codes "must be") ≡ true) × (is_empty x ≡ false))
          (update_flag-invalid change id now m s h) range_words-ours) in
      let arrives : backend (forwarded key path (as_json req)) ≡ some res =
        ap backend (update_forwarded encode_id key id (encode input) (some v) (written input))
        ∙ handled key (codes "/api/admin/flags/" ++ encode_id id) id now input v s small
        ∙ sent in
      proxied_transparent backend key path read_error status_text req res arrives ∙ heard
