-- ===== src/Flags/Detail/Saving.antt =====
-- What the page of frontend/app/flags/[id]/page.tsx sends when it saves and deletes.
use feature_flag_system.Prelude.{◌≡◌, ◌↔◌, ◌∷◌, [], Text, true, false, some, is_empty, arith}
use feature_flag_system.Types.{Flag, UpdateFlagInput}
use feature_flag_system.Flags.Form.{
  FlagForm, open_form, handle_submit, validate, key_error, rollout_error, Submission, to_update,
}
use feature_flag_system.Flags.Detail.{
  DetailPage, sent_update, one_flag, open_page, receive, edit, submit, handle_delete, delete_failed,
  query_enabled, handle_update, update_failed, toasted_error, invalidated,
}

-- The edits that a reader made to the flag `loaded`, then a newer copy of the flag.
abbrev pub reloaded : Text → Flag → (FlagForm → FlagForm) → Flag → DetailPage
unfolding open_page receive edit query_enabled
reloaded id loaded change newer = receive newer (edit change (receive loaded (open_page id)))

-- The fields that a save sends are those of the form, opened on the flag that was first loaded and
-- then edited, whatever the query brought later; the version that it names is that of the flag
-- which the query brought last. The page must have an id, and the form must accept its fields.
pub submit-reloaded :
    (id : Text) (loaded newer : Flag) (change : FlagForm → FlagForm) (input : UpdateFlagInput)
    → is_empty id ≡ false
    → (handle_submit (change (open_form (some loaded)))).1 ≡ some (to_update input)
    → (submit (reloaded id loaded change newer)).effects
      ≡ sent_update id input (some newer.version) ∷ []
unfolding open_page receive edit query_enabled submit handle_update
submit-reloaded id loaded newer change input n e = ground arith

-- A form that was submitted is unchanged but for its errors, so that it is submitted the same again.
handle_submit-again :
    (form : FlagForm) (x : Submission)
    → (handle_submit form).1 ≡ some x
    → (handle_submit (handle_submit form).0).1 ≡ some x
unfolding handle_submit validate key_error rollout_error
handle_submit-again form x h = h

-- After a save that the server refuses, the page asks for the flag again; when the answer comes
-- and the reader saves again, the same fields are sent with the version of the answer. The page must
-- have an id, and the form must accept its fields.
pub retry_after_refusal :
    (id : Text) (loaded newer : Flag) (change : FlagForm → FlagForm) (input : UpdateFlagInput)
    (message : Text)
    → is_empty id ≡ false
    → (handle_submit (change (open_form (some loaded)))).1 ≡ some (to_update input)
    → (submit (
        receive newer
          (update_failed message (submit (edit change (receive loaded (open_page id))))))).effects
      ≡ sent_update id input (some newer.version)
        ∷ invalidated (one_flag id)
        ∷ toasted_error message
        ∷ sent_update id input (some loaded.version)
        ∷ []
unfolding open_page receive edit query_enabled submit handle_update update_failed
retry_after_refusal id loaded newer change input message n e =
    let again = handle_submit-again (change (open_form (some loaded))) (to_update input) e in
    ground (arith, again)

-- Once a deletion is asked for, no answer of the query changes what the page shows, until the
-- deletion fails.
pub handle_delete-receive :
    (page : DetailPage) (f : Flag) (message : Text)
    → (receive f (handle_delete page) ≡ handle_delete page)
      × ((query_enabled (delete_failed message (handle_delete page)) ≡ true)
          ↔ (is_empty page.id ≡ false))
unfolding receive handle_delete query_enabled delete_failed
handle_delete-receive page f message = ground arith
