-- ===== src/Server/Forms.antt =====
-- The flag editor's form before the service: what frontend/components/flags/FlagForm.tsx lets
-- through, backend/internal/service/flag_service.go takes.
use feature_flag_system.Prelude.{
  Text, Bool, true, false, [], ◌∷◌, Option, none, some, ℤ, ◌≡◌, ◌≢◌, refl, ap, ◌∙◌, arith, every,
  length, is_none, if◌then◌else◌, Option-cases, inl, inr,
}
use feature_flag_system.Types.{Flag, CreateFlagInput, UpdateFlagInput}
use feature_flag_system.Flags.Form.{
  FlagForm, Submission, to_create, to_update, handle_submit, validate, submission, create_input,
  update_input, is_key_char,
}
use feature_flag_system.Flags.Form.Submit.{handle_submit_iff, IsAcceptable, IsKey, IsPercentage}
use feature_flag_system.Server.{Store, get_by_key}
use feature_flag_system.Server.Repository.{
  UpdateRequest, Written, done, no_row, version_conflict, database_error, not_found, update_row,
  create_row,
}
use feature_flag_system.Server.Service.{
  refuse, duplicate_key, invalid, failed, Served, create_error, create_flag, create_checked,
  update_flag, utf8_length, bad_change, answer_write,
}

-- The body of an update and its `If-Match`, as `UpdateFlag` of
-- backend/internal/handler/admin_handler.go reads them.
abbrev pub update_request : UpdateFlagInput → Option ℤ → UpdateRequest
update_request input expected = record {
  description = input.description;
  enabled = input.enabled;
  rollout_percentage = input.rollout_percentage;
  targeted_users = input.targeted_users;
  expected_version = expected;
}

-- What a submission asks of the service. `id` is the flag's id, or the new one.
unfoldable pub deliver : Submission → Option ℤ → Text → Text → Store → Served Flag
deliver (to_create req) expected id now s = create_flag req id now s
deliver (to_update input) expected id now s = update_flag (update_request input expected) id now s

utf8_length-matches_key : (key : Text) → every is_key_char key ≡ true → utf8_length key ≡ length key
unfolding utf8_length
utf8_length-matches_key [] h = refl
utf8_length-matches_key (c ∷ s) h = ground (arith, utf8_length-matches_key s)

pub answer_write-valid :
    (r : Written Flag × Store) (m : Text) → (answer_write r).reply ≢ failed (invalid m)
answer_write-valid (done f, s) m h = cc h
answer_write-valid (no_row, s) m h = cc h
answer_write-valid (version_conflict, s) m h = cc h
answer_write-valid (database_error, s) m h = cc h
answer_write-valid (not_found, s) m h = cc h

IsKey-create_error :
    (req : CreateFlagInput)
    → IsKey req.key
    → IsPercentage req.rollout_percentage
    → create_error req ≡ none
unfolding create_error
IsKey-create_error req k p = ground (arith, utf8_length-matches_key req.key k.1)

create_checked-valid :
    (e : Option Text) (req : CreateFlagInput) (id now : Text) (s : Store) (m : Text)
    → e ≡ none
    → (create_checked e req id now s).reply ≢ failed (invalid m)
create_checked-valid (some e) req id now s m fine = absurd (cc fine)
create_checked-valid none req id now s m fine = go (is_none (get_by_key req.key s.flags))
  where
    go :
        (free : Bool)
        → (if free then answer_write (create_row req id now s) else refuse duplicate_key s).reply
          ≢ failed (invalid m)
    go true = answer_write-valid (create_row req id now s) m
    go false = λ h. cc h

update_flag-valid :
    (req : UpdateRequest) (id now : Text) (s : Store) (m : Text)
    → bad_change req.rollout_percentage ≡ false
    → (update_flag req id now s).reply ≢ failed (invalid m)
unfolding update_flag
update_flag-valid req id now s m fine = rw fine (answer_write-valid (update_row req id now s) m)

submitted :
    (valid : Bool) (x sub : Submission) → (if valid then some x else none) ≡ some sub → sub ≡ x
submitted true x sub h = cc h
submitted false x sub h = absurd (cc h)

handle_submit-submission :
    (form : FlagForm) (sub : Submission)
    → (handle_submit form).1 ≡ some sub
    → (sub ≡ submission form) × IsAcceptable form
unfolding handle_submit validate
handle_submit-submission form sub h =
    (submitted (validate form).1 (submission form) sub h, (handle_submit_iff form).0 (ap is_none h))

-- Whatever the form submits, for a new flag or for one that is edited, the service's own checks
-- of the key and of the percentage let pass: no reply to it is a validation error, whatever the
-- store holds and whatever version the request expects.
pub form_never_invalid :
    (form : FlagForm) (sub : Submission) (expected : Option ℤ) (id now : Text) (s : Store)
    (m : Text)
    → (handle_submit form).1 ≡ some sub
    → (deliver sub expected id now s).reply ≢ failed (invalid m)
form_never_invalid form sub expected id now s m h =
    let (same, fine) = handle_submit-submission form sub h in
    elim (Option-cases form.flag) [
      | inl new ↦
          let fresh : submission form ≡ to_create (create_input form) = rw new refl in
          let good : create_error (create_input form) ≡ none =
            IsKey-create_error (create_input form) (fine.1 (ap is_none new)) fine.0 in
          rw (same ∙ fresh) (
            unfold deliver create_flag in
            create_checked-valid (create_error (create_input form)) (create_input form) id now s m
              good)
      | inr (f, old) ↦
          let saved : submission form ≡ to_update (update_input form) = rw old refl in
          rw (same ∙ saved) (
            unfold deliver in
            update_flag-valid (update_request (update_input form) expected) id now s m
              (ground arith))
    ]
