-- ===== src/Flags/Form/Submit.antt =====
-- What frontend/components/flags/FlagForm.tsx submits, and when.
use feature_flag_system.Prelude.{
  ◌≡◌, ◌↔◌, ◌⊎◌, ◌≤◌, Text, true, false, some, ℤ, pos, ◌≤ℤ◌, is_empty, is_none, every, length,
  arith,
}
use feature_flag_system.Types.{Flag}
use feature_flag_system.Flags.Form.{
  FlagForm, to_update, handle_submit, open_form, is_key_char, key_error, rollout_error, validate,
  render_form,
}

-- A key as the server wants it.
abbrev pub IsKey : Text → Type 0
IsKey key = (is_empty key ≡ false) × (every is_key_char key ≡ true) × (length key ≤ 64)

-- A percentage as the server wants it.
abbrev pub IsPercentage : ℤ → Type 0
IsPercentage p = (pos 0 ≤ℤ p) × (p ≤ℤ pos 100)

-- What the server's checks demand of a request.
abbrev pub IsAcceptable : FlagForm → Type 0
IsAcceptable form =
    IsPercentage form.rollout_percentage × ((is_none form.flag ≡ true) → IsKey form.key)

-- The form submits exactly when the percentage lies within 0 and 100 and, for a new flag, the key
-- is not empty, has at most 64 characters and only letters, digits and hyphens.
pub handle_submit_iff :
    (form : FlagForm) → (is_none (handle_submit form).1 ≡ false) ↔ IsAcceptable form
unfolding handle_submit validate key_error rollout_error
handle_submit_iff form = ground arith

-- A submission that is held back shows a message, and one that goes through shows none.
pub handle_submit-errors :
    (form : FlagForm) (is_loading : _)
    → let view = render_form (handle_submit form).0 is_loading in
      (is_none (handle_submit form).1 ≡ true)
      ↔ ((view.key_alert ≡ true) ⊎ (view.rollout_alert ≡ true))
unfolding handle_submit validate key_error rollout_error render_form
handle_submit-errors form is_loading = ground arith

-- Opening a flag and saving it with nothing changed asks for the values that it has, provided its
-- percentage is one that the form accepts.
pub handle_submit-open_form :
    (f : Flag)
    → IsPercentage f.rollout_percentage
    → (handle_submit (open_form (some f))).1
      ≡ some (
          to_update (record {
            description = some f.description;
            enabled = some f.enabled;
            rollout_percentage = some f.rollout_percentage;
            targeted_users = some f.targeted_users;
          }))
unfolding handle_submit validate key_error rollout_error open_form
handle_submit-open_form f h = ground arith
