-- ===== src/Flags/Form.antt =====
-- frontend/components/flags/FlagForm.tsx and RolloutSlider.tsx: the form that creates or edits a
-- flag, with its debounced slider. `flag` is the flag being edited, if any.
pub mod Submit
use feature_flag_system.Prelude.{
  ◌∷◌, [], ℕ, ◌+◌, Text, Bool, true, false, not, ◌&&◌, ◌||◌, List, Option, none, some, ℤ, pos,
  is_empty, is_none, or_else, codes, leb, ltb, ltb_ℤ, if◌then◌else◌, every, length, ◌==◌, arith,
}
use feature_flag_system.Types.{Flag, CreateFlagInput, UpdateFlagInput}

-- `errors`: a message under each key that it can have.
pub record FormErrors : Type 0 where
  pub key : Option Text
  pub rollout : Option Text

abbrev pub no_errors : FormErrors
no_errors = record { key = none; rollout = none }

pub record FlagForm : Type 0 where
  pub flag : Option Flag
  pub key : Text
  pub description : Text
  pub enabled : Bool
  pub rollout_percentage : ℤ
  pub targeted_users : List Text
  pub errors : FormErrors
  pub key_focused : Bool

-- The state on the first render: `flag?.key || ""` and so on.
unfoldable pub open_form : Option Flag → FlagForm
open_form none = record {
  flag = none;
  key = [];
  description = [];
  enabled = false;
  rollout_percentage = pos 0;
  targeted_users = [];
  errors = no_errors;
  key_focused = false;
}
open_form (some f) = record {
  flag = some f;
  key = f.key;
  description = f.description;
  enabled = f.enabled;
  rollout_percentage = f.rollout_percentage;
  targeted_users = f.targeted_users;
  errors = no_errors;
  key_focused = false;
}

-- What the fields call; the key's field is disabled for a flag that exists.
pub data FieldEdit : Type 0 where
  key_to description_to : Text → FieldEdit
  enabled_to : Bool → FieldEdit
  rollout_to : ℤ → FieldEdit
  users_to : List Text → FieldEdit

unfoldable pub edit_field : FieldEdit → FlagForm → FlagForm
edit_field (key_to t) form = if is_none form.flag then record form { key = t } else form
edit_field (description_to t) form = record form { description = t }
edit_field (enabled_to b) form = record form { enabled = b }
edit_field (rollout_to p) form = record form { rollout_percentage = p }
edit_field (users_to us) form = record form { targeted_users = us }

-- `/[a-zA-Z0-9-]/`
abbrev pub is_key_char : ℕ → Bool
is_key_char c = leb 97 c && leb c 122 || leb 65 c && leb c 90 || leb 48 c && leb c 57 || c == 45

-- `/^[a-zA-Z0-9-]+$/.test(key)`
abbrev pub matches_key : Text → Bool
matches_key key = not (is_empty key) && every is_key_char key

unfoldable pub key_error : FlagForm → Option Text
key_error form =
    if not (is_none form.flag)
    then none
    else if is_empty form.key
    then some (codes "Key is required")
    else if not (matches_key form.key)
    then some (codes "Use letters, numbers, and hyphens only")
    else if ltb 64 (length form.key)
    then some (codes "Key must be at most 64 characters")
    else none

unfoldable pub rollout_error : FlagForm → Option Text
rollout_error form =
    if ltb_ℤ form.rollout_percentage (pos 0) || ltb_ℤ (pos 100) form.rollout_percentage
    then some (codes "Must be between 0 and 100")
    else none

unfoldable pub validate : FlagForm → FlagForm × Bool
unfolding key_error rollout_error
validate form =
    let new_errors : FormErrors = record { key = key_error form; rollout = rollout_error form } in
    (
      record form {
        errors = new_errors;
        key_focused = if is_none new_errors.key then form.key_focused else true;
      },
      is_none new_errors.key && is_none new_errors.rollout,
    )

-- What `onSubmit` is called with.
pub data Submission : Type 0 where
  to_create : CreateFlagInput → Submission
  to_update : UpdateFlagInput → Submission

abbrev pub create_input : FlagForm → CreateFlagInput
create_input form = record {
  key = form.key;
  description = form.description;
  enabled = form.enabled;
  rollout_percentage = form.rollout_percentage;
  targeted_users = form.targeted_users;
}

abbrev pub update_input : FlagForm → UpdateFlagInput
update_input form = record {
  description = some form.description;
  enabled = some form.enabled;
  rollout_percentage = some form.rollout_percentage;
  targeted_users = some form.targeted_users;
}

abbrev pub submission : FlagForm → Submission
submission form = elim form.flag [
  | none ↦ to_create (create_input form)
  | some f ↦ to_update (update_input form)
]

unfoldable pub handle_submit : FlagForm → FlagForm × Option Submission
unfolding validate
handle_submit form =
    let checked = validate form in
    (checked.0, if checked.1 then some (submission checked.0) else none)

-- What the form shows besides its fields.
pub record FormView : Type 0 where
  pub key_starred : Bool
  pub key_disabled : Bool
  pub key_alert : Bool
  pub key_note : Text
  pub rollout_alert : Bool
  pub rollout_note : Text
  pub button_disabled : Bool
  pub button : Text

unfoldable pub render_form : FlagForm → Bool → FormView
render_form form is_loading =
    let is_edit = not (is_none form.flag) in
    record {
      key_starred = not is_edit;
      key_disabled = is_edit;
      key_alert = not (is_none form.errors.key);
      key_note = or_else form.errors.key (
          if is_edit
          then codes "The key is immutable once created."
          else codes "Stable identifier used by SDKs. Cannot be changed later.");
      rollout_alert = not (is_none form.errors.rollout);
      rollout_note = or_else form.errors.rollout (
          codes
            "Deterministic per user — increasing the percentage keeps existing users in the cohort.");
      button_disabled = is_loading;
      button =
          if is_loading
          then codes "Saving…"
          else if is_edit
          then codes "Save changes"
          else codes "Create flag";
    }
