-- ===== src/Flags/Creation.antt =====
-- frontend/app/flags/new/page.tsx: the page that creates a flag. The mutation is under way from
-- its start until it settles; what the page does then goes to the head of `effects`.
use feature_flag_system.Prelude.{
  ◌∷◌, [], Text, codes, Bool, true, false, List, Option, none, some, if◌then◌else◌,
}
use feature_flag_system.Types.{CreateFlagInput}
use feature_flag_system.Flags.Form.{
  FlagForm, FormView, open_form, handle_submit, Submission, to_create, to_update, render_form,
  FieldEdit, edit_field,
}
use feature_flag_system.Flags.Queries.{Key, flags_key}

pub data CreationEffect : Type 0 where
  sent_create : CreateFlagInput → CreationEffect
  refreshed : Key → CreationEffect
  told told_error : Text → CreationEffect
  went_to : Text → CreationEffect

pub record CreationPage : Type 0 where
  pub form : FlagForm
  pub is_pending : Bool
  pub effects : List CreationEffect

unfoldable pub open_creation : CreationPage
open_creation = record { form = open_form none; is_pending = false; effects = [] }

pub data CreationAct : Type 0 where
  edit : FieldEdit → CreationAct
  press_create created_well : CreationAct
  failed_with : Text → CreationAct

-- What the form hands to the page; the form of a new flag asks for no update.
abbrev send : Option Submission → CreationPage → CreationPage
send none p = p
send (some (to_create req)) p = record p {
  is_pending = true;
  effects = sent_create req ∷ p.effects;
}
send (some (to_update input)) p = p

-- The hook's `onSuccess` runs before the page's own. The button is disabled while a request is
-- under way.
unfoldable pub creation_act : CreationAct → CreationPage → CreationPage
creation_act (edit e) p = record p { form = edit_field e p.form }
creation_act press_create p =
    let checked = handle_submit p.form in
    if p.is_pending then p else send checked.1 (record p { form = checked.0 })
creation_act created_well p = record p {
  is_pending = false;
  effects =
      went_to (codes "/flags") ∷ told (codes "Flag created") ∷ refreshed flags_key ∷ p.effects;
}
creation_act (failed_with message) p = record p {
  is_pending = false;
  effects = told_error message ∷ p.effects;
}

-- The form as the page draws it.
unfoldable pub creation_view : CreationPage → FormView
creation_view p = render_form p.form p.is_pending
