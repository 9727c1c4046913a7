-- ===== src/Flags/Tests.antt =====
-- The flag editor at concrete inputs.
use feature_flag_system.Prelude.{
  List, ◌≡◌, ◌↔◌, refl, ◌∷◌, [], pos, codes, true, false, none, some, arith, is_none, includes,
  trim, text_eq,
}
use mathlib.Core.Logic.{◌≢◌}
use feature_flag_system.Flags.Queries.{CachedQuery, Change, flags_key, flag_key, pushed_update}
use feature_flag_system.Types.{Flag, UpdateFlagInput}
use feature_flag_system.Flags.Users.{
  UsersInput, UserAction, typed, pressed_enter, clicked_add, act, act_all, add_user,
}
use feature_flag_system.Flags.Form.{
  FlagForm, open_form, handle_submit, validate, key_error, rollout_error, to_update,
}
use feature_flag_system.Flags.Form.Submit.{IsAcceptable, handle_submit_iff, handle_submit-open_form}
use feature_flag_system.Flags.Slider.{Slider, open_slider, handle_change, elapse}
use feature_flag_system.Flags.Slider.Debounce.{drag, last_value, early_submit_stale}
use feature_flag_system.Flags.Detail.{
  submit, receive, update_failed, edit, open_page, sent_update, invalidated, one_flag,
  toasted_error,
}
use feature_flag_system.Flags.Detail.Saving.{retry_after_refusal}

abbrev empty_input : UsersInput
empty_input = record { users = []; input = [] }

-- Typing a user twice, once with spaces around, lists the user once.
abbrev twice : List UserAction
twice = typed (codes " ann ") ∷ pressed_enter ∷ typed (codes "ann") ∷ clicked_add ∷ []

twice_listed : act_all twice empty_input ≡ record { users = codes "ann" ∷ []; input = codes "ann" }
unfolding act_all act add_user includes trim text_eq
twice_listed = refl

abbrev new_form : FlagForm
new_form = record {
  flag = none;
  key = codes "dark-mode";
  description = [];
  enabled = true;
  rollout_percentage = pos 25;
  targeted_users = [];
  errors = record { key = none; rollout = none };
  key_focused = false;
}

-- A key with a colon, an empty key, and a percentage above 100 are held back.
held_back :
    (is_none (handle_submit (record new_form { key = codes "a:b" })).1 ≡ true)
    × (is_none (handle_submit (record new_form { key = [] })).1 ≡ true)
    × (is_none (handle_submit (record new_form { rollout_percentage = pos 101 })).1 ≡ true)
    × (is_none (handle_submit new_form).1 ≡ false)
unfolding handle_submit validate key_error rollout_error
held_back = (refl, refl, refl, refl)

handle_submit_iff_example : (is_none (handle_submit new_form).1 ≡ false) ↔ IsAcceptable new_form
handle_submit_iff_example = handle_submit_iff new_form

abbrev beta : Flag
beta = record {
  id = codes "7";
  key = codes "beta";
  description = codes "the beta";
  enabled = true;
  rollout_percentage = pos 10;
  targeted_users = codes "ann" ∷ [];
  version = 4;
  created_at = [];
  updated_at = [];
}

abbrev beta_input : UpdateFlagInput
beta_input = record {
  description = some (codes "the beta");
  enabled = some true;
  rollout_percentage = some (pos 10);
  targeted_users = some (codes "ann" ∷ []);
}

handle_submit-open_form_example :
    (handle_submit (open_form (some beta))).1 ≡ some (to_update beta_input)
handle_submit-open_form_example = handle_submit-open_form beta (omega arith, omega arith)

-- From 10 to 40 in two moves.
abbrev slid : Slider
slid = drag ((50, pos 40) ∷ []) (handle_change (pos 20) (open_slider new_form))

early_submit_stale_example :
    ((elapse 100 slid).local_value ≡ last_value (pos 20) ((50, pos 40) ∷ []))
    × (handle_submit (elapse 100 slid).form ≡ handle_submit (open_slider new_form).form)
early_submit_stale_example =
    early_submit_stale ((50, pos 40) ∷ []) (open_slider new_form) (pos 20) 100 (omega arith, tt)
      (omega arith)

abbrev describe : FlagForm → FlagForm
describe form = record form { description = codes "mine" }

abbrev mine : UpdateFlagInput
mine = record beta_input { description = some (codes "mine") }

accepted : (handle_submit (describe (open_form (some beta)))).1 ≡ some (to_update mine)
unfolding handle_submit validate key_error rollout_error open_form
accepted = refl

-- Someone else's description, at version 5, is overwritten by the second save.
abbrev theirs : Flag
theirs = record beta { description = codes "theirs"; version = 5 }

retry_after_refusal_example :
    (submit (
      receive theirs (
        update_failed
          (codes "version conflict")
          (submit (edit describe (receive beta (open_page (codes "7")))))))).effects
    ≡ sent_update (codes "7") mine (some 5)
      ∷ invalidated (one_flag (codes "7"))
      ∷ toasted_error (codes "version conflict")
      ∷ sent_update (codes "7") mine (some 4)
      ∷ []
retry_after_refusal_example =
    retry_after_refusal (codes "7") beta theirs describe mine (codes "version conflict") refl
      accepted

-- The open page of a flag while the list is elsewhere: an update by another user, told by the
-- stream, fetches it again.
abbrev open_queries : List CachedQuery
open_queries =
    record { key = flags_key; is_active = false; is_stale = false }
    ∷ record { key = flag_key (codes "7"); is_active = true; is_stale = false }
    ∷ []

told_update : pushed_update ≢ Change.deleted
told_update e = cc e

told_well : pushed_update ≢ Change.stream_error
told_well e = cc e
