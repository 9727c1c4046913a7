-- ===== src/Demo/Playground.antt =====
-- frontend/app/playground/page.tsx: the flag that is built on the page, and the panel that cuts and
-- restores a client's own connection.
use feature_flag_system.Prelude.{
  ℕ, ◌-◌, ◌++◌, ◌∷◌, [], Text, codes, Bool, true, not, ◌&&◌, List, Option, none, some, ℤ, pos, ltb,
  if◌then◌else◌, is_empty, includes, trim, keep, text_eq,
}
use feature_flag_system.Sdk.Client.{ConnectionStatus, offline, same_status, reconciling}
use feature_flag_system.Evaluate.{EvaluableFlag}
use feature_flag_system.Demo.View.{status_label}

pub record Playground : Type 0 where
  pub enabled : Bool
  pub rollout : ℤ
  pub targeted : List Text
  pub user_input : Text
  pub eval_user : Text

unfoldable pub open_playground : Playground
open_playground = record {
  enabled = true;
  rollout = pos 30;
  targeted = codes "alice" ∷ [];
  user_input = [];
  eval_user = codes "user-1";
}

-- The flag that the grid and the explanation below are given.
unfoldable pub sandbox_flag : Playground → EvaluableFlag
sandbox_flag p = record {
  key = codes "playground";
  enabled = p.enabled;
  rollout_percentage = p.rollout;
  targeted_users = p.targeted;
}

-- `addTargeted`: the input is cleared in any case.
unfoldable pub add_targeted : Playground → Playground
add_targeted p =
    let u = trim p.user_input in
    record (if not (is_empty u) && not (includes p.targeted u)
      then record p { targeted = p.targeted ++ u ∷ [] }
      else p) { user_input = [] }

-- What the controls do; the slider is disabled while the flag is off.
pub data Control : Type 0 where
  set_enabled : Bool → Control
  slide_to : ℤ → Control
  type_user : Text → Control
  press_add press_enter : Control
  remove_targeted : Text → Control
  spotlight : Text → Control

unfoldable pub control : Control → Playground → Playground
unfolding add_targeted
control (set_enabled b) p = record p { enabled = b }
control (slide_to n) p = if p.enabled then record p { rollout = n } else p
control (type_user t) p = record p { user_input = t }
control press_add p = add_targeted p
control press_enter p = add_targeted p
control (remove_targeted u) p = record p { targeted = keep (λ x. not (text_eq x u)) p.targeted }
control (spotlight t) p = record p { eval_user = t }

-- FailureLab, from the status and the version that its client told it and the version that the
-- server answered last.
pub record FailureLab : Type 0 where
  pub label : Text
  pub spins : Bool
  pub versions : ℕ × ℕ
  pub behind : Option ℕ
  pub disconnect_disabled : Bool
  pub reconnect_disabled : Bool

unfoldable pub failure_lab : ConnectionStatus → ℕ → ℕ → FailureLab
unfolding status_label
failure_lab status client_version server_version =
    let is_offline = same_status status offline in
    let missed = server_version - client_version in
    record {
      label = status_label status;
      spins = same_status status reconciling;
      versions = (client_version, server_version);
      behind = if is_offline && ltb 0 missed then some missed else none;
      disconnect_disabled = is_offline;
      reconnect_disabled = not is_offline;
    }
