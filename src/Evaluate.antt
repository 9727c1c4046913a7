-- ===== src/Evaluate.antt =====
-- frontend/lib/evaluate.ts: the evaluation trace that the teaching pages show.
pub mod Rule
pub mod Parity
mod Tests
use feature_flag_system.Prelude.{
  ℕ, ◌++◌, ◌∷◌, ℤ, pos, Text, Bool, true, false, not, List, Option, none, some, includes, leb_ℤ,
  ltb_ℤ, if◌then◌else◌,
}
use feature_flag_system.Sdk.Hash.{rollout_bucket}

pub data EvalReason : Type 0 where
  no_flag disabled targeted rollout_zero rollout_full in_rollout out_of_rollout : EvalReason

pub record EvalTrace : Type 0 where
  pub on : Bool
  pub reason : EvalReason
  pub enabled : Bool
  pub targeted : Bool
  pub percentage : ℤ
  pub bucket : Option ℕ
  pub hash_input : Text

pub record EvaluableFlag : Type 0 where
  pub key : Text
  pub enabled : Bool
  pub rollout_percentage : ℤ
  pub targeted_users : List Text

-- The last rule: the dice roll.
roll : EvaluableFlag → Text → Text → EvalTrace
roll flag user_id hash_input =
    let bucket = rollout_bucket flag.key user_id in
    let on = ltb_ℤ (pos bucket) flag.rollout_percentage in
    record {
      on = on;
      reason = if on then in_rollout else out_of_rollout;
      enabled = true;
      targeted = false;
      percentage = flag.rollout_percentage;
      bucket = some bucket;
      hash_input = hash_input;
    }

-- The rules that answer with no roll share a shape.
abbrev decided : Bool → EvalReason → Bool → Bool → ℤ → Text → EvalTrace
decided on reason is_enabled is_targeted percentage hash_input = record {
  on = on;
  reason = reason;
  enabled = is_enabled;
  targeted = is_targeted;
  percentage = percentage;
  bucket = none;
  hash_input = hash_input;
}

unfoldable pub evaluate : Option EvaluableFlag → Text → EvalTrace
unfolding roll
evaluate none user_id = decided false no_flag false false (pos 0) user_id
evaluate (some flag) user_id =
    let hash_input = flag.key ++ b':' ∷ user_id in
    let is_targeted = includes flag.targeted_users user_id in
    let percentage = flag.rollout_percentage in
    if not flag.enabled
    then decided false disabled false is_targeted percentage hash_input
    else if is_targeted
    then decided true targeted true true percentage hash_input
    else if leb_ℤ percentage (pos 0)
    then decided false rollout_zero true false percentage hash_input
    else if leb_ℤ (pos 100) percentage
    then decided true rollout_full true false percentage hash_input
    else roll flag user_id hash_input
