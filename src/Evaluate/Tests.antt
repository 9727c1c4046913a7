-- ===== src/Evaluate/Tests.antt =====
-- Concrete evaluations, and the theorems at them.
use mathlib.Core.Option
use feature_flag_system.Prelude.{
  ◌≡◌, refl, ◌∷◌, [], pos, negsuc, Text, codes, true, false, none, some, includes, text_eq, arith,
  get,
}
use feature_flag_system.Types.{FlagConfig}
use feature_flag_system.Sdk.Hash.{rollout_bucket}
use feature_flag_system.Sdk.Client.{new_client, is_enabled}
use feature_flag_system.Evaluate.{EvaluableFlag, evaluate}
use feature_flag_system.Evaluate.Rule.{is_on, evaluate-is_on, evaluate_ramp}
use feature_flag_system.Evaluate.Parity.{as_evaluable, is_enabled-evaluate}

abbrev checkout : EvaluableFlag
checkout = record {
  key = codes "checkout";
  enabled = true;
  rollout_percentage = pos 50;
  targeted_users = codes "vip" ∷ [];
}

abbrev user : Text
user = codes "user-2"

-- The bucket of user-2 lies below 50; the listed user is on at any percentage, unless the flag is
-- disabled.
verdicts :
    (rollout_bucket checkout.key user ≡ 17)
    × ((evaluate (some checkout) user).on ≡ true)
    × ((evaluate (some (record checkout { rollout_percentage = pos 17 })) user).on ≡ false)
    × ((evaluate (some (record checkout { rollout_percentage = negsuc 4 })) (codes "vip")).on
        ≡ true)
    × ((evaluate (some (record checkout { enabled = false })) (codes "vip")).on ≡ false)
unfolding rollout_bucket evaluate includes text_eq
verdicts = (refl, refl, refl, refl, refl)

evaluate-is_on_example : (evaluate (some checkout) user).on ≡ is_on checkout user
evaluate-is_on_example = evaluate-is_on checkout user

evaluate_ramp_example :
    (evaluate (some (record checkout { rollout_percentage = pos 60 })) user).on ≡ true
evaluate_ramp_example = evaluate_ramp checkout (pos 50) (pos 60) user (omega arith) verdicts.1

nothing_held :
    (f : FlagConfig) → get checkout.key (new_client none).flags ≡ some f → f.key ≡ checkout.key
unfolding get new_client
nothing_held f h = cc

is_enabled-evaluate_example :
    is_enabled (new_client none) checkout.key user
    ≡ (evaluate (Option.map as_evaluable (get checkout.key (new_client none).flags)) user).on
is_enabled-evaluate_example = is_enabled-evaluate (new_client none) checkout.key user nothing_held
