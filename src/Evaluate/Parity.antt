-- ===== src/Evaluate/Parity.antt =====
-- The trace of frontend/lib/evaluate.ts and the decision of frontend/sdk/FeatureFlagClient.ts.
use mathlib.Core.Option
use feature_flag_system.Prelude.{◌≡◌, Text, none, some, arith, get, Option-cases, inl, inr}
use feature_flag_system.Types.{FlagConfig}
use feature_flag_system.Sdk.Hash.{rollout_bucket}
use feature_flag_system.Sdk.Client.{Client, is_enabled}
use feature_flag_system.Evaluate.{EvaluableFlag, evaluate}

-- A configured flag, as the evaluator takes it.
abbrev pub as_evaluable : FlagConfig → EvaluableFlag
as_evaluable f = record {
  key = f.key;
  enabled = f.enabled;
  rollout_percentage = f.rollout_percentage;
  targeted_users = f.targeted_users;
}

is_enabled-found :
    (c : Client) (flag_key user_id : Text) (f : FlagConfig)
    → get flag_key c.flags ≡ some f
    → f.key ≡ flag_key
    → is_enabled c flag_key user_id ≡ (evaluate (some (as_evaluable f)) user_id).on
unfolding is_enabled evaluate rollout_bucket
is_enabled-found c flag_key user_id f h k = ground arith

is_enabled-missing :
    (c : Client) (flag_key user_id : Text)
    → get flag_key c.flags ≡ none
    → is_enabled c flag_key user_id ≡ (evaluate none user_id).on
unfolding is_enabled evaluate
is_enabled-missing c flag_key user_id h = ground arith

-- Whatever the client holds under a key, as long as that flag carries the key, the client's
-- decision for a user is the verdict of the trace, the missing flag included.
pub is_enabled-evaluate :
    (c : Client) (flag_key user_id : Text)
    → ((f : FlagConfig) → get flag_key c.flags ≡ some f → f.key ≡ flag_key)
    → is_enabled c flag_key user_id
      ≡ (evaluate (Option.map as_evaluable (get flag_key c.flags)) user_id).on
is_enabled-evaluate c flag_key user_id keyed = elim (Option-cases (get flag_key c.flags)) [
  | inl missing ↦ rw missing (is_enabled-missing c flag_key user_id missing)
  | inr (f, found) ↦ rw found (is_enabled-found c flag_key user_id f found (keyed f found))
]
