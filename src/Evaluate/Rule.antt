-- ===== src/Evaluate/Rule.antt =====
-- The meaning of an evaluation, stated with no short cuts, and what follows for rollouts.
use feature_flag_system.Prelude.{
  ℕ, ◌≡◌, ◌↔◌, ℤ, pos, ◌≤ℤ◌, ltb_ℤ, Text, Bool, true, false, ◌&&◌, ◌||◌, Option, none, some,
  includes, arith,
}
use feature_flag_system.Sdk.Hash.{rollout_bucket, rollout_bucket-lt}
use feature_flag_system.Evaluate.{
  EvalReason, EvaluableFlag, evaluate, targeted, rollout_full, in_rollout,
}

-- The rule in one line: enabled, and either listed or with a bucket below the percentage.
unfoldable pub is_on : EvaluableFlag → Text → Bool
is_on flag user_id =
    flag.enabled
    && (includes flag.targeted_users user_id
        || ltb_ℤ (pos (rollout_bucket flag.key user_id)) flag.rollout_percentage)

-- The traced evaluation decides by the one-line rule: the answers at 0% and below, and at 100%
-- and above, agree with the dice roll that they skip.
pub evaluate-is_on :
    (flag : EvaluableFlag) (user_id : Text) → (evaluate (some flag) user_id).on ≡ is_on flag user_id
unfolding evaluate is_on
evaluate-is_on flag user_id = ground (arith, rollout_bucket-lt flag.key user_id)

-- Raising the percentage of a flag, and nothing else, takes nobody out: who is on stays on.
pub evaluate_ramp :
    (flag : EvaluableFlag) (p q : ℤ) (user_id : Text)
    → p ≤ℤ q
    → (evaluate (some (record flag { rollout_percentage = p })) user_id).on ≡ true
    → (evaluate (some (record flag { rollout_percentage = q })) user_id).on ≡ true
unfolding evaluate
evaluate_ramp flag p q user_id h e = ground (arith, rollout_bucket-lt flag.key user_id)

-- A bucket is shown exactly when it decided: the flag is enabled, the user is not listed and the
-- percentage lies strictly between 0 and 100; it is then the user's bucket for the flag.
pub evaluate-bucket :
    (flag : EvaluableFlag) (user_id : Text) (b : ℕ)
    → ((evaluate (some flag) user_id).bucket ≡ some b) ↔ (
        (flag.enabled ≡ true)
        × (includes flag.targeted_users user_id ≡ false)
        × (pos 1 ≤ℤ flag.rollout_percentage)
        × (flag.rollout_percentage ≤ℤ pos 99)
        × (b ≡ rollout_bucket flag.key user_id))
unfolding evaluate
evaluate-bucket flag user_id b = ground arith

-- The reason determines the verdict, for a flag that exists or not.
abbrev pub verdict_of : EvalReason → Bool
verdict_of targeted = true
verdict_of rollout_full = true
verdict_of in_rollout = true
verdict_of _ = false

-- The verdict is the one that the reason announces, for every flag, present or missing, and user.
pub evaluate-reason :
    (flag : Option EvaluableFlag) (user_id : Text)
    → (evaluate flag user_id).on ≡ verdict_of (evaluate flag user_id).reason
unfolding evaluate
evaluate-reason none user_id = ground arith
evaluate-reason (some flag) user_id = ground arith
