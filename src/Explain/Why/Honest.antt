-- ===== src/Explain/Why/Honest.antt =====
-- The explanation of frontend/components/explain/WhyExplainer.tsx tells what the evaluation did.
use feature_flag_system.Prelude.{
  ◌≡◌, refl, ap, ◌++◌, ◌∷◌, [], ℕ, Text, Bool, true, false, not, ◌&&◌, ◌||◌, Option, some, ℤ, every,
  ◌==◌, join, split, join-drop-split, drop, arith, ◌∙◌, pos, ltb_ℤ,
}
use feature_flag_system.Sdk.Hash.{rollout_bucket}
use feature_flag_system.Evaluate.{EvaluableFlag, evaluate}
use feature_flag_system.Flags.Form.{is_key_char}
use feature_flag_system.Explain.Why.{
  pass, skipped, rolled, Step, enabled_step, targeting_step, rollout_step, quoted,
}

abbrev pub passes : Step → Bool
passes s = elim s.status [ pass ↦ true | _ ↦ false ]

abbrev pub skips : Step → Bool
skips s = elim s.status [ skipped ↦ true | _ ↦ false ]

-- The verdict is the one that the three steps add up to, and a step is shown as not reached
-- exactly when an earlier step decided: a failed first step, or a passed second one.
pub steps-verdict :
    (flag : EvaluableFlag) (user_id : Text)
    → let t = evaluate (some flag) user_id in
      let first = enabled_step flag in
      let second = targeting_step t flag in
      let third = rollout_step t flag in
      (t.on ≡ (passes first && (passes second || passes third)))
      × (skips second ≡ not (passes first))
      × (skips third ≡ (not (passes first) || passes second))
unfolding evaluate enabled_step targeting_step rollout_step
steps-verdict flag user_id = ground arith

no_colon : (key : Text) → every is_key_char key ≡ true → every (λ a. not (a == b':')) key ≡ true
no_colon [] h = refl
no_colon (a ∷ key) h = ground (arith, no_colon key)

hash_input_lem :
    (flag : EvaluableFlag) (user_id : Text)
    → (evaluate (some flag) user_id).hash_input ≡ flag.key ++ b':' ∷ user_id
unfolding evaluate
hash_input_lem flag user_id = ground arith

quoted_lem :
    (flag : EvaluableFlag) (user_id : Text)
    → every is_key_char flag.key ≡ true
    → quoted (evaluate (some flag) user_id) flag ≡ flag.key ++ b':' ∷ user_id
unfolding quoted
quoted_lem flag user_id h =
    ap (λ t. flag.key ++ b':' ∷ join b':' (drop 1 (split b':' t))) (hash_input_lem flag user_id)
    ∙ ap (λ u. flag.key ++ b':' ∷ u) (join-drop-split b':' flag.key user_id (no_colon flag.key h))

-- When the third step shows a roll, for a key of letters, digits and hyphens, the bucket is the
-- user's, the sign agrees with comparing it to the percentage, and the quoted text is the one
-- that is hashed: the key, a colon and the user.
pub rollout_step_rolled :
    (flag : EvaluableFlag) (user_id : Text) (b : Option ℕ) (on : Bool) (p : ℤ) (q : Text)
    → every is_key_char flag.key ≡ true
    → (rollout_step (evaluate (some flag) user_id) flag).detail ≡ rolled b on p q
    → (b ≡ some (rollout_bucket flag.key user_id))
      × (on ≡ ltb_ℤ (pos (rollout_bucket flag.key user_id)) flag.rollout_percentage)
      × (p ≡ flag.rollout_percentage)
      × (q ≡ flag.key ++ b':' ∷ user_id)
unfolding evaluate rollout_step
rollout_step_rolled flag user_id b on p q h e = ground (arith, quoted_lem flag user_id h)
