-- ===== src/Explain/Why.antt =====
-- frontend/components/explain/WhyExplainer.tsx: the three steps that explain a verdict. A detail
-- is a fixed text, or the roll with its comparison and the text that it quotes.
pub mod Honest
use feature_flag_system.Prelude.{
  ◌≡◌, refl, ◌++◌, ◌∷◌, [], ℕ, Text, Bool, true, false, not, ◌&&◌, ◌||◌, List, Option, none, some,
  ℤ, codes, is_empty, trim, if◌then◌else◌, drop, split, join, arith,
}
use feature_flag_system.Evaluate.{
  EvalTrace, EvalReason, EvaluableFlag, evaluate, no_flag, disabled, targeted, rollout_zero,
  rollout_full, in_rollout, out_of_rollout,
}

pub data StepStatus : Type 0 where
  pass fail skipped : StepStatus

pub data Detail : Type 0 where
  said : Text → Detail
  -- The bucket, whether it is below ("<") or not ("≥"), the percentage, and the quoted text.
  rolled : Option ℕ → Bool → ℤ → Text → Detail

pub record Step : Type 0 where
  pub label : Text
  pub detail : Detail
  pub status : StepStatus

-- `t.reason === r`
abbrev pub is_full : EvalReason → Bool
is_full rollout_full = true
is_full _ = false

abbrev pub is_zero : EvalReason → Bool
is_zero rollout_zero = true
is_zero _ = false

abbrev pub is_targeted : EvalReason → Bool
is_targeted targeted = true
is_targeted _ = false

-- "${flag.key}:${t.hashInput.split(":").slice(1).join(":")}"
unfoldable pub quoted : EvalTrace → EvaluableFlag → Text
quoted t flag = flag.key ++ b':' ∷ join b':' (drop 1 (split b':' t.hash_input))

unfoldable pub enabled_step : EvaluableFlag → Step
enabled_step flag = record {
  label = codes "Is the flag enabled?";
  detail = said (
      if flag.enabled
      then codes "Yes — the flag is on globally, so evaluation continues."
      else codes "No — the flag is off for everyone (a global kill switch). Nothing else matters.");
  status = if flag.enabled then pass else fail;
}

unfoldable pub targeting_step : EvalTrace → EvaluableFlag → Step
targeting_step t flag = record {
  label = codes "Is this user targeted?";
  detail = said (
      if not flag.enabled
      then codes "Not reached — the flag is disabled."
      else if t.targeted
      then codes "Yes — this user is on the always-on allow-list, which overrides the percentage."
      else codes "No — not on the allow-list, so it comes down to the rollout dice roll.");
  status = if not flag.enabled then skipped else if t.targeted then pass else fail;
}

rollout_outcome : EvalTrace → EvaluableFlag → StepStatus × Detail
unfolding quoted
rollout_outcome t flag =
    if not (flag.enabled && not t.targeted)
    then (
      skipped,
      said (
          if not flag.enabled
          then codes "Not reached — the flag is disabled."
          else codes "Not reached — targeting already decided it (ON)."),
    )
    else if is_full t.reason
    then (pass, said (codes "Rollout is 100% — everyone is in."))
    else if is_zero t.reason
    then (fail, said (codes "Rollout is 0% — no one is in (via the percentage)."))
    else (if t.on then pass else fail, rolled t.bucket t.on t.percentage (quoted t flag))

unfoldable pub rollout_step : EvalTrace → EvaluableFlag → Step
unfolding rollout_outcome
rollout_step t flag = record {
  label = codes "Inside the rollout percentage?";
  detail = (rollout_outcome t flag).1;
  status = (rollout_outcome t flag).0;
}

unfoldable pub build_steps : EvalTrace → EvaluableFlag → List Step
unfolding enabled_step targeting_step rollout_step
build_steps t flag = enabled_step flag ∷ targeting_step t flag ∷ rollout_step t flag ∷ []

unfoldable pub reason_copy : EvalReason → Text
reason_copy no_flag = codes "This flag doesn't exist, so it's off."
reason_copy disabled = codes "The flag is disabled globally."
reason_copy targeted = codes "This user is targeted — an always-on override."
reason_copy rollout_zero = codes "Rollout is 0% and the user isn't targeted."
reason_copy rollout_full = codes "Rollout is 100% — everyone's in."
reason_copy in_rollout = codes "The user's fixed bucket falls inside the rollout."
reason_copy out_of_rollout = codes "The user's fixed bucket falls outside the rollout."

-- What the card shows for the text typed into it.
pub record Explanation : Type 0 where
  pub shown_user : Text
  pub verdict : Bool
  pub copy : Text
  pub steps : List Step

unfoldable pub explain : EvaluableFlag → Text → Explanation
unfolding build_steps reason_copy
explain flag user =
    let trimmed = trim user in
    let trace = evaluate (some flag) trimmed in
    record {
      shown_user = if is_empty trimmed then codes "—" else trimmed;
      verdict = trace.on;
      copy = reason_copy trace.reason;
      steps = build_steps trace flag;
    }
