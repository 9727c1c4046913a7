-- ===== src/Overview/Stats.antt =====
-- The statistics of frontend/app/page.tsx.
use feature_flag_system.Prelude.{
  ℕ, ◌+◌, ◌-◌, ◌*◌, ◌/◌, ◌∷◌, [], List, Option, none, some, ℤ, pos, negsuc, pos_part, neg_part, leb,
  ltb, keep, length, ◌==◌, if◌then◌else◌,
}
use feature_flag_system.Types.{Flag}

-- The sum of the percentages, as what is added and what is taken away.
unfoldable pub rollout_sum : List Flag → ℕ × ℕ
rollout_sum [] = (0, 0)
rollout_sum (f ∷ fs) =
    let rest = rollout_sum fs in
    (pos_part f.rollout_percentage + rest.0, neg_part f.rollout_percentage + rest.1)

abbrev minus : ℕ → ℤ
minus n = if n == 0 then pos 0 else negsuc (n - 1)

-- `Math.round((up - down) / n)` for `n` above 0: a half is rounded up.
abbrev pub rounded : ℕ × ℕ → ℕ → ℤ
rounded (up, down) n =
    if leb down up
    then pos ((2 * (up - down) + n) / (2 * n))
    else minus ((2 * (down - up) + n - 1) / (2 * n))

pub record Stats : Type 0 where
  pub total : ℕ
  pub enabled : ℕ
  pub enabled_hint : Option ℕ
  pub average_rollout : ℤ
  pub targeted : ℕ

-- The four tiles; the query's flags may be missing, which counts as none.
unfoldable pub stats : List Flag → Stats
unfolding rollout_sum
stats flags =
    let total = length flags in
    record {
      total = total;
      enabled = length (keep (λ f. f.enabled) flags);
      enabled_hint = if total == 0 then none else some total;
      average_rollout = if total == 0 then pos 0 else rounded (rollout_sum flags) total;
      targeted = length (keep (λ f. ltb 0 (length f.targeted_users)) flags);
    }
