-- ===== src/Overview/Average.antt =====
-- The mean that the overview shows.
use native.Mathlib.Nat.{div-lt_iff_lt-mul}
use feature_flag_system.Prelude.{
  ℕ, ◌+◌, ◌*◌, ◌/◌, ◌<◌, ◌≤◌, ◌∷◌, [], Bool, true, false, List, ℤ, pos, negsuc, pos_part, neg_part,
  ◌≡◌, refl, ap, sym, subst, arith, All, length, ◌==◌, if◌then◌else◌,
}
use feature_flag_system.Types.{Flag}
use feature_flag_system.Flags.Form.Submit.{IsPercentage}
use feature_flag_system.Overview.Stats.{stats, rollout_sum, rounded}

parts : (p : ℤ) → IsPercentage p → (pos_part p ≤ 100) × (neg_part p ≡ 0)
parts (pos n) h = (omega (arith, h), refl)
parts (negsuc n) h = absurd (omega (arith, h))

rollout_sum_bounds :
    (flags : List Flag)
    → All (λ f. IsPercentage f.rollout_percentage) flags
    → ((rollout_sum flags).0 ≤ 100 * length flags) × ((rollout_sum flags).1 ≡ 0)
unfolding rollout_sum
rollout_sum_bounds [] h = (omega arith, refl)
rollout_sum_bounds (f ∷ fs) h =
    let (up, down) = rollout_sum_bounds fs h.1 in
    let (most, least) = parts f.rollout_percentage h.0 in (omega arith, omega arith)

rounded-IsPercentage : (up n : ℕ) → 0 < n → up ≤ 100 * n → IsPercentage (rounded (up, 0) n)
rounded-IsPercentage up n some_flag h =
    let below : (2 * up + n) / (2 * n) < 101 = (div-lt_iff_lt-mul (omega arith)).1 (omega arith) in
    ground arith

-- Where every flag's percentage lies within 0 and 100, so does the mean that the overview shows.
pub stats-IsPercentage :
    (flags : List Flag)
    → All (λ f. IsPercentage f.rollout_percentage) flags
    → IsPercentage (stats flags).average_rollout
unfolding stats
stats-IsPercentage flags h = go (length flags == 0) refl
  where
    mean : ℤ
    mean = rounded (rollout_sum flags) (length flags)

    go : (b : Bool) → (length flags == 0) ≡ b → IsPercentage (if b then pos 0 else mean)
    go true none_yet = (omega arith, omega arith)
    go false some_flags =
        let (up, down) = rollout_sum_bounds flags h in
        let same : rounded (rollout_sum flags) (length flags)
            ≡ rounded ((rollout_sum flags).0, 0) (length flags) =
          ap (λ d. rounded ((rollout_sum flags).0, d) (length flags)) down in
        subst IsPercentage (sym same)
          (rounded-IsPercentage (rollout_sum flags).0 (length flags) (ground arith) up)
