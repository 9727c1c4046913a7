-- ===== src/Prelude/Splits.antt =====
-- `s.split(sep)` and `parts.join(sep)` for a separator of one code unit.
use Prim.Native.Nat.{ℕ}
use mathlib.Core.Path.{◌≡◌, refl, ap, ◌∙◌}
use mathlib.Core.Bool.{true, not}
use mathlib.Core.List.{List, [], ◌∷◌, ◌++◌}
use native.Mathlib.Omega.{arith}
use feature_flag_system.Prelude.Tests.{◌==◌, if◌then◌else◌, ==_iff}
use feature_flag_system.Prelude.Lists.{every, drop}
use feature_flag_system.Prelude.Texts.{Text}

-- The part before the first separator, and the later parts.
unfoldable pieces : ℕ → Text → Text × List Text
pieces c [] = ([], [])
pieces c (a ∷ s) = let r = pieces c s in if a == c then ([], r.0 ∷ r.1) else (a ∷ r.0, r.1)

unfoldable pub split : ℕ → Text → List Text
unfolding pieces
split c s = (pieces c s).0 ∷ (pieces c s).1

unfoldable join_from : ℕ → Text → List Text → Text
join_from c p [] = p
join_from c p (q ∷ ps) = p ++ c ∷ join_from c q ps

unfoldable pub join : ℕ → List Text → Text
unfolding join_from
join c [] = []
join c (p ∷ ps) = join_from c p ps

join_from-cons :
    (c a : ℕ) (p : Text) (ps : List Text) → join_from c (a ∷ p) ps ≡ a ∷ join_from c p ps
unfolding join_from
join_from-cons c a p [] = refl
join_from-cons c a p (q ∷ ps) = refl

join-pieces : (c : ℕ) (s : Text) → join_from c (pieces c s).0 (pieces c s).1 ≡ s
unfolding pieces join_from
join-pieces c [] = refl
join-pieces c (a ∷ s) =
    ground (arith, ==_iff a c, join-pieces c s, join_from-cons c a (pieces c s).0 (pieces c s).1)

pub join-split : (c : ℕ) (s : Text) → join c (split c s) ≡ s
unfolding join split
join-split c s = join-pieces c s

pieces-append :
    (c : ℕ) (k s : Text)
    → every (λ a. not (a == c)) k ≡ true
    → (pieces c (k ++ c ∷ s)).1 ≡ split c s
unfolding pieces split
pieces-append c [] s h = ground (arith, ==_iff c c)
pieces-append c (a ∷ k) s h = ground (arith, pieces-append c k s)

-- `(k + sep + s).split(sep).slice(1).join(sep)`
pub join-drop-split :
    (c : ℕ) (k s : Text)
    → every (λ a. not (a == c)) k ≡ true
    → join c (drop 1 (split c (k ++ c ∷ s))) ≡ s
unfolding split
join-drop-split c k s h = ap (join c) (pieces-append c k s h) ∙ join-split c s
