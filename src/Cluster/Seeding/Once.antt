-- ===== src/Cluster/Seeding/Once.antt =====
-- How often the heroes create the demo flag.
use feature_flag_system.Prelude.{
  ◌≡◌, refl, ◌∷◌, [], ℕ, suc, ◌+◌, ◌≤◌, Text, Bool, true, false, ◌||◌, List, some, is_none, length,
  arith,
}
use feature_flag_system.Cluster.Seeding.{
  Seeding, seed, Happening, brings, succeeds, fails, happen, happen_all, unseeded, hero_flag,
}

abbrev pub failures : List Happening → ℕ
failures [] = 0
failures (fails ∷ xs) = suc (failures xs)
failures (_ ∷ xs) = failures xs

abbrev pub lacks : Happening → Bool
lacks (brings flags) = is_none (hero_flag (some flags))
lacks _ = false

abbrev pub any_lacks : List Happening → Bool
any_lacks [] = false
any_lacks (x ∷ xs) = lacks x || any_lacks xs

abbrev pub to_bit : Bool → ℕ
to_bit true = 1
to_bit false = 0

bounded :
    (description : Text) (xs : List Happening) (s : Seeding)
    → length (happen_all description xs s).sent + to_bit s.seeding ≤ length s.sent + 1 + failures xs
unfolding happen_all happen seed
bounded description [] s = ground arith
bounded description (brings flags ∷ xs) s =
    ground (arith, bounded description xs (seed description (record s { flags = some flags })))
bounded description (succeeds ∷ xs) s =
    bounded description xs (record s { invalidations = suc s.invalidations })
bounded description (fails ∷ xs) s =
    ground (arith, bounded description xs (record s { seeding = false }))

none_sent :
    (description : Text) (xs : List Happening) (s : Seeding)
    → any_lacks xs ≡ false
    → length (happen_all description xs s).sent ≡ length s.sent
unfolding happen_all happen seed
none_sent description [] s h = refl
none_sent description (brings flags ∷ xs) s h =
    ground (arith, none_sent description xs (seed description (record s { flags = some flags })))
none_sent description (succeeds ∷ xs) s h =
    none_sent description xs (record s { invalidations = suc s.invalidations }) h
none_sent description (fails ∷ xs) s h = none_sent description xs (record s { seeding = false }) h

-- However often the query brings flags, at most one creation is sent, and one more for each that
-- failed; and none is sent when the flag is among the flags each time.
pub seeded_once :
    (description : Text) (xs : List Happening)
    → (length (happen_all description xs unseeded).sent ≤ 1 + failures xs)
      × (any_lacks xs ≡ false → length (happen_all description xs unseeded).sent ≡ 0)
seeded_once description xs =
    (omega (arith, bounded description xs unseeded), none_sent description xs unseeded)
