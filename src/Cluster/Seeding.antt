-- ===== src/Cluster/Seeding.antt =====
-- The effect that creates the demo flag, the same in frontend/components/cluster/ClusterHero.tsx
-- and frontend/components/overview/PropagationHero.tsx. It runs after each render in which the
-- flags or the flag found among them changed; the answer to a creation comes later.
pub mod Once
use feature_flag_system.Prelude.{
  ◌≡◌, refl, ◌∷◌, [], ℕ, suc, ◌+◌, Text, Bool, true, false, not, ◌&&◌, ◌||◌, List, Option, none,
  some, is_none, if◌then◌else◌, find, text_eq, codes, pos,
}
use feature_flag_system.Types.{Flag, CreateFlagInput}

-- `data?.flags`, `seedingRef`, and the creations sent, the newest first.
pub record Seeding : Type 0 where
  pub flags : Option (List Flag)
  pub seeding : Bool
  pub sent : List CreateFlagInput
  pub invalidations : ℕ

abbrev pub hero_key : Text
hero_key = codes "hero-demo"

-- `data?.flags.find((f) => f.key === HERO_KEY)`
unfoldable pub hero_flag : Option (List Flag) → Option Flag
hero_flag none = none
hero_flag (some flags) = find (λ f. text_eq f.key hero_key) flags

-- The input of the creation; the two heroes differ in the description.
abbrev pub hero_input : Text → CreateFlagInput
hero_input description = record {
  key = hero_key;
  description = description;
  enabled = false;
  rollout_percentage = pos 100;
  targeted_users = [];
}

-- The effect.
unfoldable pub seed : Text → Seeding → Seeding
unfolding hero_flag
seed description s =
    if is_none s.flags || not (is_none (hero_flag s.flags)) || s.seeding
    then s
    else record s { seeding = true; sent = hero_input description ∷ s.sent }

-- What happens: the query brings flags, a creation succeeds, or it fails. The effect runs after
-- new flags; a failure changes no state that the effect depends on.
pub data Happening : Type 0 where
  brings : List Flag → Happening
  succeeds fails : Happening

unfoldable pub happen : Text → Happening → Seeding → Seeding
unfolding seed
happen description (brings flags) s = seed description (record s { flags = some flags })
happen description succeeds s = record s { invalidations = suc s.invalidations }
happen description fails s = record s { seeding = false }

unfoldable pub happen_all : Text → List Happening → Seeding → Seeding
happen_all description [] s = s
happen_all description (x ∷ xs) s = happen_all description xs (happen description x s)

abbrev pub unseeded : Seeding
unseeded = record { flags = none; seeding = false; sent = []; invalidations = 0 }
