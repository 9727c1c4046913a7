-- ===== src/Overview/View.antt =====
-- The tiles and cards of frontend/app/page.tsx.
use feature_flag_system.Prelude.{ℕ, ◌∷◌, [], Text, codes, List, Option, none, some, ℤ}
use feature_flag_system.Types.{Flag}
use feature_flag_system.Overview.Stats.{stats}

-- The value of a tile, and the number of its hint "of n".
pub data TileValue : Type 0 where
  number : ℕ → TileValue
  percent : ℤ → TileValue

pub record StatTile : Type 0 where
  pub label : Text
  pub value : TileValue
  pub hint : Option ℕ

abbrev stat_tile : Text → TileValue → Option ℕ → StatTile
stat_tile label value hint = record { label = label; value = value; hint = hint }

-- The four tiles; the flags are missing until the query's first answer.
unfoldable pub inventory : Option (List Flag) → List StatTile
inventory flags =
    let s = stats (elim flags [ none ↦ [] | some fs ↦ fs ]) in
    stat_tile (codes "Total flags") (number s.total) none
    ∷ stat_tile (codes "Enabled") (number s.enabled) s.enabled_hint
    ∷ stat_tile (codes "Avg rollout") (percent s.average_rollout) none
    ∷ stat_tile (codes "With targeting") (number s.targeted) none
    ∷ []

pub data ButtonVariant : Type 0 where
  default secondary : ButtonVariant

pub record ActionCard : Type 0 where
  pub title : Text
  pub description : Text
  pub href : Text
  pub cta : Text
  pub variant : ButtonVariant

abbrev pub action_cards : List ActionCard
action_cards =
    record {
      title = codes "Manage flags";
      description = codes "Create, roll out, target, and toggle feature flags.";
      href = codes "/flags";
      cta = codes "Open flags";
      variant = default;
    }
    ∷ record {
      title = codes "Try the demo";
      description = codes "See per-user local evaluation as flags change live.";
      href = codes "/demo";
      cta = codes "Open demo";
      variant = secondary;
    }
    ∷ []
