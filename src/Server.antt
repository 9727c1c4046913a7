-- ===== src/Server.antt =====
-- backend/internal: what the server keeps, and its operations. The tables of backend/migrations
-- as lists of rows, in the order in which they were inserted, and the sequence of versions.
pub mod Rows
pub mod Repository
pub mod Service
pub mod Sound
pub mod Listing
pub mod Serving
pub mod Announced
pub mod Saves
pub mod Races
pub mod Torn
pub mod Forms
pub mod Broker
pub mod Handlers
pub mod Rollout
pub mod Queries
pub mod Overlap
mod Codec
mod Tests
use feature_flag_system.Prelude.{
  ℕ, Text, Bool, true, false, ◌&&◌, ◌||◌, not, List, [], ◌∷◌, Option, none, some, ℤ, pos, leb,
  leb_ℤ, ltb, suc, if◌then◌else◌, text_eq,
}
use feature_flag_system.Types.{Flag, FlagConfig, FlagEvent}

-- `flags` is `feature_flags`, `events` is `flag_events`, and `sequence` the last number that
-- `config_version_seq` gave out.
pub record Store : Type 0 where
  pub flags : List Flag
  pub events : List FlagEvent
  pub sequence : ℕ

abbrev pub empty_store : Store
empty_store = record { flags = []; events = []; sequence = 0 }

-- `ToResponse` without the times, which are not part of a configuration.
unfoldable pub to_config : Flag → FlagConfig
to_config f = record {
  id = f.id;
  key = f.key;
  description = f.description;
  enabled = f.enabled;
  rollout_percentage = f.rollout_percentage;
  targeted_users = f.targeted_users;
  version = f.version;
}

-- `SELECT ... WHERE id = $1`
unfoldable pub get_by_id : Text → List Flag → Option Flag
get_by_id id [] = none
get_by_id id (r ∷ rs) = let rest = get_by_id id rs in if text_eq r.id id then some r else rest

-- `SELECT ... WHERE key = $1`
unfoldable pub get_by_key : Text → List Flag → Option Flag
get_by_key k [] = none
get_by_key k (r ∷ rs) = let rest = get_by_key k rs in if text_eq r.key k then some r else rest

-- `UPDATE ... WHERE id`, on the row that has the new row's id; the id is the primary key.
unfoldable pub put_row : Flag → List Flag → List Flag
put_row r [] = []
put_row r (x ∷ xs) = let rest = put_row r xs in if text_eq x.id r.id then r ∷ xs else x ∷ rest

-- `DELETE ... WHERE id = $1`
unfoldable pub delete_row : Text → List Flag → List Flag
delete_row id [] = []
delete_row id (x ∷ xs) = let rest = delete_row id xs in if text_eq x.id id then xs else x ∷ rest

-- The characters of a text: a low surrogate continues the one before it.
unfoldable pub characters : Text → ℕ
characters [] = 0
characters (c ∷ s) =
    let rest = characters s in if leb 56320 c && leb c 57343 then rest else suc rest

-- The columns' own conditions: `VARCHAR(64)`, `VARCHAR(256)` and the `CHECK` on the percentage.
unfoldable pub is_storable : Flag → Bool
unfolding characters
is_storable f =
    leb (characters f.key) 64
    && leb (characters f.description) 256
    && leb_ℤ (pos 0) f.rollout_percentage
    && leb_ℤ f.rollout_percentage (pos 100)
