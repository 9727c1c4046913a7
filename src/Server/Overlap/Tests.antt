-- ===== src/Server/Overlap/Tests.antt =====
-- Two toggles that cross, on the store of a short history.
use feature_flag_system.Prelude.{
  ◌≡◌, ◌∷◌, List, refl, suc, not, some, pos, codes, [], true, false, text_eq,
}
use feature_flag_system.Types.{Flag, FlagConfig}
use feature_flag_system.Sdk.Log.{no_flags}
use feature_flag_system.Server.{empty_store, get_by_id, get_by_key, is_storable, characters}
use feature_flag_system.Server.Repository.{create_row}
use feature_flag_system.Server.Service.{
  run_writes, run_write, create_flag, create_error, utf8_length,
}
use feature_flag_system.Server.Sound.{written}
use feature_flag_system.Server.Overlap.{by_version, toggling, TxStep, begins, ends, tx_steps}
use feature_flag_system.Server.Overlap.Unique.{IsUnique, tx_steps-IsUnique}
use feature_flag_system.Server.Overlap.Toggles.{crossed, overlapped_toggles}
use feature_flag_system.Server.Tests.{id1, noon, history}

abbrev beta_row : Flag
beta_row = record {
  id = id1;
  key = codes "beta";
  description = [];
  enabled = false;
  rollout_percentage = pos 50;
  targeted_users = [];
  version = 1;
  created_at = noon;
  updated_at = noon;
}

there : get_by_id id1 (run_writes history empty_store).flags ≡ some beta_row
unfolding run_writes run_write create_flag create_error utf8_length create_row is_storable get_by_id
    text_eq get_by_key
there = refl

storable : is_storable beta_row ≡ true
unfolding is_storable characters
storable = refl

overlapped_toggles_example :
    let t = crossed id1 noon noon (run_writes history empty_store) in
    ((r : Flag) × (get_by_id id1 t.flags ≡ some r)
      × (r.enabled ≡ beta_row.enabled)
      × (suc r.version ≡ t.sequence))
    × ((c : FlagConfig) × (written (by_version t.events) no_flags beta_row.key ≡ some c)
        × (c.enabled ≡ not beta_row.enabled)
        × (c.version ≡ t.sequence))
overlapped_toggles_example = overlapped_toggles history id1 noon noon beta_row there storable

-- The same two toggles, as steps.
abbrev crossing : List TxStep
crossing = begins (toggling id1) ∷ begins (toggling id1) ∷ ends 4 noon ∷ ends 3 noon ∷ []

tx_steps-IsUnique_example :
    IsUnique
      (tx_steps crossing
        record { store = run_writes history empty_store; pending = [] }).store.events
tx_steps-IsUnique_example = tx_steps-IsUnique history crossing
