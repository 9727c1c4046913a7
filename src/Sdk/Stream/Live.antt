-- ===== src/Sdk/Stream/Live.antt =====
-- `applyEvent`, branch by branch.
use feature_flag_system.Prelude.{◌<◌, ◌≤◌, ◌≡◌, ◌+◌, suc, ℕ, pos, arith, none, Dict}
use feature_flag_system.Types.{FlagConfig}
use feature_flag_system.Sdk.Client.{Client, live, set_status, notify_listeners}
use feature_flag_system.Sdk.Reconcile.{reconcile}
use feature_flag_system.Sdk.Stream.{apply_event}

module _ (version : ℕ) (mutate : Dict FlagConfig → Dict FlagConfig) (c : Client) where
  pub apply_event-stale :
      version ≤ c.config_version → apply_event (pos version) mutate c ≡ (c, none)
  unfolding apply_event
  apply_event-stale h = ground arith

  pub apply_event-gap :
      c.config_version + 1 < version → apply_event (pos version) mutate c ≡ reconcile c
  unfolding apply_event
  apply_event-gap h = ground arith

  pub apply_event-next :
      version ≡ suc c.config_version
      → apply_event (pos version) mutate c ≡ (
        notify_listeners
            (set_status live (record c { flags = mutate c.flags; config_version = version })),
        none,
      )
  unfolding apply_event
  apply_event-next h = ground arith
