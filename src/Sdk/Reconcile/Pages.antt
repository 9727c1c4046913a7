-- ===== src/Sdk/Reconcile/Pages.antt =====
-- The inner loop of `reconcile`, one event at a time.
use feature_flag_system.Prelude.{◌<◌, ◌≤◌, ◌≡◌, ◌∷◌, Bool, true, List, arith}
use feature_flag_system.Types.{FlagEvent}
use feature_flag_system.Sdk.Client.{Client}
use feature_flag_system.Sdk.Reconcile.{apply_page, write_event}

-- The client after an event.
abbrev pub applied : FlagEvent → Client → Client
applied e c = record c { flags = write_event e c.flags; config_version = e.version }

module _ (e : FlagEvent) (page : List FlagEvent) (c : Client) (changed advanced : Bool) where
  pub apply_page-old :
      e.version ≤ c.config_version
      → apply_page (e ∷ page) c changed advanced ≡ apply_page page c changed advanced
  unfolding apply_page
  apply_page-old h = ground arith

  pub apply_page-new :
      c.config_version < e.version
      → apply_page (e ∷ page) c changed advanced ≡ apply_page page (applied e c) true true
  unfolding apply_page
  apply_page-new h = ground arith
