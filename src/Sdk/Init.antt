-- ===== src/Sdk/Init.antt =====
-- `init` and `bootstrap` of frontend/sdk/FeatureFlagClient.ts, cut where they wait for the
-- snapshot: `init` runs up to the request, and `init_rest` from the answer on.
use feature_flag_system.Prelude.{
  ℕ, zero, suc, ◌∷◌, [], Bool, true, false, List, Option, none, some, Dict, set, or_else,
}
use feature_flag_system.Types.{FlagConfig}
use feature_flag_system.Sdk.Client.{Client, connecting, timer_set, set_status, connect_sse}

-- The answer to the request for a snapshot: an exception, no success, or the flags, with
-- `config_version` where it is a number.
pub data Snapshot : Type 0 where
  thrown refused : Snapshot
  snapshot : List FlagConfig → Option ℕ → Snapshot

unfoldable pub init : Client → Client
init c = set_status connecting c

unfoldable pub set_all : List FlagConfig → Dict FlagConfig → Dict FlagConfig
set_all [] m = m
set_all (f ∷ fs) m = set_all fs (set f.key f m)

-- `none` is the promise rejected: the client keeps what it had.
unfoldable pub bootstrap : Snapshot → Client → Option Client
bootstrap thrown c = none
bootstrap refused c = none
bootstrap (snapshot flags version) c =
    some (record c { flags = set_all flags []; config_version = or_else version c.config_version })

-- A refresh interval of 0 counts as none.
abbrev pub start_timer : Option ℕ → Client → Client
start_timer none c = c
start_timer (some zero) c = c
start_timer (some (suc n)) c = record c { refresh_timer = true; effects = timer_set ∷ c.effects }

-- The client after the answer, and whether `init` was fulfilled.
unfoldable pub init_rest : Snapshot → Client → Client × Bool
init_rest answer c = elim (bootstrap answer c) [
  | none ↦ (c, false)
  | some c' ↦ (start_timer c'.refresh_interval (connect_sse c'), true)
]
