-- ===== src/Sdk/Late/Tests.antt =====
-- A flag that is created late, below a deletion that the client has taken over with its snapshot.
use mathlib.Core.List.{Memᴰ}
use feature_flag_system.Prelude.{
  true, ◌≡◌, refl, ◌≤◌, [], ◌∷◌, ◌++◌, Text, codes, List, get, parse_int, arith,
}
use feature_flag_system.Types.{FlagConfig, FlagEvent, created, full}
use feature_flag_system.Sdk.Client.{new_client, connect_sse, set_status}
use feature_flag_system.Sdk.Init.{set_all, init, init_rest, bootstrap}
use feature_flag_system.Sdk.Stream.{on_message}
use feature_flag_system.Sdk.Log.{latest, no_flags, state_at}
use feature_flag_system.Sdk.System.{System, Reach, here, next, receive, after_callback, message_of}
use feature_flag_system.Sdk.System.Reachable.{start}
use feature_flag_system.Sdk.Late.{late_commit_lost}
use feature_flag_system.Sdk.Tests.{at_first, gone, beta_at, fresh}

abbrev gamma : FlagConfig
gamma = record (beta_at true 2) { key = codes "gamma" }

abbrev created_late : FlagEvent
created_late = record {
  version = 2;
  event_type = created;
  flag_key = codes "gamma";
  payload = full gamma;
  created_at = [];
}

abbrev log : List FlagEvent
log = at_first ∷ gone ∷ []

abbrev before : System
before = start fresh [] 3 log

abbrev committed : System
committed = record before { log = at_first ∷ created_late ∷ gone ∷ [] }

abbrev told : System
told = after_callback committed (on_message (message_of (codes "2") created_late) committed.client)

committed-told : Reach committed told
unfolding parse_int
committed-told = next here (receive created_late (codes "2") (Memᴰ.tail (Memᴰ.head refl)) refl)

log-consistent : (k : Text) → get k (set_all [] []) ≡ state_at 3 log no_flags k
unfolding get set_all state_at
log-consistent k = ground arith

log-known : 3 ≤ latest log
unfolding latest
log-known = omega arith

created_late-passed : created_late.version ≤ before.client.config_version
unfolding init_rest bootstrap connect_sse init set_status new_client
created_late-passed = omega arith

late_commit_lost_example :
    (rest : List FlagEvent) × (told.log ≡ (at_first ∷ []) ++ created_late ∷ rest)
    × ((k : Text)
        → get k told.client.flags
          ≡ state_at told.client.config_version ((at_first ∷ []) ++ rest) no_flags k)
late_commit_lost_example =
    late_commit_lost fresh [] 3 log (omega arith, (omega arith, tt)) (refl, (refl, tt))
      log-consistent log-known before here refl created_late (at_first ∷ []) (gone ∷ []) refl refl
      created_late-passed told committed-told
