-- ===== src/Sdk/Tests.antt =====
-- One concrete history of the SDK, and the theorems at it.
use mathlib.Core.List.{Memᴰ}
use mathlib.Core.Option
use feature_flag_system.Prelude.{
  ◌*◌, length, remove, includes, ℕ, ◌≤◌, ◌≡◌, refl, ◌++◌, ◌∷◌, [], pos, Text, codes, Bool, true,
  false, List, none, some, arith, get, set, text_eq, parse_int, All,
}
use feature_flag_system.Types.{FlagConfig, FlagEvent, full, stub, created, updated, deleted}
use feature_flag_system.Sdk.Client.{
  Client, notify_listeners, new_client, live, set_status, connect_sse, is_enabled,
}
use feature_flag_system.Sdk.Init.{init, init_rest, snapshot, bootstrap, set_all}
use feature_flag_system.Sdk.Reconcile.{Pending, reconcile}
use feature_flag_system.Sdk.Stream.{on_open, on_error, on_message, event_version, apply_event}
use feature_flag_system.Sdk.Log.{no_flags, state_at, after, latest, Above}
use feature_flag_system.Sdk.System.{
  Step, System, Reach, here, next, commit, receive, after_callback, message_of, IsKeyed,
  to_disconnect, to_reconnect,
}
use feature_flag_system.Sdk.System.Faithful.{IsFaithful}
use feature_flag_system.Sdk.System.Reachable.{start, never_wrong, never_regress}
use feature_flag_system.Sdk.System.Decision.{decides_by_log}
use feature_flag_system.Sdk.CatchUp.{drive, page_limit}
use feature_flag_system.Sdk.CatchUp.Run.{IsCaughtUp, reconcile_catches_up}
use feature_flag_system.Sdk.Deaf.{PatientReach, revived, revived-on_error}
use feature_flag_system.Sdk.Streams.{streams-IsBalanced, IsBalanced, run_calls}
use feature_flag_system.Evaluate.{evaluate}
use feature_flag_system.Evaluate.Parity.{as_evaluable}

abbrev beta : Text
beta = codes "beta"

abbrev pub beta_at : Bool → ℕ → FlagConfig
beta_at enabled version = record {
  id = codes "1";
  key = beta;
  description = [];
  enabled = enabled;
  rollout_percentage = pos 50;
  targeted_users = codes "ann" ∷ [];
  version = version;
}

abbrev pub at_first : FlagEvent
at_first = record {
  version = 1;
  event_type = created;
  flag_key = beta;
  payload = full (beta_at false 1);
  created_at = [];
}

abbrev turned_on : FlagEvent
turned_on = record {
  version = 2;
  event_type = updated;
  flag_key = beta;
  payload = full (beta_at true 2);
  created_at = [];
}

abbrev pub gone : FlagEvent
gone = record {
  version = 3;
  event_type = deleted;
  flag_key = beta;
  payload = stub (codes "1") beta;
  created_at = [];
}

abbrev history : List FlagEvent
history = at_first ∷ turned_on ∷ []

abbrev pub fresh : Client
fresh = init (new_client none)

abbrev waiting : Pending
waiting = record { prev_status = live; changed = false; guard = 0; since = 2 }

abbrev s0 : System
s0 = start fresh (beta_at true 2 ∷ []) 2 history

abbrev s1 : System
s1 = record s0 { log = history ++ gone ∷ [] }

abbrev s2 : System
s2 = after_callback s1 (on_message (message_of (codes "3") gone) s1.client)

history-consistent :
    (k : Text) → get k (set_all (beta_at true 2 ∷ []) []) ≡ state_at 2 history no_flags k
unfolding get set set_all state_at
history-consistent k = ground arith

s0-s1 : Reach s0 s1
unfolding latest
s0-s1 = next here (commit gone (omega arith) refl)

s1-s2 : Reach s1 s2
unfolding parse_int
s1-s2 = next here (receive gone (codes "3") (Memᴰ.tail (Memᴰ.tail (Memᴰ.head refl))) refl)

s0-s2 : Reach s0 s2
unfolding parse_int
s0-s2 = next s0-s1 (receive gone (codes "3") (Memᴰ.tail (Memᴰ.tail (Memᴰ.head refl))) refl)

history-Above : Above 0 history
history-Above = omega arith

history-IsKeyed : All IsKeyed history
history-IsKeyed = (refl, (refl, tt))

known : 2 ≤ latest history
unfolding latest
known = omega arith

never_wrong_example :
    ((k : Text) → get k s2.client.flags ≡ state_at s2.client.config_version s2.log no_flags k)
    × (s2.client.config_version ≤ latest s2.log)
never_wrong_example =
    never_wrong fresh (beta_at true 2 ∷ []) 2 history history-Above history-IsKeyed
      history-consistent known s0-s2

never_regress_example : s1.client.config_version ≤ s2.client.config_version
never_regress_example =
    never_regress fresh (beta_at true 2 ∷ []) 2 history history-Above history-IsKeyed
      history-consistent known s0-s1 s1-s2

decides_by_log_example :
    is_enabled s2.client beta (codes "ann")
    ≡ (evaluate
        (Option.map as_evaluable (state_at s2.client.config_version s2.log no_flags beta))
        (codes "ann")).on
decides_by_log_example =
    decides_by_log fresh (beta_at true 2 ∷ []) 2 history history-Above history-IsKeyed
      history-consistent known s0-s2 beta (codes "ann")

-- Before the deletion arrives the listed user is on, and afterwards nobody is.
decisions :
    (is_enabled s1.client beta (codes "ann") ≡ true)
    × (is_enabled s2.client beta (codes "ann") ≡ false)
    × (s2.client.config_version ≡ 3)
    × (s2.client.status ≡ live)
unfolding is_enabled get set_all bootstrap init_rest init new_client connect_sse on_message
    parse_int event_version apply_event remove includes text_eq notify_listeners set_status set
decisions = (refl, refl, refl, refl)

new_client-idle : (new_client none).is_reconciling ≡ false
unfolding new_client
new_client-idle = refl

new_client-IsFaithful : IsFaithful history (new_client none)
unfolding new_client get state_at
new_client-IsFaithful k = refl

new_client-behind : length (after (new_client none).config_version history) ≤ 10000 * page_limit 1
unfolding new_client after page_limit
new_client-behind = omega arith

reconcile_catches_up_example :
    IsCaughtUp history (drive 10000 history 1 (reconcile (new_client none)))
reconcile_catches_up_example =
    reconcile_catches_up history 1 history-Above (new_client none) new_client-idle
      new_client-IsFaithful new_client-behind

streams-IsBalanced_example : IsBalanced (
    run_calls
      (to_disconnect ∷ to_reconnect ∷ [])
      (init_rest (snapshot [] none) (run_calls (to_reconnect ∷ []) (init (new_client none)))).0)
streams-IsBalanced_example =
    streams-IsBalanced none (snapshot [] none) (to_reconnect ∷ [])
      (to_disconnect ∷ to_reconnect ∷ [])

-- A client that is in use, with the request of its first replay under way.
abbrev in_use : System
in_use =
    let c = (init_rest (snapshot [] (some 4)) (init (new_client none))).0 in
    after_callback (record { client = c; pending = none; log = history }) (on_open c)

-- The client destroyed and revived, with its new stream open.
abbrev in_use_revived : System
in_use_revived = revived in_use.client in_use.pending [] (some 4) history

abbrev revived_open : System
revived_open = after_callback in_use_revived (on_open in_use_revived.client)

revived-on_error_example :
    (in_use_revived.client.event_source ≡ some in_use.client.next_source)
    × (on_error 0 true revived_open.client ≡ revived_open.client)
revived-on_error_example =
    revived-on_error in_use.client in_use.pending [] (some 4) history
      (PatientReach.next PatientReach.here Step.opened tt) 0 true
