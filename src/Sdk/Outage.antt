-- ===== src/Sdk/Outage.antt =====
-- What `disconnect`, `destroy` and an answer that was under way do to one another, in
-- frontend/sdk/FeatureFlagClient.ts.
use feature_flag_system.Prelude.{ℕ, ◌≡◌, [], List, true, Option, none, some, arith}
use feature_flag_system.Types.{FlagConfig}
use feature_flag_system.Sdk.Client.{
  Client, live, notify_listeners, connect_sse, disconnect, destroy,
}
use feature_flag_system.Sdk.Reconcile.{Pending, events, reconcile_page, finish}
use feature_flag_system.Sdk.Init.{snapshot, init_rest, bootstrap}

-- A reconciliation under way when the caller disconnects: its last, empty page shows the client
-- as live, though its stream is closed and the caller asked for an outage.
pub disconnect-answered :
    (c : Client) (p : Pending)
    → let d = (reconcile_page (events []) p (disconnect c)).0 in
      (d.status ≡ live) × (d.event_source ≡ none) × (d.manually_closed ≡ true)
unfolding reconcile_page finish disconnect notify_listeners
disconnect-answered c p = ground arith

-- A client destroyed while its snapshot was under way opens a stream when the snapshot comes,
-- whatever the snapshot holds, and nothing closes that stream: the client keeps it.
pub destroy-answered :
    (c : Client) (fs : List FlagConfig) (v : Option ℕ)
    → let d = (init_rest (snapshot fs v) (destroy c)).0 in
      (d.event_source ≡ some c.next_source) × (d.manually_closed ≡ true)
unfolding init_rest bootstrap destroy connect_sse
destroy-answered c fs v = ground arith
