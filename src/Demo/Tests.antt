-- ===== src/Demo/Tests.antt =====
-- One run of the demo page, and the theorems at it.
use feature_flag_system.Prelude.{◌∷◌, [], pos, codes, true, false, List, some, ◌≡◌, refl, arith}
use feature_flag_system.Types.{FlagConfig, FlagEvent, full, created, updated}
use feature_flag_system.Sdk.Client.{
  live, connecting, new_client, connect_sse, close_stream, set_status, call_all, on_update,
  on_status,
}
use feature_flag_system.Sdk.Init.{snapshot, init, init_rest, bootstrap, set_all, start_timer}
use feature_flag_system.Sdk.Stream.{on_open}
use feature_flag_system.Sdk.Reconcile.{Pending, thrown, events, reconcile}
use feature_flag_system.Demo.{
  DemoPage, Happening, snapshot_arrives, stream_opens, page_arrives, choose_user, happen_all, mount,
  open_demo, happen, page_listener, operate_pending, operate, init_answered, hear_all, hear,
}
use feature_flag_system.Demo.Shown.{status_shown}
use feature_flag_system.Demo.Silence.{write_events, last_version, broken_replay_unheard}

abbrev beta_on : FlagConfig
beta_on = record {
  id = codes "1";
  key = codes "beta";
  description = [];
  enabled = true;
  rollout_percentage = pos 100;
  targeted_users = [];
  version = 1;
}

abbrev beta_created : FlagEvent
beta_created = record {
  version = 1;
  event_type = created;
  flag_key = codes "beta";
  payload = full beta_on;
  created_at = [];
}

abbrev visit : List Happening
visit = snapshot_arrives (snapshot [] (some 0)) ∷ stream_opens ∷ choose_user (codes "user-2") ∷ []

status_shown_example : let p = happen_all visit (mount open_demo) in p.status ≡ p.client.status
status_shown_example = status_shown visit

abbrev beta_updated : FlagEvent
beta_updated = record beta_created {
  version = 2;
  event_type = updated;
  payload = full (record beta_on { version = 2 });
}

-- The mounted page while its client waits for the backlog.
abbrev asked : Pending
asked = record { prev_status = connecting; changed = false; guard = 0; since = 0 }

abbrev waiting : DemoPage
waiting = happen_all (snapshot_arrives (snapshot [] (some 0)) ∷ stream_opens ∷ []) (mount open_demo)

waiting-asked :
    (waiting.pending ≡ some asked)
    × (waiting.client.config_version ≡ 0)
    × (waiting.client.is_reconciling ≡ true)
    × (waiting.client.listeners ≡ page_listener ∷ [])
unfolding happen_all happen operate_pending operate init_answered mount hear_all hear open_demo
    new_client init init_rest bootstrap set_all start_timer connect_sse close_stream set_status
    call_all on_update on_status reconcile on_open
waiting-asked = (refl, refl, refl, refl)

broken_replay_unheard_example :
    let r =
      happen_all
        (page_arrives (events (beta_created ∷ beta_updated ∷ []))
          ∷ page_arrives thrown
          ∷ stream_opens
          ∷ page_arrives (events [])
          ∷ [])
        waiting in
    (r.client.config_version
      ≡ last_version (beta_created ∷ beta_updated ∷ []) waiting.client.config_version)
    × (r.client.flags ≡ write_events (beta_created ∷ beta_updated ∷ []) waiting.client.flags)
    × (r.client.status ≡ live)
    × (r.all_flags ≡ waiting.all_flags)
    × (r.client_version ≡ waiting.client_version)
broken_replay_unheard_example =
    broken_replay_unheard waiting asked beta_created (beta_updated ∷ []) waiting-asked.0
      (omega (arith, waiting-asked.1), (omega arith, tt)) (omega arith)
