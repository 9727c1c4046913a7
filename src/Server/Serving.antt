-- ===== src/Server/Serving.antt =====
-- The server with one of its clients: the writes of the service, in any order with the steps of
-- the client's own system.
use feature_flag_system.Prelude.{
  Text, Bool, List, [], Option, none, some, ◌≡◌, sym, ap, ◌∙◌, arith, subst, ◌⊎◌, ◌<◌, le_or_lt,
  map, get, inl, inr,
}
use feature_flag_system.Types.{Flag}
use feature_flag_system.Sdk.Client.{Client}
use feature_flag_system.Sdk.Reconcile.{Pending}
use feature_flag_system.Sdk.Init.{set_all, init_rest}
use feature_flag_system.Sdk.Log.{no_flags, state_at, latest}
use feature_flag_system.Sdk.System.{System, Step, commit, Reach, here, next}
use feature_flag_system.Sdk.System.Reachable.{start, never_wrong}
use feature_flag_system.Server.{Store, to_config, empty_store}
use feature_flag_system.Server.Service.{Write, run_write, run_writes}
use feature_flag_system.Server.Rows.{config_at}
use feature_flag_system.Server.Sound.{IsSound, IsCommit, state_at-written}
use feature_flag_system.Server.Sound.Writes.{run_write-IsNext, run_writes-IsSound}
use feature_flag_system.Server.Listing.{list_rows, get_all_flags, get-get_all_flags}

pub record World : Type 0 where
  pub store : Store
  pub client : Client
  pub pending : Option Pending

-- The client's part of the world, with the event log of the store.
abbrev pub system_of : World → System
system_of w = record { client = w.client; pending = w.pending; log = w.store.events }

-- A write of the service, or a step of the client's system that is not a commit.
pub data WorldStep (w : World) : World → Type 0 where
  write : (op : Write) → WorldStep w (record w { store = run_write op w.store })
  move :
      {t : System}
      → Step (system_of w) t
      → t.log ≡ w.store.events
      → WorldStep w (record w { client = t.client; pending = t.pending })

pub data WorldReach (w : World) : World → Type 0 where
  begin : WorldReach w w
  and_then : {u v : World} → WorldReach w u → WorldStep u v → WorldReach w v

-- The world when a client's `init` has been fulfilled with a snapshot that no write fell into.
abbrev pub world_at : (Flag → Flag → Bool) → Client → Store → World
world_at precedes c s = record {
  store = s;
  client = (init_rest (get_all_flags precedes (some s) (some s)) c).0;
  pending = none;
}

-- A run of the world is a run of the client's system, over a sound store.
record IsRun (s0 : System) (w : World) : Type 0 where
  sound : IsSound w.store
  reach : Reach s0 (system_of w)

-- What a write does to the log is a commit of the client's system, or nothing.
commit_step :
    (s0 : System) (w : World) (t : Store)
    → IsCommit w.store t
    → Reach s0 (system_of w)
    → Reach s0 (system_of (record w { store = t }))
commit_step s0 w t (inl unchanged) r =
    subst (λ l. Reach s0 (record (system_of w) { log = l })) (sym unchanged) r
commit_step s0 w t (inr (e, grown, later, keyed)) r =
    subst (λ l. Reach s0 (record (system_of w) { log = l })) (sym grown)
      (next r (commit e later keyed))

WorldReach-IsRun : (s0 : System) (w v : World) → IsRun s0 w → WorldReach w v → IsRun s0 v
WorldReach-IsRun s0 w v r begin = r
WorldReach-IsRun s0 w v r (and_then {u} q (write op)) =
    let i = WorldReach-IsRun s0 w u r q in
    let n = run_write-IsNext op u.store i.sound in
    record { sound = n.sound; reach = commit_step s0 u (run_write op u.store) n.log i.reach }
WorldReach-IsRun s0 w v r (and_then {u} q (move {t} st same)) =
    let i = WorldReach-IsRun s0 w u r q in
    record {
      sound = i.sound;
      reach =
          subst (λ l. Reach s0 (record { client = t.client; pending = t.pending; log = l })) same
            (next i.reach st);
    }

module _ (precedes : Flag → Flag → Bool) (c : Client) (s : Store) (i : IsSound s) where
  snapshot-consistent :
      (k : Text)
      → get k (set_all (map to_config (list_rows precedes s.flags)) [])
        ≡ state_at (latest s.events) s.events no_flags k
  snapshot-consistent k =
      get-get_all_flags precedes k s.flags i.distinct
      ∙ i.mirrors k
      ∙ ap (λ m. m k) (sym (state_at-written (latest s.events) s.events no_flags (omega arith)))

  world_at-IsRun :
      IsRun
        (start c (map to_config (list_rows precedes s.flags)) (latest s.events) s.events)
        (world_at precedes c s)
  unfolding get_all_flags
  world_at-IsRun = record { sound = i; reach = here }

-- The whole chain, with nothing assumed of the server: the database starts empty, any writes run
-- on it, a client's `init` is fulfilled with a snapshot that no write fell into, and then writes,
-- frames, stream errors, polls, pages, failures and calls follow in whatever order, each write a
-- transaction by itself. For every key, the client holds what the event log gives at the client's
-- version; and either that version is the log's latest and the client holds exactly what the
-- server's table of flags has under the key, or the version is less than the log's latest.
pub serves_truth :
    (precedes : Flag → Flag → Bool) (c : Client) (ws : List Write) {w : World}
    → WorldReach (world_at precedes c (run_writes ws empty_store)) w
    → (k : Text)
    → (get k w.client.flags ≡ state_at w.client.config_version w.store.events no_flags k)
      × (((w.client.config_version ≡ latest w.store.events)
            × (get k w.client.flags ≡ config_at k w.store.flags))
          ⊎ (w.client.config_version < latest w.store.events))
serves_truth precedes c ws {w} q k =
    let s = run_writes ws empty_store in
    let i = run_writes-IsSound ws in
    let fs = map to_config (list_rows precedes s.flags) in
    let r =
      WorldReach-IsRun (start c fs (latest s.events) s.events) (world_at precedes c s) w
        (world_at-IsRun precedes c s i) q in
    let (right, known) =
      never_wrong c fs (latest s.events) s.events i.ascends i.keyed
        (snapshot-consistent precedes c s i) (omega arith) r.reach in
    (
      right k,
      elim (le_or_lt (latest w.store.events) w.client.config_version) [
        | inr behind ↦ inr behind
        | inl caught_up ↦ inl (
          omega (arith, known),
          right k
              ∙ ap (λ m. m k)
                  (state_at-written w.client.config_version w.store.events no_flags caught_up)
              ∙ sym (r.sound.mirrors k),
        )
      ],
    )
