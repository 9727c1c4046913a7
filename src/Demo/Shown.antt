-- ===== src/Demo/Shown.antt =====
-- The page's status is the client's: no change of it goes unheard.
use feature_flag_system.Prelude.{
  ℕ, zero, suc, or_else, ◌∷◌, [], Bool, true, false, List, Option, none, some, ◌≡◌, refl, sym, ap,
  ◌∙◌, if◌then◌else◌,
}
use feature_flag_system.Sdk.Client.{
  Client, ConnectionStatus, offline, Effect, opened, closed, told_status, told_update, timer_set,
  timer_cleared, set_status, connect_sse, disconnect, reconnect, call_all, on_status, on_update,
  same_status,
}
use feature_flag_system.Sdk.Init.{
  set_all, start_timer, Snapshot, thrown, refused, snapshot, init, init_rest, bootstrap,
}
use feature_flag_system.Sdk.Reconcile.{Pending, Page, reconcile_page}
use feature_flag_system.Sdk.Stream.{on_message, on_open, on_error}
use feature_flag_system.Demo.{
  DemoPage, hear, hear_all, operate, operate_pending, page_listener, happen, happen_all, mount,
  open_demo, Happening,
}
use feature_flag_system.Demo.{
  init_answered, sync_flags, keep_pending, answer_pending, snapshot_arrives, frame_arrives,
  stream_opens, stream_fails, page_arrives, press_disconnect, press_reconnect, choose_user,
  pick_flag,
}
use feature_flag_system.Demo.Heard.{
  heard, hear_all-heard, IsHeard, connect_sse-IsHeard, disconnect-IsHeard, reconnect-IsHeard,
  on_error-IsHeard, reconcile-IsHeard, on_message-IsHeard, reconcile_page-IsHeard,
}
use feature_flag_system.Sdk.Client.{new_client}

module _ (old : ConnectionStatus) where
  start_timer-IsHeard : (o : Option ℕ) (c : Client) → IsHeard old c → IsHeard old (start_timer o c)
  unfolding heard
  start_timer-IsHeard none c h = h
  start_timer-IsHeard (some zero) c h = h
  start_timer-IsHeard (some (suc n)) c h = record { listens = h.listens; same = h.same }

  init_rest-IsHeard : (a : Snapshot) (c : Client) → IsHeard old c → IsHeard old (init_rest a c).0
  unfolding init_rest bootstrap
  init_rest-IsHeard thrown c h = h
  init_rest-IsHeard refused c h = h
  init_rest-IsHeard (snapshot fs v) c h =
      let d = record c { flags = set_all fs []; config_version = or_else v c.config_version } in
      start_timer-IsHeard d.refresh_interval (connect_sse d)
        (connect_sse-IsHeard old d (record { listens = h.listens; same = h.same }))

hear-client : (v : ℕ) (e : Effect) (p : DemoPage) → (hear v e p).client ≡ p.client
unfolding hear
hear-client v (told_status l s) p = refl
hear-client v (told_update l m) p = refl
hear-client v (opened es) p = refl
hear-client v (closed es) p = refl
hear-client v timer_set p = refl
hear-client v timer_cleared p = refl

pub hear_all-client :
    (v : ℕ) (es : List Effect) (p : DemoPage) → (hear_all v es p).client ≡ p.client
unfolding hear_all
hear_all-client v [] p = refl
hear_all-client v (e ∷ es) p = hear-client v e (hear_all v es p) ∙ hear_all-client v es p

-- The page's copy of the status is the client's, and the page listens.
record IsTrue (p : DemoPage) : Type 0 where
  heard_all : p.client.status_listeners ≡ page_listener ∷ []
  shown : p.status ≡ p.client.status

operate-IsTrue :
    (op : Client → Client) (p : DemoPage)
    → ((c : Client) → IsHeard p.status c → IsHeard p.status (op c))
    → IsTrue p
    → IsTrue (operate op p)
unfolding operate heard
operate-IsTrue op p keeps h =
    let c = op (record p.client { effects = [] }) in
    let k =
      keeps (record p.client { effects = [] }) (record { listens = h.heard_all; same = h.shown }) in
    let there = hear_all-client c.config_version c.effects (record p { client = c }) in
    record {
      heard_all = ap (λ d. d.status_listeners) there ∙ k.listens;
      shown =
          hear_all-heard c.config_version c.effects (record p { client = c })
          ∙ k.same
          ∙ ap (λ d. d.status) (sym there);
    }

either-IsTrue : (b : Bool) (p q : DemoPage) → IsTrue p → IsTrue q → IsTrue (if b then p else q)
either-IsTrue true p q h k = h
either-IsTrue false p q h k = k

operate_pending-IsTrue :
    (op : Client → Client × Option Pending) (p : DemoPage)
    → ((c : Client) → IsHeard p.status c → IsHeard p.status (op c).0)
    → IsTrue p
    → IsTrue (operate_pending op p)
unfolding operate_pending
operate_pending-IsTrue op p keeps h =
    let k = operate-IsTrue (λ c. (op c).0) p keeps h in
    record { heard_all = k.heard_all; shown = k.shown }

keep_pending-IsTrue : (old : Option Pending) (p : DemoPage) → IsTrue p → IsTrue (keep_pending old p)
keep_pending-IsTrue old p h = record { heard_all = h.heard_all; shown = h.shown }

answer_pending-IsTrue :
    (page : Page) (o : Option Pending) (p : DemoPage) → IsTrue p → IsTrue (answer_pending page o p)
answer_pending-IsTrue page none p h = h
answer_pending-IsTrue page (some q) p h =
    operate_pending-IsTrue (λ c. reconcile_page page q c) p (reconcile_page-IsHeard p.status page q)
      h

init_answered-IsTrue : (a : Snapshot) (p : DemoPage) → IsTrue p → IsTrue (init_answered a p)
unfolding init_answered
init_answered-IsTrue a p h =
    let q = operate (λ c. (init_rest a c).0) p in
    let k = operate-IsTrue (λ c. (init_rest a c).0) p (init_rest-IsHeard p.status a) h in
    let r =
      either-IsTrue (init_rest a (record p.client { effects = [] })).1 (sync_flags q) q
        (record { heard_all = k.heard_all; shown = k.shown }) k in
    record { heard_all = r.heard_all; shown = r.shown }

happen-IsTrue : (h : Happening) (p : DemoPage) → IsTrue p → IsTrue (happen h p)
unfolding happen on_open
happen-IsTrue (snapshot_arrives a) p i = init_answered-IsTrue a p i
happen-IsTrue (frame_arrives m) p i =
    keep_pending-IsTrue p.pending (operate_pending (λ c. on_message m c) p)
      (operate_pending-IsTrue (λ c. on_message m c) p (on_message-IsHeard p.status m) i)
happen-IsTrue stream_opens p i =
    keep_pending-IsTrue p.pending (operate_pending (λ c. on_open c) p)
      (operate_pending-IsTrue (λ c. on_open c) p (reconcile-IsHeard p.status) i)
happen-IsTrue (stream_fails es b) p i =
    operate-IsTrue (λ c. on_error es b c) p (on_error-IsHeard p.status es b) i
happen-IsTrue (page_arrives page) p i = answer_pending-IsTrue page p.pending p i
happen-IsTrue press_disconnect p i =
    either-IsTrue (same_status p.status offline) p (operate disconnect p) i
      (operate-IsTrue disconnect p (disconnect-IsHeard p.status) i)
happen-IsTrue press_reconnect p i =
    either-IsTrue (same_status p.status offline) (operate reconnect p) p
      (operate-IsTrue reconnect p (reconnect-IsHeard p.status) i) i
happen-IsTrue (choose_user u) p i = record { heard_all = i.heard_all; shown = i.shown }
happen-IsTrue (pick_flag k) p i = record { heard_all = i.heard_all; shown = i.shown }

happen_all-IsTrue : (hs : List Happening) (p : DemoPage) → IsTrue p → IsTrue (happen_all hs p)
unfolding happen_all
happen_all-IsTrue [] p i = i
happen_all-IsTrue (h ∷ hs) p i = happen_all-IsTrue hs (happen h p) (happen-IsTrue h p i)

mount-IsTrue : IsTrue (mount open_demo)
unfolding mount open_demo operate new_client init on_update on_status set_status hear hear_all
    call_all
mount-IsTrue = record { heard_all = refl; shown = refl }

-- From the moment the demo page is mounted, whatever its client is told and its buttons do, in any
-- order and while snapshots, frames and pages arrive or fail: the status that the page shows is
-- the client's.
pub status_shown :
    (hs : List Happening) → let p = happen_all hs (mount open_demo) in p.status ≡ p.client.status
status_shown hs = (happen_all-IsTrue hs (mount open_demo) mount-IsTrue).shown
