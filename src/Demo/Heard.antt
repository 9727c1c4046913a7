-- ===== src/Demo/Heard.antt =====
-- The operations of frontend/sdk/FeatureFlagClient.ts, and the status that a page hears of them.
use feature_flag_system.Prelude.{
  ℕ, ◌+◌, ◌==◌, leb, ltb, Dict, set, remove, ℤ, pos, negsuc, ◌∷◌, [], Bool, true, false, List,
  Option, none, some, ◌≡◌, refl, ap, ◌∙◌, Bool-cases, inl, inr, if◌then◌else◌,
}
use feature_flag_system.Sdk.Client.{
  Client, ConnectionStatus, live, reconnecting, reconciling, offline, Effect, opened, closed,
  told_status, told_update, timer_set, timer_cleared, set_status, notify_listeners, close_stream,
  connect_sse, disconnect, reconnect, call_all, same_status,
}
use feature_flag_system.Types.{FlagConfig, FlagEvent}
use feature_flag_system.Sdk.Reconcile.{
  Pending, Page, thrown, refused, reconcile, reconcile_page, write_event, max_pages, refused_status,
  events, apply_page, next_page, finish, give_up,
}
use feature_flag_system.Sdk.Stream.{
  close_stream_if_closed, event_version, Message, flag_updated, flag_deleted, on_message, on_error,
  apply_event,
}
use feature_flag_system.Demo.{DemoPage, hear, hear_all, page_listener}

-- The status that the page has after some callbacks.
abbrev pub heard_by : Effect → ConnectionStatus → ConnectionStatus
heard_by (told_status l s) old = s
heard_by (told_update l m) old = old
heard_by (opened es) old = old
heard_by (closed es) old = old
heard_by timer_set old = old
heard_by timer_cleared old = old

unfoldable pub heard : ConnectionStatus → List Effect → ConnectionStatus
heard old [] = old
heard old (e ∷ es) = heard_by e (heard old es)

hear-heard_by : (v : ℕ) (e : Effect) (p : DemoPage) → (hear v e p).status ≡ heard_by e p.status
unfolding hear
hear-heard_by v (told_status l s) p = refl
hear-heard_by v (told_update l m) p = refl
hear-heard_by v (opened es) p = refl
hear-heard_by v (closed es) p = refl
hear-heard_by v timer_set p = refl
hear-heard_by v timer_cleared p = refl

pub hear_all-heard :
    (v : ℕ) (es : List Effect) (p : DemoPage) → (hear_all v es p).status ≡ heard p.status es
unfolding hear_all heard
hear_all-heard v [] p = refl
hear_all-heard v (e ∷ es) p =
    hear-heard_by v e (hear_all v es p) ∙ ap (heard_by e) (hear_all-heard v es p)

-- The page hears the status, and its view of it is the client's.
pub record IsHeard (old : ConnectionStatus) (c : Client) : Type 0 where
  pub listens : c.status_listeners ≡ page_listener ∷ []
  pub same : heard old c.effects ≡ c.status

module _ (old : ConnectionStatus) where
  either :
      (b : Bool) (c d : Client) → IsHeard old c → IsHeard old d → IsHeard old (if b then c else d)
  either true c d h k = h
  either false c d h k = k

  either_started :
      (b : Bool) (x y : Client × Option Pending)
      → IsHeard old x.0
      → IsHeard old y.0
      → IsHeard old (if b then x else y).0
  either_started true x y h k = h
  either_started false x y h k = k

  pub set_status-IsHeard :
      (s : ConnectionStatus) (c : Client) → IsHeard old c → IsHeard old (set_status s c)
  unfolding set_status call_all heard
  set_status-IsHeard s c h =
      either (same_status c.status s) c
        (record c {
          status = s;
          effects = call_all (λ l. told_status l s) c.status_listeners c.effects;
        })
        h (record { listens = h.listens; same = rw h.listens refl })

  call_update :
      (ls : List ℕ) (c : Client) (es : List Effect)
      → heard old (call_all (λ l. told_update l c.flags) ls es) ≡ heard old es
  unfolding call_all heard
  call_update [] c es = refl
  call_update (l ∷ ls) c es = call_update ls c (told_update l c.flags ∷ es)

  notify-IsHeard : (c : Client) → IsHeard old c → IsHeard old (notify_listeners c)
  unfolding notify_listeners
  notify-IsHeard c h = record {
    listens = h.listens;
    same = call_update c.listeners c c.effects ∙ h.same;
  }

  close-IsHeard :
      (o : Option ℕ) (c : Client)
      → c.event_source ≡ o
      → IsHeard old c
      → IsHeard old (close_stream c)
  unfolding close_stream heard
  close-IsHeard none c e h = rw (close_stream, e) h
  close-IsHeard (some es) c e h =
      rw (close_stream, e) (record { listens = h.listens; same = h.same })

  pub connect_sse-IsHeard : (c : Client) → IsHeard old c → IsHeard old (connect_sse c)
  unfolding connect_sse heard
  connect_sse-IsHeard c h =
      let k = close-IsHeard c.event_source c refl h in record { listens = k.listens; same = k.same }

  pub disconnect-IsHeard : (c : Client) → IsHeard old c → IsHeard old (disconnect c)
  unfolding disconnect
  disconnect-IsHeard c h =
      let d = record c { manually_closed = true } in
      set_status-IsHeard offline (close_stream d)
        (close-IsHeard d.event_source d refl (record { listens = h.listens; same = h.same }))

  pub reconnect-IsHeard : (c : Client) → IsHeard old c → IsHeard old (reconnect c)
  unfolding reconnect
  reconnect-IsHeard c h =
      connect_sse-IsHeard (set_status reconnecting (record c { manually_closed = false })) (
        set_status-IsHeard reconnecting (record c { manually_closed = false })
          (record { listens = h.listens; same = h.same }))

  close_stream_if_closed-IsHeard :
      (es : ℕ) (is_closed : Bool) (c : Client) (o : Option ℕ)
      → c.event_source ≡ o
      → IsHeard old c
      → IsHeard old (close_stream_if_closed es is_closed c)
  unfolding close_stream_if_closed
  close_stream_if_closed-IsHeard es is_closed c none e h = rw (close_stream_if_closed, e) h
  close_stream_if_closed-IsHeard es is_closed c (some current) e h =
      let d = record c { event_source = none } in
      rw (close_stream_if_closed, e)
        (either is_closed (if current == es then d else c) c
          (either (current == es) d c (record { listens = h.listens; same = h.same }) h) h)

  pub on_error-IsHeard :
      (es : ℕ) (is_closed : Bool) (c : Client)
      → IsHeard old c
      → IsHeard old (on_error es is_closed c)
  unfolding on_error
  on_error-IsHeard es is_closed c h =
      either c.manually_closed c (set_status reconnecting (close_stream_if_closed es is_closed c)) h
        (set_status-IsHeard reconnecting (close_stream_if_closed es is_closed c)
          (close_stream_if_closed-IsHeard es is_closed c c.event_source refl h))

  pub reconcile-IsHeard : (c : Client) → IsHeard old c → IsHeard old (reconcile c).0
  unfolding reconcile
  reconcile-IsHeard c h =
      let d = set_status reconciling (record c { is_reconciling = true }) in
      let p : Pending = record {
        prev_status = c.status;
        changed = false;
        guard = 0;
        since = c.config_version;
      } in
      either_started c.is_reconciling (c, none) (d, some p) h
        (set_status-IsHeard reconciling (record c { is_reconciling = true })
          (record { listens = h.listens; same = h.same }))

  apply_event-IsHeard :
      (v : ℤ) (mutate : Dict FlagConfig → Dict FlagConfig) (c : Client)
      → IsHeard old c
      → IsHeard old (apply_event v mutate c).0
  unfolding apply_event
  apply_event-IsHeard (negsuc n) mutate c h = h
  apply_event-IsHeard (pos v) mutate c h =
      let d = record c { flags = mutate c.flags; config_version = v } in
      let k =
        notify-IsHeard (set_status live d)
          (set_status-IsHeard live d (record { listens = h.listens; same = h.same })) in
      elim (Bool-cases (leb v c.config_version)) [
        | inl stale ↦ rw (apply_event, stale) h
        | inr new ↦ elim (Bool-cases (ltb (c.config_version + 1) v)) [
          | inl gap ↦ rw (apply_event, new, gap) (reconcile-IsHeard c h)
          | inr next ↦ rw (apply_event, new, next) k
        ]
      ]

  pub on_message-IsHeard :
      (m : Message) (c : Client) → IsHeard old c → IsHeard old (on_message m c).0
  unfolding on_message
  on_message-IsHeard (flag_updated i none) c h = h
  on_message-IsHeard (flag_updated i (some f)) c h =
      apply_event-IsHeard (event_version c i) (set f.key f) c h
  on_message-IsHeard (flag_deleted i none) c h = h
  on_message-IsHeard (flag_deleted i (some k)) c h =
      apply_event-IsHeard (event_version c i) (remove k) c h

  apply_page-IsHeard :
      (evs : List FlagEvent) (c : Client) (changed advanced : Bool)
      → IsHeard old c
      → IsHeard old (apply_page evs c changed advanced).0
  unfolding apply_page
  apply_page-IsHeard [] c changed advanced h = h
  apply_page-IsHeard (e ∷ evs) c changed advanced h =
      elim (Bool-cases (leb e.version c.config_version)) [
        | inl skip ↦ rw (apply_page, skip) (apply_page-IsHeard evs c changed advanced h)
        | inr take ↦
            rw (apply_page, take)
              (apply_page-IsHeard evs
                (record c { flags = write_event e c.flags; config_version = e.version }) true true
                (record { listens = h.listens; same = h.same }))
      ]

  finish-IsHeard : (changed : Bool) (c : Client) → IsHeard old c → IsHeard old (finish changed c)
  unfolding finish
  finish-IsHeard changed c h =
      let c' = set_status live c in
      let k = set_status-IsHeard live c h in
      let r = either changed (notify_listeners c') c' (notify-IsHeard c' k) k in
      record { listens = r.listens; same = r.same }

  give_up-IsHeard : (s : ConnectionStatus) (c : Client) → IsHeard old c → IsHeard old (give_up s c)
  unfolding give_up
  give_up-IsHeard s c h =
      let k = set_status-IsHeard s c h in record { listens = k.listens; same = k.same }

  next_page-IsHeard :
      (p : Pending) (r : Client × Bool × Bool) → IsHeard old r.0 → IsHeard old (next_page p r).0
  unfolding next_page
  next_page-IsHeard p (c, changed, false) h = finish-IsHeard changed c h
  next_page-IsHeard p (c, changed, true) h = elim (Bool-cases (ltb (p.guard + 1) max_pages)) [
    | inl more ↦ rw (next_page, more) h
    | inr last ↦ rw (next_page, last) (finish-IsHeard changed c h)
  ]

  pub reconcile_page-IsHeard :
      (page : Page) (p : Pending) (c : Client)
      → IsHeard old c
      → IsHeard old (reconcile_page page p c).0
  unfolding reconcile_page
  reconcile_page-IsHeard thrown p c h = give_up-IsHeard reconnecting c h
  reconcile_page-IsHeard refused p c h = give_up-IsHeard (refused_status p) c h
  reconcile_page-IsHeard (events []) p c h = finish-IsHeard p.changed c h
  reconcile_page-IsHeard (events (e ∷ evs)) p c h =
      next_page-IsHeard p (apply_page (e ∷ evs) c p.changed false)
        (apply_page-IsHeard (e ∷ evs) c p.changed false h)
