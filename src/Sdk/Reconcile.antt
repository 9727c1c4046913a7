-- ===== src/Sdk/Reconcile.antt =====
-- `reconcile` of frontend/sdk/FeatureFlagClient.ts, an asynchronous method, cut where it waits:
-- `reconcile` runs up to its first request, and `reconcile_page` runs from one answer to the next
-- request or to the end. Between the two, any other operation of the client may run.
pub mod Pages
use feature_flag_system.Prelude.{
  ◌+◌, ℕ, ◌∷◌, [], Bool, true, false, List, Option, none, some, leb, ltb, if◌then◌else◌, set,
  remove, Dict,
}
use feature_flag_system.Types.{
  EventType, FlagConfig, FlagEvent, created, updated, deleted, as_config,
}
use feature_flag_system.Sdk.Client.{
  Client, ConnectionStatus, live, reconnecting, reconciling, same_status, set_status,
  notify_listeners,
}

-- The local variables of a run that waits for an answer, and the `since` of its request.
pub record Pending : Type 0 where
  pub prev_status : ConnectionStatus
  pub changed : Bool
  pub guard : ℕ
  pub since : ℕ

-- How a request ends: `fetch` or `json` throws, the status is no success, or the backlog.
pub data Page : Type 0 where
  thrown : Page
  refused : Page
  events : List FlagEvent → Page

abbrev pub max_pages : ℕ
max_pages = 10000

unfoldable pub reconcile : Client → Client × Option Pending
reconcile c = if c.is_reconciling then (c, none) else (
  set_status reconciling (record c { is_reconciling = true }),
  some (record { prev_status = c.status; changed = false; guard = 0; since = c.config_version }),
)

-- What an event does to the flags, by its type.
unfoldable pub write_as : EventType → FlagEvent → Dict FlagConfig → Dict FlagConfig
write_as deleted ev flags = remove ev.flag_key flags
write_as created ev flags = set ev.flag_key (as_config ev.payload) flags
write_as updated ev flags = set ev.flag_key (as_config ev.payload) flags

unfoldable pub write_event : FlagEvent → Dict FlagConfig → Dict FlagConfig
unfolding write_as
write_event ev flags = write_as ev.event_type ev flags

-- The inner loop; the two flags are `changed` and `advanced`.
unfoldable pub apply_page : List FlagEvent → Client → Bool → Bool → Client × Bool × Bool
apply_page [] c changed advanced = (c, changed, advanced)
apply_page (ev ∷ evs) c changed advanced =
    let skipped = apply_page evs c changed advanced in
    let applied =
      apply_page evs (record c { flags = write_event ev c.flags; config_version = ev.version }) true
        true in
    if leb ev.version c.config_version then skipped else applied

-- The end of the `try` block, and `finally`.
unfoldable pub finish : Bool → Client → Client
finish changed c =
    let c' = set_status live c in
    record (if changed then notify_listeners c' else c') { is_reconciling = false }

-- `finally` after an early end, which leaves a status.
unfoldable pub give_up : ConnectionStatus → Client → Client
give_up s c = record (set_status s c) { is_reconciling = false }

-- After a page: stop if nothing advanced or the guard is used up, else ask for the next page.
unfoldable pub next_page : Pending → Client × Bool × Bool → Client × Option Pending
next_page p (c, changed, false) = (finish changed c, none)
next_page p (c, changed, true) =
    if ltb (p.guard + 1) max_pages
    then (c, some (record p { changed = changed; guard = p.guard + 1; since = c.config_version }))
    else (finish changed c, none)

-- The status after an answer that is no success.
abbrev pub refused_status : Pending → ConnectionStatus
refused_status p = if same_status p.prev_status reconciling then reconnecting else p.prev_status

unfoldable pub reconcile_page : Page → Pending → Client → Client × Option Pending
reconcile_page thrown p c = (give_up reconnecting c, none)
reconcile_page refused p c = (give_up (refused_status p) c, none)
reconcile_page (events []) p c = (finish p.changed c, none)
reconcile_page (events (ev ∷ evs)) p c = next_page p (apply_page (ev ∷ evs) c p.changed false)
