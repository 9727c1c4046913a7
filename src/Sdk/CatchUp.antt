-- ===== src/Sdk/CatchUp.antt =====
-- A reconciliation that the server answers: the pages of backend/internal/repository's
-- `ListEventsSince`, and the run of frontend/sdk/FeatureFlagClient.ts against them.
pub mod Run
use feature_flag_system.Prelude.{
  ℕ, zero, suc, ◌+◌, ◌-◌, ◌*◌, ◌≤◌, ◌<◌, ◌≡◌, refl, sym, ap, ◌∙◌, ◌++◌, ◌∷◌, [], Text, Bool, true,
  false, List, Option, none, some, arith, ltb, leb, ==_iff, ◌==◌, if◌then◌else◌, take, drop, length,
  take-append-drop, length-drop, eq-nil_of_length, get, All, subst, le_or_lt,
}
use feature_flag_system.Types.{FlagEvent}
use feature_flag_system.Sdk.Client.{Client, live, set_status, notify_listeners}
use feature_flag_system.Sdk.Reconcile.{
  Pending, events, max_pages, reconcile, reconcile_page, next_page, apply_page, finish,
}
use feature_flag_system.Sdk.Reconcile.Pages.{applied, apply_page-new}
use feature_flag_system.Sdk.Log.{state_at, after, latest, no_flags, Above}
use feature_flag_system.Sdk.Log.Next.{after-lt, after_next}
use feature_flag_system.Sdk.System.Keeps.{Keeps, finish-Keeps, reconcile-Keeps}
use feature_flag_system.Sdk.System.Faithful.{IsFaithful, Keeps-IsFaithful, advance}

-- The row limit that the server settles on.
unfoldable pub page_limit : ℕ → ℕ
page_limit limit =
    let asked = if limit == 0 then 500 else limit in if ltb 1000 asked then 1000 else asked

-- `ListEventsSince`
unfoldable pub list_events_since : List FlagEvent → ℕ → ℕ → List FlagEvent
unfolding page_limit
list_events_since log since limit = take (page_limit limit) (after since log)

-- A run in which every request is answered, by a log that stands still; `n` bounds the requests.
unfoldable pub drive : ℕ → List FlagEvent → ℕ → Client × Option Pending → Client × Option Pending
drive zero log limit r = r
drive (suc n) log limit (c, none) = (c, none)
drive (suc n) log limit (c, some p) =
    drive n log limit (reconcile_page (events (list_events_since log p.since limit)) p c)
