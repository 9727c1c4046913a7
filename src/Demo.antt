-- ===== src/Demo.antt =====
-- frontend/app/demo/page.tsx and components/demo/UserSwitcher.tsx: the page that holds a client of
-- the SDK, hears its callbacks, and shows how it decides for a user.
pub mod View
pub mod Heard
pub mod Shown
pub mod Quiet
pub mod Silence
pub mod Playground
mod Tests
use feature_flag_system.Prelude.{
  ℕ, ◌-◌, ◌++◌, ◌∷◌, [], Text, codes, Bool, true, false, not, ◌&&◌, ◌||◌, List, Option, none, some,
  pos, ltb, ltb_ℤ, ◌==◌, if◌then◌else◌, Dict, get, text_eq, includes, find, is_none, or_else, map,
  decimal,
}
use feature_flag_system.Types.{FlagConfig}
use feature_flag_system.Sdk.Client.{
  Client, ConnectionStatus, connecting, live, reconnecting, reconciling, offline, Effect, opened,
  closed, told_status, told_update, timer_set, timer_cleared, new_client, on_status, on_update,
  off_status, off_update, disconnect, reconnect, destroy, is_enabled, is_stale, same_status,
}
use feature_flag_system.Sdk.Init.{Snapshot, init, init_rest}
use feature_flag_system.Sdk.Reconcile.{Pending, Page, reconcile_page}
use feature_flag_system.Sdk.Stream.{Message, on_message, on_open, on_error}

-- The page's state, with the client that it keeps and the reconciliation in flight.
pub record DemoPage : Type 0 where
  pub client : Client
  pub pending : Option Pending
  pub current_user : Text
  pub all_flags : Dict FlagConfig
  pub is_ready : Bool
  pub status : ConnectionStatus
  pub client_version : ℕ
  pub picked_viz_key : Option Text

-- `setStatus` and `syncFlags`, the page's two callbacks under one number.
abbrev pub page_listener : ℕ
page_listener = 0

unfoldable pub open_demo : DemoPage
open_demo = record {
  client = new_client none;
  pending = none;
  current_user = codes "user-1";
  all_flags = [];
  is_ready = false;
  status = connecting;
  client_version = 0;
  picked_viz_key = none;
}

-- What the page does when the client calls it back; `version` is the client's at that time.
unfoldable pub hear : ℕ → Effect → DemoPage → DemoPage
hear version (told_status l s) p = record p { status = s }
hear version (told_update l flags) p = record p { all_flags = flags; client_version = version }
hear version (opened es) p = p
hear version (closed es) p = p
hear version timer_set p = p
hear version timer_cleared p = p

-- The callbacks of one operation, of which the last stands first.
unfoldable pub hear_all : ℕ → List Effect → DemoPage → DemoPage
unfolding hear
hear_all version [] p = p
hear_all version (e ∷ es) p = hear version e (hear_all version es p)

-- An operation of the client, with the callbacks that it makes.
unfoldable pub operate : (Client → Client) → DemoPage → DemoPage
unfolding hear_all
operate op p =
    let c = op (record p.client { effects = [] }) in
    hear_all c.config_version c.effects (record p { client = c })

-- The same for an operation that may start or go on with a reconciliation.
unfoldable pub operate_pending : (Client → Client × Option Pending) → DemoPage → DemoPage
unfolding operate
operate_pending op p = record (operate (λ c. (op c).0) p) {
  pending = (op (record p.client { effects = [] })).1;
}

-- `syncFlags`
abbrev pub sync_flags : DemoPage → DemoPage
sync_flags p = record p { all_flags = p.client.flags; client_version = p.client.config_version }

-- The effect that runs at the first render, up to the request of `init`.
unfoldable pub mount : DemoPage → DemoPage
unfolding operate
mount p = operate (λ c. init (on_update page_listener (on_status page_listener c))) p

-- The answer to `init`'s request, and `then` or `catch`.
unfoldable pub init_answered : Snapshot → DemoPage → DemoPage
unfolding operate
init_answered answer p =
    let q = operate (λ c. (init_rest answer c).0) p in
    let fulfilled = (init_rest answer (record p.client { effects = [] })).1 in
    record (if fulfilled then sync_flags q else q) { is_ready = true }

unfoldable pub unmount : DemoPage → DemoPage
unfolding operate
unmount p = operate (λ c. destroy (off_update page_listener (off_status page_listener c))) p

-- What happens to a page that is mounted.
pub data Happening : Type 0 where
  snapshot_arrives : Snapshot → Happening
  frame_arrives : Message → Happening
  stream_opens : Happening
  stream_fails : (es : ℕ) (is_closed : Bool) → Happening
  page_arrives : Page → Happening
  press_disconnect press_reconnect : Happening
  choose_user : Text → Happening
  pick_flag : Text → Happening

abbrev pub answer_pending : Page → Option Pending → DemoPage → DemoPage
answer_pending page none p = p
answer_pending page (some q) p = operate_pending (λ c. reconcile_page page q c) p

abbrev pub first_pending : Option Pending → Option Pending → Option Pending
first_pending none old = old
first_pending (some q) old = some q

-- A callback that starts no reconciliation leaves the one in flight.
abbrev pub keep_pending : Option Pending → DemoPage → DemoPage
keep_pending old p = record p { pending = first_pending p.pending old }

unfoldable pub happen : Happening → DemoPage → DemoPage
unfolding init_answered operate_pending
happen (snapshot_arrives s) p = init_answered s p
happen (frame_arrives m) p = keep_pending p.pending (operate_pending (λ c. on_message m c) p)
happen stream_opens p = keep_pending p.pending (operate_pending (λ c. on_open c) p)
happen (stream_fails es is_closed) p = operate (λ c. on_error es is_closed c) p
happen (page_arrives page) p = answer_pending page p.pending p
happen press_disconnect p = if same_status p.status offline then p else operate disconnect p
happen press_reconnect p = if same_status p.status offline then operate reconnect p else p
happen (choose_user u) p = record p { current_user = u }
happen (pick_flag key) p = record p { picked_viz_key = some key }

unfoldable pub happen_all : List Happening → DemoPage → DemoPage
unfolding happen
happen_all [] p = p
happen_all (h ∷ hs) p = happen_all hs (happen h p)
