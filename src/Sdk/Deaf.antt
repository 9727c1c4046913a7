-- ===== src/Sdk/Deaf.antt =====
-- A client of frontend/sdk/FeatureFlagClient.ts that was destroyed and is initialised again.
use feature_flag_system.Prelude.{
  ◌≡◌, refl, ◌∙◌, ap, ℕ, ℤ, pos, negsuc, Bool, true, false, List, [], ◌∷◌, Option, none, some, Dict,
  arith,
}
use feature_flag_system.Types.{FlagConfig, FlagEvent}
use feature_flag_system.Sdk.Client.{
  Client, ConnectionStatus, set_status, notify_listeners, connect_sse, close_stream, disconnect,
  destroy, on_update, on_status, off_update, off_status,
}
use feature_flag_system.Sdk.Reconcile.{
  Pending, Page, thrown, refused, events, reconcile, reconcile_page, apply_page, next_page, finish,
  give_up,
}
use feature_flag_system.Sdk.Reconcile.Pages.{applied}
use feature_flag_system.Sdk.Init.{snapshot, init, init_rest, bootstrap}
use feature_flag_system.Sdk.Stream.{
  Message, flag_updated, flag_deleted, on_message, on_open, on_error, apply_event,
}
use feature_flag_system.Sdk.System.{
  System, Step, commit, receive, opened, fail, poll, answer, refuse, throw, call, Call, message_of,
  to_disconnect, to_reconnect, to_destroy, listen_update, listen_status, unlisten_update,
  unlisten_status, run_call, after_callback,
}

-- A run in which the caller does not ask for `reconnect`.
abbrev reconnects : Call → Bool
reconnects to_reconnect = true
reconnects to_disconnect = false
reconnects to_destroy = false
reconnects (listen_update l) = false
reconnects (listen_status l) = false
reconnects (unlisten_update l) = false
reconnects (unlisten_status l) = false

abbrev pub IsPatient : {s t : System} → Step s t → Type 0
IsPatient (commit e h k) = Unit
IsPatient (receive e id m h) = Unit
IsPatient opened = Unit
IsPatient (fail es b) = Unit
IsPatient poll = Unit
IsPatient (answer p page rest w h) = Unit
IsPatient (refuse p w) = Unit
IsPatient (throw p w) = Unit
IsPatient (call op) = reconnects op ≡ false

pub data PatientReach (s : System) : System → Type 0 where
  here : PatientReach s s
  next : {t u : System} → PatientReach s t → (st : Step t u) → IsPatient st → PatientReach s u

set_status-closed :
    (st : ConnectionStatus) (c : Client) → (set_status st c).manually_closed ≡ c.manually_closed
unfolding set_status
set_status-closed st c = ground arith

reconcile-closed : (c : Client) → (reconcile c).0.manually_closed ≡ c.manually_closed
unfolding reconcile set_status
reconcile-closed c = ground arith

apply_event-closed :
    (v : ℤ) (change : Dict FlagConfig → Dict FlagConfig) (c : Client)
    → (apply_event v change c).0.manually_closed ≡ c.manually_closed
unfolding apply_event notify_listeners set_status
apply_event-closed (negsuc n) change c = refl
apply_event-closed (pos v) change c = ground (arith, reconcile-closed c)

on_message-closed :
    (m : Message) (c : Client) → (on_message m c).0.manually_closed ≡ c.manually_closed
unfolding on_message
on_message-closed (flag_updated i none) c = refl
on_message-closed (flag_updated i (some f)) c = apply_event-closed _ _ c
on_message-closed (flag_deleted i none) c = refl
on_message-closed (flag_deleted i (some k)) c = apply_event-closed _ _ c

apply_page-closed :
    (es : List FlagEvent) (c : Client) (changed advanced : Bool)
    → (apply_page es c changed advanced).0.manually_closed ≡ c.manually_closed
unfolding apply_page
apply_page-closed [] c changed advanced = refl
apply_page-closed (e ∷ es) c changed advanced =
    ground
      (arith, apply_page-closed es c changed advanced, apply_page-closed es (applied e c) true true)

finish-closed :
    (changed : Bool) (c : Client) → (finish changed c).manually_closed ≡ c.manually_closed
unfolding finish set_status notify_listeners
finish-closed changed c = ground arith

next_page-closed :
    (p : Pending) (r : Client × Bool × Bool)
    → (next_page p r).0.manually_closed ≡ r.0.manually_closed
unfolding next_page
next_page-closed p (c, changed, false) = finish-closed changed c
next_page-closed p (c, changed, true) = ground (arith, finish-closed changed c)

reconcile_page-closed :
    (page : Page) (p : Pending) (c : Client)
    → (reconcile_page page p c).0.manually_closed ≡ c.manually_closed
unfolding reconcile_page give_up
reconcile_page-closed thrown p c = set_status-closed _ c
reconcile_page-closed refused p c = set_status-closed _ c
reconcile_page-closed (events []) p c = finish-closed p.changed c
reconcile_page-closed (events (e ∷ es)) p c =
    next_page-closed p (apply_page (e ∷ es) c p.changed false)
    ∙ apply_page-closed (e ∷ es) c p.changed false

run_call-closed :
    (op : Call) (c : Client)
    → reconnects op ≡ false
    → c.manually_closed ≡ true
    → (run_call op c).manually_closed ≡ true
unfolding disconnect destroy close_stream set_status on_update on_status off_update off_status
run_call-closed op c n h = ground arith

on_error-deaf :
    (es : ℕ) (is_closed : Bool) (c : Client)
    → c.manually_closed ≡ true
    → on_error es is_closed c ≡ c
unfolding on_error
on_error-deaf es is_closed c h = rw h refl

callback-closed :
    (s : System) (r : Client × Option Pending)
    → (after_callback s r).client.manually_closed ≡ r.0.manually_closed
callback-closed s (c, none) = refl
callback-closed s (c, some p) = refl

Step-closed :
    {s t : System} (st : Step s t)
    → IsPatient st
    → s.client.manually_closed ≡ true
    → t.client.manually_closed ≡ true
unfolding on_open
Step-closed {s} (commit e h k) n c = c
Step-closed {s} (receive e id m h) n c =
    callback-closed s (on_message (message_of id e) s.client)
    ∙ on_message-closed (message_of id e) s.client
    ∙ c
Step-closed {s} opened n c = callback-closed s (reconcile s.client) ∙ reconcile-closed s.client ∙ c
Step-closed {s} (fail es b) n c = ap (λ d. d.manually_closed) (on_error-deaf es b s.client c) ∙ c
Step-closed {s} poll n c = callback-closed s (reconcile s.client) ∙ reconcile-closed s.client ∙ c
Step-closed {s} (answer p page rest w h) n c = reconcile_page-closed (events page) p s.client ∙ c
Step-closed {s} (refuse p w) n c = reconcile_page-closed refused p s.client ∙ c
Step-closed {s} (throw p w) n c = reconcile_page-closed thrown p s.client ∙ c
Step-closed {s} (call op) n c = run_call-closed op s.client n c

PatientReach-closed :
    {s t : System}
    → PatientReach s t
    → s.client.manually_closed ≡ true
    → t.client.manually_closed ≡ true
PatientReach-closed here c = c
PatientReach-closed (next r st n) c = Step-closed st n (PatientReach-closed r c)

-- The system of a client that is destroyed, perhaps with a request under way, initialised again and
-- given a snapshot.
abbrev pub revived : Client → Option Pending → List FlagConfig → Option ℕ → List FlagEvent → System
revived c q fs v log = record {
  client = (init_rest (snapshot fs v) (init (destroy c))).0;
  pending = q;
  log = log;
}

revived-closed :
    (c : Client) (q : Option Pending) (fs : List FlagConfig) (v : Option ℕ) (log : List FlagEvent)
    → ((revived c q fs v log).client.event_source ≡ some c.next_source)
      × ((revived c q fs v log).client.manually_closed ≡ true)
unfolding init init_rest bootstrap destroy connect_sse
revived-closed c q fs v log = ground arith

-- A client that is destroyed and then initialised again, as a component that is mounted again does
-- with the client it kept, has a stream but is deaf to its errors: whatever request was under way,
-- whatever snapshot it gets, and whatever commits, frames, errors, polls, pages, failed requests and calls but `reconnect` follow,
-- an error of any stream, closed or not, changes nothing of the client.
pub revived-on_error :
    (c : Client) (q : Option Pending) (fs : List FlagConfig) (v : Option ℕ) (log : List FlagEvent)
    {t : System}
    → PatientReach (revived c q fs v log) t
    → (es : ℕ) (is_closed : Bool)
    → ((revived c q fs v log).client.event_source ≡ some c.next_source)
      × (on_error es is_closed t.client ≡ t.client)
revived-on_error c q fs v log {t} r es is_closed =
    let (opens, closed) = revived-closed c q fs v log in
    (opens, on_error-deaf es is_closed t.client (PatientReach-closed r closed))
