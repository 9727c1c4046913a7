-- ===== src/Sdk/System.antt =====
-- The client among its callers, its stream and the server: a step relation with every order of
-- events that the program allows. The reconciliation in flight is a part of the state, so that
-- any operation may run between a request and its answer.
pub mod Keeps
pub mod Faithful
pub mod Good
pub mod Reachable
pub mod Decision
use mathlib.Core.List.{Memᴰ}
use feature_flag_system.Prelude.{
  ℕ, ◌<◌, ◌≡◌, ◌++◌, ◌∷◌, [], Text, Bool, List, Option, none, some, parse_int, pos,
}
use feature_flag_system.Types.{
  FlagConfig, FlagEvent, EventType, created, updated, deleted, as_config,
}
use feature_flag_system.Sdk.Client.{
  Client, disconnect, reconnect, destroy, on_update, on_status, off_update, off_status,
}
use feature_flag_system.Sdk.Reconcile.{
  Pending, Page, thrown, refused, events, reconcile, reconcile_page,
}
use feature_flag_system.Sdk.Stream.{
  Message, flag_updated, flag_deleted, on_message, on_open, on_error,
}
use feature_flag_system.Sdk.Log.{after, latest}

pub record System : Type 0 where
  pub client : Client
  pub pending : Option Pending
  pub log : List FlagEvent

-- The frame that the server broadcasts for an event, with the text of its `id:` field.
abbrev pub frame : EventType → Text → FlagEvent → Message
frame deleted id ev = flag_deleted id (some ev.flag_key)
frame created id ev = flag_updated id (some (as_config ev.payload))
frame updated id ev = flag_updated id (some (as_config ev.payload))

abbrev pub message_of : Text → FlagEvent → Message
message_of id ev = frame ev.event_type id ev

-- The payload of an event that writes a flag is the flag under the event's key.
abbrev pub IsKeyed : FlagEvent → Type 0
IsKeyed ev = (as_config ev.payload).key ≡ ev.flag_key

-- A callback may start a reconciliation.
abbrev pub after_callback : System → Client × Option Pending → System
after_callback s (c, none) = record s { client = c }
after_callback s (c, some p) = record s { client = c; pending = some p }

-- An answer continues the reconciliation or ends it.
abbrev pub after_answer : System → Client × Option Pending → System
after_answer s (c, p) = record s { client = c; pending = p }

-- What a caller may do at any time.
pub data Call : Type 0 where
  to_disconnect to_reconnect to_destroy : Call
  listen_update listen_status unlisten_update unlisten_status : ℕ → Call

abbrev pub run_call : Call → Client → Client
run_call to_disconnect c = disconnect c
run_call to_reconnect c = reconnect c
run_call to_destroy c = destroy c
run_call (listen_update l) c = on_update l c
run_call (listen_status l) c = on_status l c
run_call (unlisten_update l) c = off_update l c
run_call (unlisten_status l) c = off_status l c

pub data Step (s : System) : System → Type 0 where
  commit :
      (e : FlagEvent)
      → latest s.log < e.version
      → IsKeyed e
      → Step s (record s { log = s.log ++ e ∷ [] })
  receive :
      (e : FlagEvent) (id : Text)
      → Memᴰ e s.log
      → parse_int id ≡ some (pos e.version)
      → Step s (after_callback s (on_message (message_of id e) s.client))
  opened : Step s (after_callback s (on_open s.client))
  fail : (es : ℕ) (is_closed : Bool) → Step s (record s { client = on_error es is_closed s.client })
  poll : Step s (after_callback s (reconcile s.client))
  answer :
      (p : Pending) (page rest : List FlagEvent)
      → s.pending ≡ some p
      → after p.since s.log ≡ page ++ rest
      → Step s (after_answer s (reconcile_page (events page) p s.client))
  refuse :
      (p : Pending)
      → s.pending ≡ some p
      → Step s (after_answer s (reconcile_page refused p s.client))
  throw :
      (p : Pending)
      → s.pending ≡ some p
      → Step s (after_answer s (reconcile_page thrown p s.client))
  call : (op : Call) → Step s (record s { client = run_call op s.client })

pub data Reach (s : System) : System → Type 0 where
  here : Reach s s
  next : {t u : System} → Reach s t → Step t u → Reach s u
