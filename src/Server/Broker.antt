-- ===== src/Server/Broker.antt =====
-- backend/internal/sse/broker.go: the loop of `Run`, which owns the map of clients, and the loop of
-- `ServeHTTP` of every connection, with the channel of 16 places between them. A connection's
-- channel has no other reader, and no other writer than `Run`.
pub mod Sound
pub mod Order
pub mod Wire
mod Tests
use feature_flag_system.Prelude.{
  ℕ, zero, suc, Text, Bool, true, false, List, [], ◌∷◌, ◌++◌, Option, none, some, ltb, length,
  if◌then◌else◌, codes, decimal,
}

-- `SSEEvent`
pub record SseEvent : Type 0 where
  pub event : Text
  pub payload : Text
  pub version : ℕ

-- What a connection has written: the two comments and the frames.
pub data Frame : Type 0 where
  connected heartbeat : Frame
  frame : SseEvent → Frame

-- Where `ServeHTTP` is: before `register`, in its loop, at `unregister`, or returned.
pub data Stage : Type 0 where
  entering streaming leaving returned : Stage

-- A channel with its connection: what waits in it, whether it has been closed, whether it is in
-- the map of clients, and how far its connection is.
pub record Conn : Type 0 where
  pub queue : List SseEvent
  pub is_closed : Bool
  pub is_client : Bool
  pub stage : Stage
  pub output : List Frame

abbrev pub new_conn : Conn
new_conn = record {
  queue = [];
  is_closed = false;
  is_client = false;
  stage = entering;
  output = [];
}

-- The channels have no bound but this one.
abbrev pub capacity : ℕ
capacity = 16

-- `delete(b.clients, client); close(client)`. Closing a closed channel panics, which is `none`.
unfoldable pub drop_client : Conn → Option Conn
drop_client c =
    if c.is_closed then none else some (record c { is_client = false; is_closed = true })

-- `case event := <-b.broadcast`, for one client. Sending on a closed channel panics.
unfoldable pub offer : SseEvent → Conn → Option Conn
unfolding drop_client
offer e c =
    if c.is_client
    then (if c.is_closed
        then none
        else if ltb (length c.queue) capacity
        then some (record c { queue = c.queue ++ e ∷ [] })
        else drop_client c)
    else some c

-- `case <-b.shutdown`, for one client.
unfoldable pub drain : Conn → Option Conn
unfolding drop_client
drain c = if c.is_client then drop_client c else some c

-- `case client := <-b.register`, and the first comment of the connection.
abbrev register_client : Conn → Conn
register_client c = record c {
  is_client = true;
  stage = streaming;
  output = c.output ++ connected ∷ [];
}

-- `case client := <-b.unregister`, after which `ServeHTTP` returns.
abbrev unregister_client : Conn → Option Conn
unregister_client c =
    if c.is_client
    then drop_client (record c { stage = returned })
    else some (record c { stage = returned })

-- One turn of the loop of `ServeHTTP` at its channel: a frame is written, and `flushes` says
-- whether that reaches the client. A closed channel is read to its end first.
abbrev take_event : Bool → List SseEvent → Conn → Conn
take_event flushes [] c = if c.is_closed then record c { stage = leaving } else c
take_event flushes (e ∷ es) c = record c {
  queue = es;
  output = c.output ++ frame e ∷ [];
  stage = if flushes then streaming else leaving;
}

-- What happens at one connection: its headers are flushed or not, and its channel arrives at `Run`
-- or at a broker that has stopped, an event is taken, the ticker fires, the request is cancelled or idle for too long, it is
-- unregistered.
pub data Move : Type 0 where
  enter take_one beat : (flushes : Bool) → Move
  give_up : Move
  leave : Move

-- A move that the connection's stage does not allow does nothing.
unfoldable pub move_conn : (is_done : Bool) → Move → Stage → Conn → Option Conn
unfolding drop_client
move_conn is_done (enter flushes) entering c = some (
    if flushes
    then (if is_done then record c { stage = returned } else register_client c)
    else record c { stage = returned })
move_conn is_done (take_one flushes) streaming c = some (take_event flushes c.queue c)
move_conn is_done (beat flushes) streaming c = some (record c {
  output = c.output ++ heartbeat ∷ [];
  stage = if flushes then streaming else leaving;
})
move_conn is_done give_up streaming c = some (record c { stage = leaving })
move_conn is_done leave leaving c =
    if is_done then some (record c { stage = returned }) else unregister_client c
move_conn is_done m s c = some c

pub record Broker : Type 0 where
  pub conns : List Conn
  pub is_done : Bool

abbrev pub new_broker : Broker
new_broker = record { conns = []; is_done = false }

-- `for client := range b.clients`, where one panic ends the program.
unfoldable pub each : (Conn → Option Conn) → List Conn → Option (List Conn)
each f [] = some []
each f (c ∷ cs) = elim (f c) [
  | none ↦ none
  | some c' ↦ elim (each f cs) [ none ↦ none | some cs' ↦ some (c' ∷ cs') ]
]

unfoldable pub at_conn : ℕ → (Conn → Option Conn) → List Conn → Option (List Conn)
at_conn i f [] = some []
at_conn zero f (c ∷ cs) = elim (f c) [ none ↦ none | some c' ↦ some (c' ∷ cs) ]
at_conn (suc i) f (c ∷ cs) = elim (at_conn i f cs) [ none ↦ none | some cs' ↦ some (c ∷ cs') ]

-- A request that comes in, a move of the connection with a number, `Broadcast`, `Shutdown`.
pub data BrokerStep : Type 0 where
  connect : BrokerStep
  at : ℕ → Move → BrokerStep
  broadcast : SseEvent → BrokerStep
  shut_down : BrokerStep

abbrev pub with_conns : Bool → Option (List Conn) → Option Broker
with_conns is_done none = none
with_conns is_done (some cs) = some (record { conns = cs; is_done = is_done })

-- After `Run` has exited, `Broadcast` and a second `Shutdown` return at once.
unfoldable pub run_step : BrokerStep → Broker → Option Broker
unfolding move_conn offer drain each at_conn
run_step connect b = some (record b { conns = b.conns ++ new_conn ∷ [] })
run_step (at i m) b =
    with_conns b.is_done (at_conn i (λ c. move_conn b.is_done m c.stage c) b.conns)
run_step (broadcast e) b = if b.is_done then some b else with_conns false (each (offer e) b.conns)
run_step shut_down b = if b.is_done then some b else with_conns true (each drain b.conns)

unfoldable pub run_steps : List BrokerStep → Broker → Option Broker
unfolding run_step
run_steps [] b = some b
run_steps (s ∷ ss) b = elim (run_step s b) [ none ↦ none | some b' ↦ run_steps ss b' ]

-- `Fprintf(w, "id: ...")` and the frame: what goes over the wire. A version of 0 has no id.
unfoldable pub frame_text : Frame → Text
frame_text connected = codes ": connected\n\n"
frame_text heartbeat = codes ": heartbeat\n\n"
frame_text (frame e) =
    (if ltb 0 e.version then codes "id: " ++ decimal e.version ++ codes "\n" else [])
    ++ codes "event: "
    ++ e.event
    ++ codes "\ndata: "
    ++ e.payload
    ++ codes "\n\n"
