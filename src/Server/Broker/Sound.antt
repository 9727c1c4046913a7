-- ===== src/Server/Broker/Sound.antt =====
-- The channels of backend/internal/sse/broker.go are never closed twice and never sent to when
-- they are closed.
use feature_flag_system.Prelude.{
  ℕ, zero, suc, ◌≤◌, Bool, true, false, not, List, [], ◌∷◌, ◌++◌, Option, some, ◌≡◌, refl, ap, ltb,
  arith, length, length-append, All, All-append, Bool-cases, inl, inr,
}
use feature_flag_system.Server.Broker.{
  SseEvent, Conn, new_conn, Stage, entering, streaming, leaving, returned, Move, enter, take_one,
  beat, give_up, leave, capacity, offer, drain, drop_client, take_event, move_conn, Broker,
  new_broker, each, at_conn, BrokerStep, connect, at, broadcast, shut_down, run_step, run_steps,
}

-- A client's channel is open; a connection that has not registered has an open channel that is no
-- client's; one in its loop has a client's channel or a closed one; one that has returned is no
-- client; a queue is within its places; a broker that has stopped has no clients.
pub record IsConn (is_done : Bool) (c : Conn) : Type 0 where
  pub open_client : c.is_client ≡ true → c.is_closed ≡ false
  pub fresh : c.stage ≡ entering → (c.is_client ≡ false) × (c.is_closed ≡ false)
  pub fed : c.stage ≡ streaming → c.is_client ≡ not c.is_closed
  pub over : c.stage ≡ returned → c.is_client ≡ false
  pub bounded : length c.queue ≤ capacity
  pub stopped : is_done ≡ true → c.is_client ≡ false

-- What happens to a connection is no panic, and leaves it in order.
abbrev Goes : Bool → Option Conn → Type 0
Goes d r = (c : Conn) × (r ≡ some c) × IsConn d c

module _ (c : Conn) where
  drop_client-Goes : (d : Bool) → IsConn false c → c.is_client ≡ true → Goes d (drop_client c)
  unfolding drop_client
  drop_client-Goes d i h =
      (record c { is_client = false; is_closed = true }, ground arith, ground arith)

  drain-Goes : IsConn false c → Goes true (drain c)
  unfolding drain
  drain-Goes i = elim (Bool-cases c.is_client) [
    | inl client ↦ rw client (drop_client-Goes true i client)
    | inr other ↦ (c, rw other refl, ground arith)
  ]

  offer-Goes : (e : SseEvent) → IsConn false c → Goes false (offer e c)
  unfolding offer
  offer-Goes e i = elim (Bool-cases c.is_client) [
    | inr other ↦ (c, rw other refl, i)
    | inl client ↦ elim (Bool-cases (ltb (length c.queue) capacity)) [
      | inl room ↦
          let put = length-append c.queue (e ∷ []) in
          (record c { queue = c.queue ++ e ∷ [] }, ground arith, ground arith)
      | inr full ↦ (record c { is_client = false; is_closed = true }, ground arith, ground arith)
    ]
  ]

  leave-Goes : (d : Bool) → IsConn d c → c.stage ≡ leaving → Goes d (move_conn d leave leaving c)
  unfolding move_conn
  leave-Goes true i h = (record c { stage = returned }, refl, ground arith)
  leave-Goes false i h = elim (Bool-cases c.is_client) [
    | inr other ↦ (record c { stage = returned }, ground arith, ground arith)
    | inl client ↦ (
      record c { stage = returned; is_client = false; is_closed = true },
      ground arith,
      ground arith,
    )
  ]

  take-Goes :
      (d flushes : Bool) (q : List SseEvent)
      → c.queue ≡ q
      → IsConn d c
      → c.stage ≡ streaming
      → IsConn d (take_event flushes q c)
  take-Goes d flushes [] e i h = ground arith
  take-Goes d flushes (x ∷ xs) e i h =
      let shorter : length c.queue ≡ suc (length xs) = ap length e in ground arith

  move_stage-Goes :
      (d : Bool) (m : Move) (s : Stage) → c.stage ≡ s → IsConn d c → Goes d (move_conn d m s c)
  unfolding move_conn
  move_stage-Goes d (enter flushes) entering h i = (_, refl, ground arith)
  move_stage-Goes d (take_one flushes) streaming h i =
      (_, refl, take-Goes d flushes c.queue refl i h)
  move_stage-Goes d (beat flushes) streaming h i = (_, refl, ground arith)
  move_stage-Goes d give_up streaming h i = (_, refl, ground arith)
  move_stage-Goes d leave leaving h i = leave-Goes d i h
  move_stage-Goes d m s h i = (c, refl, i)

-- Every connection of a broker is in order.
abbrev pub IsSound : Broker → Type 0
IsSound b = All (IsConn b.is_done) b.conns

abbrev GoesAll : Bool → Option (List Conn) → Type 0
GoesAll d r = (cs : List Conn) × (r ≡ some cs) × All (IsConn d) cs

each-Goes :
    (d d' : Bool) (f : Conn → Option Conn)
    → ((c : Conn) → IsConn d c → Goes d' (f c))
    → (cs : List Conn) → All (IsConn d) cs
    → GoesAll d' (each f cs)
unfolding each
each-Goes d d' f h [] a = ([], refl, tt)
each-Goes d d' f h (c ∷ cs) a =
    let (c', e, i) = h c a.0 in
    let (cs', e', i') = each-Goes d d' f h cs a.1 in (c' ∷ cs', ground arith, (i, i'))

at_conn-Goes :
    (d : Bool) (f : Conn → Option Conn)
    → ((c : Conn) → IsConn d c → Goes d (f c))
    → (n : ℕ) (cs : List Conn) → All (IsConn d) cs
    → GoesAll d (at_conn n f cs)
unfolding at_conn
at_conn-Goes d f h n [] a = ([], refl, tt)
at_conn-Goes d f h zero (c ∷ cs) a = let (c', e, i) = h c a.0 in (c' ∷ cs, ground arith, (i, a.1))
at_conn-Goes d f h (suc n) (c ∷ cs) a =
    let (cs', e, i) = at_conn-Goes d f h n cs a.1 in (c ∷ cs', ground arith, (a.0, i))

abbrev GoesOn : Option Broker → Type 0
GoesOn r = (b : Broker) × (r ≡ some b) × IsSound b

run_in-Goes :
    (s : BrokerStep) (d : Bool) (cs : List Conn)
    → All (IsConn d) cs
    → GoesOn (run_step s (record { conns = cs; is_done = d }))
unfolding run_step
run_in-Goes connect d cs i =
    (_, refl, All-append (IsConn d) cs (new_conn ∷ []) i (ground arith, tt))
run_in-Goes (at n m) d cs i =
    let (cs', e, i') =
      at_conn-Goes d (λ c. move_conn d m c.stage c) (λ c j. move_stage-Goes c d m c.stage refl j) n
        cs i in
    (record { conns = cs'; is_done = d }, rw e refl, i')
run_in-Goes (broadcast e) true cs i = (_, refl, i)
run_in-Goes (broadcast e) false cs i =
    let (cs', r, i') = each-Goes false false (offer e) (λ c j. offer-Goes c e j) cs i in
    (record { conns = cs'; is_done = false }, rw r refl, i')
run_in-Goes shut_down true cs i = (_, refl, i)
run_in-Goes shut_down false cs i =
    let (cs', r, i') = each-Goes false true drain drain-Goes cs i in
    (record { conns = cs'; is_done = true }, rw r refl, i')

pub run_step-Goes :
    (s : BrokerStep) (b : Broker)
    → IsSound b
    → (b' : Broker) × (run_step s b ≡ some b') × IsSound b'
run_step-Goes s b i = run_in-Goes s b.is_done b.conns i

pub run_steps-IsSound :
    (ss : List BrokerStep) (b : Broker)
    → IsSound b
    → (b' : Broker) × (run_steps ss b ≡ some b') × IsSound b'
unfolding run_steps
run_steps-IsSound [] b i = (b, refl, i)
run_steps-IsSound (s ∷ ss) b i =
    let (b', e, i') = run_step-Goes s b i in
    let (b'', e', i'') = run_steps-IsSound ss b' i' in (b'', ground arith, i'')

-- Whatever requests come, whatever is broadcast, whichever connections stall, break off, are
-- dropped or return, in whatever order and with a shutdown at any point: the broker goes on
-- without closing a closed channel or sending on one. A connection in its loop has a channel that
-- is a client's exactly when it is not closed; one that has not registered or has returned is no
-- client; no queue is above its 16 places; and after a shutdown no client is left.
pub never_panics :
    (ss : List BrokerStep) → (b : Broker) × (run_steps ss new_broker ≡ some b) × IsSound b
never_panics ss = run_steps-IsSound ss new_broker tt
