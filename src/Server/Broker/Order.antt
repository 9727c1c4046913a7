-- ===== src/Server/Broker/Order.antt =====
-- What a connection of backend/internal/sse/broker.go writes is what was broadcast, in order and
-- without a gap.
pub mod Runs
use feature_flag_system.Prelude.{
  ℕ, zero, suc, ◌⊎◌, Bool, true, false, List, [], ◌∷◌, ◌++◌, Option, none, some, ◌≡◌, ◌≢◌, refl,
  sym, ap, ◌∙◌, arith, subst, if◌then◌else◌, length, ltb, get_elem?, Bool-cases, Option-cases, inl,
  inr,
}
use mathlib.Core.List.{append-nil, append_assoc}
use feature_flag_system.Server.Broker.{
  SseEvent, Frame, connected, heartbeat, frame, Conn, new_conn, Stage, entering, streaming, leaving,
  returned, Move, enter, take_one, beat, give_up, leave, capacity, offer, drain, drop_client,
  take_event, move_conn, Broker, new_broker, each, at_conn, BrokerStep, connect, at, broadcast,
  shut_down, run_step, run_steps,
}

-- The events among what a connection wrote.
unfoldable pub events_of : List Frame → List SseEvent
events_of [] = []
events_of (connected ∷ fs) = events_of fs
events_of (heartbeat ∷ fs) = events_of fs
events_of (frame e ∷ fs) = e ∷ events_of fs

-- What the steps broadcast.
unfoldable pub broadcasts : List BrokerStep → List SseEvent
broadcasts [] = []
broadcasts (broadcast e ∷ ss) = e ∷ broadcasts ss
broadcasts (connect ∷ ss) = broadcasts ss
broadcasts (at n m ∷ ss) = broadcasts ss
broadcasts (shut_down ∷ ss) = broadcasts ss

events_of-append : (fs gs : List Frame) → events_of (fs ++ gs) ≡ events_of fs ++ events_of gs
unfolding events_of
events_of-append [] gs = refl
events_of-append (connected ∷ fs) gs = events_of-append fs gs
events_of-append (heartbeat ∷ fs) gs = events_of-append fs gs
events_of-append (frame e ∷ fs) gs = ap (λ es. e ∷ es) (events_of-append fs gs)

-- What it wrote and what waits for it: all that it has got.
abbrev pub got : Conn → List SseEvent
got c = events_of c.output ++ c.queue

-- A connection that is past `register` has got the first part of what it was to hear, and all of
-- it as long as it is a client.
pub record Heard (heard : List SseEvent) (c : Conn) : Type 0 where
  pub missed : List SseEvent
  pub in_order : got c ++ missed ≡ heard
  pub complete : c.is_client ≡ true → missed ≡ []
  pub registered : c.stage ≢ entering

abbrev pub Hears : List SseEvent → Option Conn → Type 0
Hears h r = (c : Conn) → r ≡ some c → Heard h c

Hears-none : (h : List SseEvent) → Hears h none
Hears-none h c r = absurd (cc r)

Hears-some : (h : List SseEvent) (c : Conn) → Heard h c → Hears h (some c)
Hears-some h c k c' r = let same : c ≡ c' = cc r in subst (Heard h) same k

either :
    (h : List SseEvent) (b : Bool) (x y : Option Conn)
    → (b ≡ true → Hears h x)
    → (b ≡ false → Hears h y)
    → Hears h (if b then x else y)
either h true x y f g = f refl
either h false x y f g = g refl

-- As before, at the end of the stage.
same_got :
    (h : List SseEvent) (c c' : Conn)
    → Heard h c
    → got c' ≡ got c
    → (c'.is_client ≡ true → c.is_client ≡ true)
    → c'.stage ≢ entering
    → Heard h c'
same_got h c c' k g i s = record {
  missed = k.missed;
  in_order = ap (λ es. es ++ k.missed) g ∙ k.in_order;
  complete = λ j. k.complete (i j);
  registered = s;
}

module _ (c : Conn) (h : List SseEvent) (k : Heard h c) where
  all_got : c.is_client ≡ true → got c ≡ h
  all_got i = sym (append-nil (got c)) ∙ ap (λ es. got c ++ es) (sym (k.complete i)) ∙ k.in_order

  drop-Heard : c.is_client ≡ true → Hears h (drop_client c)
  unfolding drop_client
  drop-Heard i =
      let c' = record c { is_client = false; is_closed = true } in
      either h c.is_closed none (some c') (λ x. Hears-none h)
        (λ x. Hears-some h c' (same_got h c c' k refl (λ j. i) k.registered))

  pub missed-Heard : (e : SseEvent) → c.is_client ≡ false → Heard (h ++ e ∷ []) c
  missed-Heard e other = record {
    missed = k.missed ++ e ∷ [];
    in_order = sym (append_assoc (got c) k.missed (e ∷ [])) ∙ ap (λ es. es ++ e ∷ []) k.in_order;
    complete = λ j. cc (other, j);
    registered = k.registered;
  }

  queued-Heard :
      (e : SseEvent)
      → c.is_client ≡ true
      → Heard (h ++ e ∷ []) (record c { queue = c.queue ++ e ∷ [] })
  queued-Heard e client = record {
    missed = [];
    in_order =
        append-nil (events_of c.output ++ (c.queue ++ e ∷ []))
        ∙ sym (append_assoc (events_of c.output) c.queue (e ∷ []))
        ∙ ap (λ es. es ++ e ∷ []) (all_got client);
    complete = λ j. refl;
    registered = k.registered;
  }

  dropped-Heard :
      (e : SseEvent)
      → c.is_client ≡ true
      → Heard (h ++ e ∷ []) (record c { is_client = false; is_closed = true })
  dropped-Heard e client = record {
    missed = e ∷ [];
    in_order = ap (λ es. es ++ e ∷ []) (all_got client);
    complete = λ j. cc j;
    registered = k.registered;
  }

  pub offer-Heard : (e : SseEvent) → Hears (h ++ e ∷ []) (offer e c)
  unfolding offer drop_client
  offer-Heard e =
      let h' = h ++ e ∷ [] in
      let put = record c { queue = c.queue ++ e ∷ [] } in
      let out = record c { is_client = false; is_closed = true } in
      let dropped = if c.is_closed then none else some out in
      let queued = if ltb (length c.queue) capacity then some put else dropped in
      either h' c.is_client (if c.is_closed then none else queued) (some c)
        (λ i.
          either h' c.is_closed none queued (λ x. Hears-none h')
            (λ x.
              either h' (ltb (length c.queue) capacity) (some put) dropped
                (λ y. Hears-some h' put (queued-Heard e i))
                (λ y.
                  either h' c.is_closed none (some out) (λ z. Hears-none h')
                    (λ z. Hears-some h' out (dropped-Heard e i)))))
        (λ i. Hears-some h' c (missed-Heard e i))

  pub drain-Heard : Hears h (drain c)
  unfolding drain
  drain-Heard = either h c.is_client (drop_client c) (some c) drop-Heard (λ i. Hears-some h c k)

  take-Heard :
      (flushes : Bool) (q : List SseEvent)
      → c.queue ≡ q
      → c.stage ≡ streaming
      → Heard h (take_event flushes q c)
  unfolding events_of
  take-Heard flushes [] e s =
      elim c.is_closed as (λ b. Heard h (if b then record c { stage = leaving } else c)) [
        | true ↦ same_got h c (record c { stage = leaving }) k refl (λ j. j) (λ q. cc q)
        | false ↦ k
      ]
  take-Heard flushes (x ∷ xs) e s =
      same_got h c (take_event flushes (x ∷ xs) c) k
        (ap (λ es. es ++ xs) (events_of-append c.output (frame x ∷ []))
          ∙ append_assoc (events_of c.output) (x ∷ []) xs
          ∙ ap (λ es. events_of c.output ++ es) (sym e))
        (λ j. j) (ground arith)

  leave-Heard : (d : Bool) → c.stage ≡ leaving → Hears h (move_conn d leave leaving c)
  unfolding move_conn drop_client
  leave-Heard true s =
      Hears-some h (record c { stage = returned })
        (same_got h c (record c { stage = returned }) k refl (λ j. j) (λ q. cc q))
  leave-Heard false s =
      let r = record c { stage = returned } in
      let out = record c { stage = returned; is_client = false; is_closed = true } in
      either h c.is_client (if c.is_closed then none else some out) (some r)
        (λ i.
          either h c.is_closed none (some out) (λ x. Hears-none h)
            (λ x. Hears-some h out (same_got h c out k refl (λ j. i) (λ q. cc q))))
        (λ i. Hears-some h r (same_got h c r k refl (λ j. j) (λ q. cc q)))

  pub move-Heard : (d : Bool) (m : Move) (s : Stage) → c.stage ≡ s → Hears h (move_conn d m s c)
  unfolding move_conn events_of
  move-Heard d (enter flushes) entering e = absurd (k.registered e)
  move-Heard d (take_one flushes) streaming e =
      Hears-some h (take_event flushes c.queue c) (take-Heard flushes c.queue refl e)
  move-Heard d (beat flushes) streaming e =
      let c' = record c {
        output = c.output ++ heartbeat ∷ [];
        stage = if flushes then streaming else leaving;
      } in
      Hears-some h c' (
        same_got h c c' k
          (ap (λ es. es ++ c.queue)
            (events_of-append c.output (heartbeat ∷ []) ∙ append-nil (events_of c.output)))
          (λ j. j) (ground arith))
  move-Heard d give_up streaming e =
      Hears-some h (record c { stage = leaving })
        (same_got h c (record c { stage = leaving }) k refl (λ j. j) (λ q. cc q))
  move-Heard d leave leaving e = leave-Heard d e
  move-Heard d m s e = Hears-some h c k
