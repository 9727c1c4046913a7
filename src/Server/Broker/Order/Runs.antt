-- ===== src/Server/Broker/Order/Runs.antt =====
-- A connection of backend/internal/sse/broker.go over a run of the broker.
use feature_flag_system.Prelude.{
  ℕ, zero, suc, ◌⊎◌, Bool, true, false, List, [], ◌∷◌, ◌++◌, Option, none, some, ◌≡◌, refl, sym, ap,
  ◌∙◌, arith, subst, All, get_elem?, Bool-cases, Option-cases, inl, inr,
}
use mathlib.Core.List.{append-nil, append_assoc}
use feature_flag_system.Server.Broker.{
  SseEvent, Conn, new_conn, offer, drain, move_conn, Broker, new_broker, each, at_conn, BrokerStep,
  connect, at, broadcast, shut_down, run_step, run_steps, with_conns,
}
use feature_flag_system.Server.Broker.Sound.{IsConn, IsSound, never_panics, run_step-Goes}
use feature_flag_system.Server.Broker.Order.{
  Heard, Hears, broadcasts, got, offer-Heard, drain-Heard, move-Heard, missed-Heard,
}

-- What happens to the connection with a number, when it happens to all or to one.
each_at :
    (f : Conn → Option Conn) (n : ℕ) (cs ds : List Conn) (c : Conn)
    → each f cs ≡ some ds
    → get_elem? cs n ≡ some c
    → (d : Conn) × (get_elem? ds n ≡ some d) × (f c ≡ some d)
unfolding each
each_at f n [] ds c r g = absurd (cc g)
each_at f zero (x ∷ xs) ds c r g = elim (Option-cases (f x)) [
  | inl e ↦ absurd (ground arith)
  | inr (y, e) ↦ elim (Option-cases (each f xs)) [
    | inl e' ↦ absurd (ground arith)
    | inr (ys, e') ↦ (y, ground arith, ground arith)
  ]
]
each_at f (suc n) (x ∷ xs) ds c r g = elim (Option-cases (f x)) [
  | inl e ↦ absurd (ground arith)
  | inr (y, e) ↦ elim (Option-cases (each f xs)) [
    | inl e' ↦ absurd (ground arith)
    | inr (ys, e') ↦
        let (d, h, q) = each_at f n xs ys c e' g in
        let same : ds ≡ y ∷ ys = ground arith in (d, ap (λ zs. get_elem? zs (suc n)) same ∙ h, q)
  ]
]

at_at :
    (f : Conn → Option Conn) (m n : ℕ) (cs ds : List Conn) (c : Conn)
    → at_conn m f cs ≡ some ds
    → get_elem? cs n ≡ some c
    → (d : Conn) × (get_elem? ds n ≡ some d) × ((f c ≡ some d) ⊎ (d ≡ c))
unfolding at_conn
at_at f m n [] ds c r g = absurd (cc g)
at_at f zero zero (x ∷ xs) ds c r g = elim (Option-cases (f x)) [
  | inl e ↦ absurd (ground arith)
  | inr (y, e) ↦ (y, ground arith, ground arith)
]
at_at f zero (suc n) (x ∷ xs) ds c r g = elim (Option-cases (f x)) [
  | inl e ↦ absurd (ground arith)
  | inr (y, e) ↦ (c, ground arith, inr refl)
]
at_at f (suc m) zero (x ∷ xs) ds c r g = elim (Option-cases (at_conn m f xs)) [
  | inl e ↦ absurd (ground arith)
  | inr (ys, e) ↦ (c, ground arith, inr refl)
]
at_at f (suc m) (suc n) (x ∷ xs) ds c r g = elim (Option-cases (at_conn m f xs)) [
  | inl e ↦ absurd (ground arith)
  | inr (ys, e) ↦
      let (d, h, q) = at_at f m n xs ys c e g in
      let same : ds ≡ x ∷ ys = ground arith in (d, ap (λ zs. get_elem? zs (suc n)) same ∙ h, q)
]

All-at :
    (P : Conn → Type 0) (n : ℕ) (cs : List Conn) (c : Conn)
    → All P cs
    → get_elem? cs n ≡ some c
    → P c
All-at P n [] c a g = absurd (cc g)
All-at P zero (x ∷ xs) c a g = let same : x ≡ c = cc g in subst P same a.0
All-at P (suc n) (x ∷ xs) c a g = All-at P n xs c a.1 g

append-at :
    (n : ℕ) (cs ds : List Conn) (c : Conn)
    → get_elem? cs n ≡ some c
    → get_elem? (cs ++ ds) n ≡ some c
append-at n [] ds c g = absurd (cc g)
append-at zero (x ∷ xs) ds c g = g
append-at (suc n) (x ∷ xs) ds c g = append-at n xs ds c g

-- The connection with the number `n` has heard so much.
abbrev HeardAt : ℕ → List SseEvent → Broker → Type 0
HeardAt n h b = (c : Conn) × (get_elem? b.conns n ≡ some c) × Heard h c

quiet : (n : ℕ) (h : List SseEvent) (b : Broker) → HeardAt n h b → HeardAt n (h ++ []) b
quiet n h b k = subst (λ x. HeardAt n x b) (sym (append-nil h)) k

with_conns-some :
    (d : Bool) (o : Option (List Conn)) (b : Broker)
    → with_conns d o ≡ some b
    → (cs : List Conn) × (o ≡ some cs) × (record { conns = cs; is_done = d } ≡ b)
with_conns-some d none b r = absurd (cc r)
with_conns-some d (some cs) b r = (cs, refl, cc r)

-- A step that does the same to every connection.
each-HeardAt :
    (f : Conn → Option Conn) (d : Bool) (n : ℕ) (h h' : List SseEvent) (cs : List Conn)
    (b' : Broker)
    → with_conns d (each f cs) ≡ some b'
    → ((c : Conn) → Heard h c → Hears h' (f c))
    → (c : Conn) → get_elem? cs n ≡ some c
    → Heard h c
    → HeardAt n h' b'
each-HeardAt f d n h h' cs b' r step c g k =
    let (ds, e, same) = with_conns-some d (each f cs) b' r in
    let (c', g', q) = each_at f n cs ds c e g in subst (HeardAt n h') same (c', g', step c k c' q)

step-HeardAt :
    (n : ℕ) (h : List SseEvent) (s : BrokerStep) (b b' : Broker)
    → IsSound b
    → run_step s b ≡ some b'
    → HeardAt n h b
    → HeardAt n (h ++ broadcasts (s ∷ [])) b'
unfolding run_step broadcasts
step-HeardAt n h connect b b' i r (c, g, k) =
    let same : record b { conns = b.conns ++ new_conn ∷ [] } ≡ b' = cc r in
    subst (HeardAt n (h ++ [])) same (
      quiet n h (record b { conns = b.conns ++ new_conn ∷ [] })
        (c, append-at n b.conns (new_conn ∷ []) c g, k))
step-HeardAt n h (at m mv) b b' i r (c, g, k) =
    let f = λ (x : Conn). move_conn b.is_done mv x.stage x in
    let (ds, e, same) = with_conns-some b.is_done (at_conn m f b.conns) b' r in
    let (c', g', q) = at_at f m n b.conns ds c e g in
    quiet n h b' (
      subst (HeardAt n h) same (elim q [
        | inl moved ↦ (c', g', move-Heard c h k b.is_done mv c.stage refl c' moved)
        | inr still ↦ (c', g', subst (Heard h) (sym still) k)
      ]))
step-HeardAt n h (broadcast e) b b' i r (c, g, k) = elim (Bool-cases b.is_done) [
  | inl over ↦
      let same : b ≡ b' = ground arith in
      let idle = (All-at (IsConn b.is_done) n b.conns c i g).stopped over in
      subst (HeardAt n (h ++ e ∷ [])) same (c, g, missed-Heard c h k e idle)
  | inr on ↦
      each-HeardAt (offer e) false n h (h ++ e ∷ []) b.conns b' (ground arith)
        (λ x j. offer-Heard x h j e) c g k
]
step-HeardAt n h shut_down b b' i r (c, g, k) = elim (Bool-cases b.is_done) [
  | inl over ↦ let same : b ≡ b' = ground arith in quiet n h b' (subst (HeardAt n h) same (c, g, k))
  | inr on ↦
      quiet n h b'
        (each-HeardAt drain true n h h b.conns b' (ground arith) (λ x j. drain-Heard x h j) c g k)
]

broadcasts-cons :
    (s : BrokerStep) (ss : List BrokerStep)
    → broadcasts (s ∷ ss) ≡ broadcasts (s ∷ []) ++ broadcasts ss
unfolding broadcasts
broadcasts-cons connect ss = refl
broadcasts-cons (at n m) ss = refl
broadcasts-cons (broadcast e) ss = refl
broadcasts-cons shut_down ss = refl

run-HeardAt :
    (n : ℕ) (ss : List BrokerStep) (h : List SseEvent) (b : Broker)
    → IsSound b
    → HeardAt n h b
    → (b' : Broker) × (run_steps ss b ≡ some b') × HeardAt n (h ++ broadcasts ss) b'
unfolding run_steps
run-HeardAt n [] h b i k = (b, refl, unfold broadcasts in quiet n h b k)
run-HeardAt n (s ∷ ss) h b i k =
    let (b', e, i') = run_step-Goes s b i in
    let (b'', e', k') =
      run-HeardAt n ss (h ++ broadcasts (s ∷ [])) b' i' (step-HeardAt n h s b b' i e k) in
    let all : (h ++ broadcasts (s ∷ [])) ++ broadcasts ss ≡ h ++ broadcasts (s ∷ ss) =
      append_assoc h (broadcasts (s ∷ [])) (broadcasts ss)
      ∙ ap (λ es. h ++ es) (sym (broadcasts-cons s ss)) in
    (b'', ground arith, subst (λ x. HeardAt n x b'') all k')

-- A connection that is a client, in a broker that has run in any way, over any further run: what
-- it has written and what waits for it, and then the events that it missed, are what it had
-- before and then everything that was broadcast. So it hears in the order of the broadcasts,
-- without a gap and without a repetition, and it has missed nothing as long as it is a client.
pub hears_in_order :
    (before ss : List BrokerStep) (b : Broker) (n : ℕ) (c : Conn)
    → run_steps before new_broker ≡ some b
    → get_elem? b.conns n ≡ some c
    → c.is_client ≡ true
    → (b' : Broker) × (run_steps ss b ≡ some b')
      × ((c' : Conn) × (get_elem? b'.conns n ≡ some c')
          × ((missed : List SseEvent) × (got c' ++ missed ≡ got c ++ broadcasts ss)
              × (c'.is_client ≡ true → missed ≡ [])))
hears_in_order before ss b n c r g client =
    let (b0, r0, i0) = never_panics before in
    let same : b0 ≡ b = cc (r, r0) in
    let i : IsSound b = subst IsSound same i0 in
    let start : Heard (got c) c = record {
      missed = [];
      in_order = append-nil (got c);
      complete = λ j. refl;
      registered = λ e. cc (client, ((All-at (IsConn b.is_done) n b.conns c i g).fresh e).0);
    } in
    let (b', e, (c', g', k)) = run-HeardAt n ss (got c) b i (c, g, start) in
    (b', e, (c', g', (k.missed, k.in_order, k.complete)))
