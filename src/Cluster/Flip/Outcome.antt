-- ===== src/Cluster/Flip/Outcome.antt =====
-- How a flip of frontend/components/cluster/ClusterHero.tsx ends.
use feature_flag_system.Prelude.{
  ◌≡◌, refl, ap, ◌∷◌, [], ◌++◌, ℕ, ◌+◌, ◌-◌, ◌≤◌, Text, Bool, true, false, not, ◌&&◌, ◌||◌, List,
  Option, some, is_none, ltb, if◌then◌else◌, every, length, text_eq_iff, arith, Dict, get, set,
  get-set,
}
use feature_flag_system.Cluster.{NodeState}
use feature_flag_system.Cluster.Flip.{
  idle, converged, settled, Hero, Poll, World, reached, note_arrivals, poll_body, poll_loop,
  run_flip, target_of, conclude, fail_flip, prepare, done,
}

-- The description of success: before the deadline some poll finds every node at the target.
unfoldable pub agrees_in_time : (tgt deadline : ℕ) → List Poll → Bool
agrees_in_time tgt deadline [] = false
agrees_in_time tgt deadline (p ∷ polls) =
    ltb p.tested_at deadline && (every (reached tgt) p.states || agrees_in_time tgt deadline polls)

pub noted_all :
    (tgt elapsed : ℕ) (states : List NodeState) (arrival : Dict ℕ)
    → (note_arrivals tgt elapsed states arrival).1 ≡ every (reached tgt) states
unfolding note_arrivals
noted_all tgt elapsed [] arrival = refl
noted_all tgt elapsed (s ∷ states) arrival =
    ap (λ b. reached tgt s && b) (noted_all tgt elapsed states _)

loop_converged :
    (tgt total t0 deadline : ℕ) (polls : List Poll) (hero : Hero) (arrival : Dict ℕ)
    → (poll_loop tgt total t0 deadline polls hero arrival).has_converged
      ≡ agrees_in_time tgt deadline polls
unfolding poll_loop agrees_in_time
loop_converged tgt total t0 deadline [] hero arrival = refl
loop_converged tgt total t0 deadline (p ∷ polls) hero arrival =
    let noted = note_arrivals tgt (p.seen_at - t0) p.states arrival in
    let hero' = poll_body tgt total t0 p hero noted.0 in
    ground (
      arith,
      noted_all tgt (p.seen_at - t0) p.states arrival,
      loop_converged tgt total t0 deadline polls hero' noted.0,
    )

body_error :
    (tgt total t0 : ℕ) (p : Poll) (hero : Hero) (arrival : Dict ℕ)
    → (poll_body tgt total t0 p hero arrival).error ≡ hero.error
unfolding poll_body
body_error tgt total t0 p hero arrival = refl

loop_error :
    (tgt total t0 deadline : ℕ) (polls : List Poll) (hero : Hero) (arrival : Dict ℕ)
    → (poll_loop tgt total t0 deadline polls hero arrival).hero.error ≡ hero.error
unfolding poll_loop
loop_error tgt total t0 deadline [] hero arrival = refl
loop_error tgt total t0 deadline (p ∷ polls) hero arrival =
    let noted = note_arrivals tgt (p.seen_at - t0) p.states arrival in
    let hero' = poll_body tgt total t0 p hero noted.0 in
    ground (
      arith,
      loop_error tgt total t0 deadline polls hero' noted.0,
      body_error tgt total t0 p hero noted.0,
    )

-- A flip that is started on an idle page with the flag there ends in one of three phases: idle
-- with an error when the change is refused, converged when in time some poll finds every node at
-- the target or later, settled otherwise; and the page can flip again.
pub run_flip_outcome :
    (urls : List Text) (w : World) (hero : Hero)
    → hero.running ≡ false
    → let after = run_flip urls true w hero in
      (after.phase ≡ (
        if not w.toggled
        then idle
        else if agrees_in_time (target_of w) (w.resumed_at + 8000) w.polls
        then converged
        else settled))
      × (after.error ≡ not w.toggled)
      × (after.running ≡ false)
unfolding run_flip conclude fail_flip prepare
run_flip_outcome urls w hero h =
    let flipped : Hero = record (prepare urls w (target_of w) hero) { source = done } in
    ground (
      arith,
      loop_converged (target_of w) (length urls) w.t0 (w.resumed_at + 8000) w.polls flipped [],
      loop_error (target_of w) (length urls) w.t0 (w.resumed_at + 8000) w.polls flipped [],
    )

-- The polling ends at the deadline: when a poll's turn comes then or later, the loop has ended, and
-- what it leaves is what the polls before leave: neither that poll nor any after it is made.
pub poll_loop_ends :
    (tgt total t0 deadline : ℕ) (before later : List Poll) (p : Poll) (hero : Hero)
    (arrival : Dict ℕ)
    → deadline ≤ p.tested_at
    → let made = poll_loop tgt total t0 deadline before hero arrival in
      let end = poll_loop tgt total t0 deadline (before ++ p ∷ later) hero arrival in
      (end.ended ≡ true)
      × (end.hero ≡ made.hero)
      × (end.arrival ≡ made.arrival)
      × (end.has_converged ≡ made.has_converged)
unfolding poll_loop
poll_loop_ends tgt total t0 deadline [] later p hero arrival h = ground arith
poll_loop_ends tgt total t0 deadline (q ∷ before) later p hero arrival h =
    let noted = note_arrivals tgt (q.seen_at - t0) q.states arrival in
    let hero' = poll_body tgt total t0 q hero noted.0 in
    ground (arith, poll_loop_ends tgt total t0 deadline before later p hero' noted.0 h)

note_keeps :
    (tgt elapsed : ℕ) (states : List NodeState) (arrival : Dict ℕ) (url : Text) (t : ℕ)
    → get url arrival ≡ some t
    → get url (note_arrivals tgt elapsed states arrival).0 ≡ some t
unfolding note_arrivals
note_keeps tgt elapsed [] arrival url t h = h
note_keeps tgt elapsed (s ∷ states) arrival url t h =
    note_keeps tgt elapsed states _ url t (first_kept (get s.url arrival) refl)
  where
    first_kept :
        (o : Option ℕ)
        → get s.url arrival ≡ o
        → get url (
            if reached tgt s && is_none (get s.url arrival)
            then set s.url elapsed arrival
            else arrival)
          ≡ some t
    first_kept o e = ground (arith, get-set s.url url elapsed arrival, text_eq_iff s.url url)

-- The time at which a node arrived, once noted, is never replaced.
pub arrival_kept :
    (tgt total t0 deadline : ℕ) (polls : List Poll) (hero : Hero) (arrival : Dict ℕ) (url : Text)
    (t : ℕ)
    → get url arrival ≡ some t
    → get url (poll_loop tgt total t0 deadline polls hero arrival).arrival ≡ some t
unfolding poll_loop
arrival_kept tgt total t0 deadline [] hero arrival url t h = h
arrival_kept tgt total t0 deadline (p ∷ polls) hero arrival url t h =
    let noted = note_arrivals tgt (p.seen_at - t0) p.states arrival in
    let hero' = poll_body tgt total t0 p hero noted.0 in
    let kept = note_keeps tgt (p.seen_at - t0) p.states arrival url t h in
    ground (arith, arrival_kept tgt total t0 deadline polls hero' noted.0 url t kept)
