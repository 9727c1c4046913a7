-- ===== src/Overview/Propagation/Runs.antt =====
-- What every run of the hero of frontend/components/overview/PropagationHero.tsx keeps.
use feature_flag_system.Prelude.{
  ◌≡◌, refl, sym, ◌∙◌, ◌∷◌, [], ℕ, ◌-◌, Text, Bool, true, false, not, ◌&&◌, ◌||◌, List, is_none,
  ltb, if◌then◌else◌, arith,
}
use feature_flag_system.Cluster.Flip.{Phase, running, converged, note_arrivals, Poll}
use feature_flag_system.Overview.Propagation.{
  Propagation, StageState, done, Stage, at_rest, reading, toggling, polling, same_stage, when, Push,
  Happening, clicks, answered, toggle_answered, toggle_refused, beats, polls, pushes, happen,
  happen_all, open_page, begin_flip, send_toggle, toggled, toggle_failed, redis_beat, poll_nodes,
  on_update, finish_flip, poll_page,
}

abbrev pub is_converged : Phase → Bool
is_converged converged = true
is_converged _ = false

abbrev pub is_flipping : Phase → Bool
is_flipping running = true
is_flipping _ = false

abbrev pub is_done : StageState → Bool
is_done done = true
is_done _ = false

-- A page waits for something exactly while its guard is up and its phase is that of a run; the
-- browser is lit exactly when an event was observed; and convergence needs an observation.
pub record IsConsistent (h : Propagation) : Type 0 where
  guarded : same_stage h.stage at_rest ≡ not h.is_running
  flipping : is_flipping h.phase ≡ h.is_running
  lit : is_done h.browser ≡ not (is_none h.observed)
  seen : is_converged h.phase ≡ true → is_none h.observed ≡ false

IsConsistent-if :
    (b : Bool) (g h : Propagation)
    → (b ≡ true → IsConsistent g)
    → (b ≡ false → IsConsistent h)
    → IsConsistent (if b then g else h)
IsConsistent-if true g h x y = x refl
IsConsistent-if false g h x y = y refl

finish-IsConsistent :
    (b : Bool) (h : Propagation)
    → IsConsistent h
    → (b ≡ true → is_none h.observed ≡ false)
    → IsConsistent (finish_flip b h)
unfolding finish_flip
finish-IsConsistent true h c o = record { guarded = refl; flipping = refl; lit = c.lit; seen = o }
finish-IsConsistent false h c o = record {
  guarded = refl;
  flipping = refl;
  lit = c.lit;
  seen = (λ e. absurd (cc));
}

on_update-IsConsistent :
    (e : Push) (now : ℕ) (h : Propagation) → IsConsistent h → IsConsistent (on_update e now h)
unfolding on_update
on_update-IsConsistent e now h c = record {
  guarded = ground (arith, c.guarded);
  flipping = ground (arith, c.flipping);
  lit = ground (arith, c.lit);
  seen = ground (arith, c.seen);
}

page-IsConsistent : (p : Poll) (h : Propagation) → IsConsistent h → IsConsistent (poll_page p h)
unfolding poll_page
page-IsConsistent p h c = record {
  guarded = c.guarded;
  flipping = c.flipping;
  lit = c.lit;
  seen = c.seen;
}

observed_page :
    (p : Poll) (h : Propagation)
    → is_none h.observed ≡ false
    → is_none (poll_page p h).observed ≡ false
unfolding poll_page
observed_page p h k = k

poll-IsConsistent :
    (p : Poll) (h : Propagation)
    → h.is_running ≡ true
    → IsConsistent h
    → IsConsistent (poll_nodes p h)
unfolding poll_nodes
poll-IsConsistent p h r c =
    let d = page-IsConsistent p h c in
    let noted = note_arrivals h.target (p.seen_at - h.t0) p.states h.arrival in
    IsConsistent-if (not (ltb p.tested_at h.deadline)) (finish_flip false h) _
      (λ late. finish-IsConsistent false h c (λ e. absurd (cc)))
      (λ early.
        IsConsistent-if (noted.1 && not (is_none h.observed)) (finish_flip true (poll_page p h))
          (poll_page p h)
          (λ all.
            finish-IsConsistent true (poll_page p h) d (λ e. observed_page p h (ground arith)))
          (λ some_left. d))

not_rest : (r : Bool) → not r ≡ false → r ≡ true
not_rest r h = ground arith

running_of :
    (s t : Stage) (r : Bool)
    → same_stage s at_rest ≡ not r
    → same_stage s t ≡ true
    → same_stage t at_rest ≡ false
    → r ≡ true
running_of s t r h k l = ground arith

when-IsConsistent :
    (s : Stage) (f : Propagation → Propagation) (h : Propagation)
    → same_stage s at_rest ≡ false
    → IsConsistent h
    → (h.is_running ≡ true → IsConsistent (f h))
    → IsConsistent (when s f h)
when-IsConsistent s f h n c k =
    IsConsistent-if (same_stage h.stage s) (f h) h
      (λ e. k (running_of h.stage s h.is_running c.guarded e n)) (λ e. c)

happen-IsConsistent : (x : Happening) (h : Propagation) → IsConsistent h → IsConsistent (happen x h)
unfolding happen begin_flip send_toggle toggled toggle_failed redis_beat
happen-IsConsistent (clicks b) h c =
    IsConsistent-if (h.is_running || not b) h _ (λ e. c)
      (λ e. record { guarded = refl; flipping = refl; lit = refl; seen = (λ e. absurd (cc)) })
happen-IsConsistent (answered known before now) h c =
    when-IsConsistent reading (send_toggle known before now) h refl c (λ r. record {
      guarded = ground (arith, r);
      flipping = c.flipping;
      lit = c.lit;
      seen = c.seen;
    })
happen-IsConsistent (toggle_answered now) h c =
    when-IsConsistent toggling (toggled now) h refl c (λ r. record {
      guarded = ground (arith, r);
      flipping = c.flipping;
      lit = c.lit;
      seen = c.seen;
    })
happen-IsConsistent toggle_refused h c =
    when-IsConsistent toggling toggle_failed h refl c
      (λ r. record { guarded = refl; flipping = refl; lit = c.lit; seen = (λ e. absurd (cc)) })
happen-IsConsistent beats h c =
    IsConsistent-if h.redis_timer _ h
      (λ e. record { guarded = c.guarded; flipping = c.flipping; lit = c.lit; seen = c.seen })
      (λ e. c)
happen-IsConsistent (polls p) h c =
    when-IsConsistent polling (poll_nodes p) h refl c (λ r. poll-IsConsistent p h r c)
happen-IsConsistent (pushes e now) h c = on_update-IsConsistent e now h c

-- A click while the guard is up leaves the page as it is.
click_running : (b : Bool) (h : Propagation) → h.is_running ≡ true → happen (clicks b) h ≡ h
unfolding happen begin_flip
click_running b h r = ground (arith, r)

-- Whatever the reader clicks, and in whatever order the nodes, the server, the timer and the
-- stream answer, the page stays consistent: it waits for something exactly while its guard is up
-- and its phase is that of a run, the browser is lit exactly when an event was observed, and the
-- page never says converged without one; and as long as it waits, a click changes nothing.
pub happen_all-IsConsistent :
    (xs : List Happening) (urls : List Text)
    → let h = happen_all xs (open_page urls) in
      IsConsistent h × ((b : Bool) → same_stage h.stage at_rest ≡ false → happen (clicks b) h ≡ h)
unfolding happen_all open_page
happen_all-IsConsistent xs urls =
    let h = happen_all xs (open_page urls) in
    let c =
      run xs (open_page urls)
        (record { guarded = refl; flipping = refl; lit = refl; seen = (λ e. absurd (cc)) }) in
    (c, λ b w. click_running b h (not_rest h.is_running (sym c.guarded ∙ w)))
  where
    run : (xs : List Happening) (h : Propagation) → IsConsistent h → IsConsistent (happen_all xs h)
    run [] h c = c
    run (x ∷ xs) h c = run xs (happen x h) (happen-IsConsistent x h c)
