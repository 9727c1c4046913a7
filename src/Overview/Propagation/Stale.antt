-- ===== src/Overview/Propagation/Stale.antt =====
-- An event of an earlier change in the hero of frontend/components/overview/PropagationHero.tsx.
use feature_flag_system.Prelude.{
  ◌≡◌, ap, ◌∙◌, ◌∷◌, [], ℕ, ◌+◌, ◌-◌, ◌<◌, ◌≤◌, true, false, List, some, every, arith, pos,
  parse_int,
}
use feature_flag_system.Cluster.{NodeState}
use feature_flag_system.Cluster.Flip.{converged, pre_max, Poll, reached}
use feature_flag_system.Cluster.Flip.Outcome.{noted_all}
use feature_flag_system.Overview.Propagation.{
  Propagation, reading, toggling, polling, same_stage, when, Push, other_key, clicks, answered,
  toggle_answered, polls, pushes, happen, happen_all, begin_flip, send_toggle, toggled, poll_nodes,
  on_update, finish_flip, poll_page,
}

early_event :
    (h : Propagation) (e : Push) (v now : ℕ)
    → h.is_running ≡ false
    → other_key e.key ≡ false
    → parse_int e.last_event_id ≡ some (pos v)
    → h.target ≤ v
    → let a = on_update e now (begin_flip true h) in
      (same_stage a.stage reading ≡ true) × (a.observed ≡ some now)
unfolding on_update begin_flip
early_event h e v now r k i old = ground (arith, r, k, i, old)

ready_to_poll :
    (known sent heard : ℕ) (before : List NodeState) (a : Propagation)
    → same_stage a.stage reading ≡ true
    → let b = when toggling (toggled heard) (when reading (send_toggle known before sent) a) in
      (same_stage b.stage polling ≡ true)
      × (b.observed ≡ a.observed)
      × (b.target ≡ pre_max known before + 1)
      × (b.deadline ≡ heard + 8000)
unfolding toggled send_toggle
ready_to_poll known sent heard before a r = ground arith

last_poll :
    (p : Poll) (b : Propagation) (now : ℕ)
    → same_stage b.stage polling ≡ true
    → b.observed ≡ some now
    → p.tested_at < b.deadline
    → every (reached b.target) p.states ≡ true
    → let c = when polling (poll_nodes p) b in
      (c.phase ≡ converged) × (c.observed ≡ some now) × (c.target ≡ b.target)
unfolding poll_nodes finish_flip poll_page
last_poll p b now r o d all =
    ground (arith, noted_all b.target (p.seen_at - b.t0) p.states b.arrival)

-- An event that arrives between the click and the answer of the nodes is compared with the target
-- of the run before: when its version is not below that old target, the page takes it for the
-- change that it has not yet sent. All nodes reaching the new target then make the page say
-- converged, although the event's version is below the target.
pub stale_event_observed :
    (h : Propagation) (e : Push) (v known now sent heard : ℕ) (before : List NodeState) (p : Poll)
    → h.is_running ≡ false
    → other_key e.key ≡ false
    → parse_int e.last_event_id ≡ some (pos v)
    → h.target ≤ v
    → v ≤ pre_max known before
    → p.tested_at < heard + 8000
    → every (reached (pre_max known before + 1)) p.states ≡ true
    → let after =
        happen_all
          (clicks true
            ∷ pushes e now
            ∷ answered known before sent
            ∷ toggle_answered heard
            ∷ polls p
            ∷ [])
          h in
      (after.phase ≡ converged) × (after.observed ≡ some now) × (v < after.target)
unfolding happen_all happen
stale_event_observed h e v known now sent heard before p r k i old new d all =
    let a = on_update e now (begin_flip true h) in
    let b = when toggling (toggled heard) (when reading (send_toggle known before sent) a) in
    let first = early_event h e v now r k i old in
    let second = ready_to_poll known sent heard before a first.0 in
    let third =
      last_poll p b now second.0 (second.1 ∙ first.1) (omega (arith, second.3, d))
        (ap (λ t. every (reached t) p.states) second.2 ∙ all) in
    (third.0, third.1, omega (arith, third.2, second.2, new))
