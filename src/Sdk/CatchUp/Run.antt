-- ===== src/Sdk/CatchUp/Run.antt =====
-- Enough pages bring the client up to the log.
use feature_flag_system.Prelude.{
  ℕ, zero, suc, ◌+◌, ◌*◌, ◌≤◌, ◌≡◌, refl, sym, ap, ◌∙◌, ◌++◌, ◌∷◌, [], Bool, true, false, List,
  Option, none, some, arith, ltb, if◌then◌else◌, take, drop, length, take-append-drop, length-drop,
  eq-nil_of_length, le_or_lt, inl, inr,
}
use feature_flag_system.Types.{FlagEvent}
use feature_flag_system.Sdk.Client.{Client, live, set_status, notify_listeners}
use feature_flag_system.Sdk.Reconcile.{
  Pending, events, max_pages, reconcile, reconcile_page, next_page, apply_page, finish,
}
use feature_flag_system.Sdk.Reconcile.Pages.{applied, apply_page-new}
use feature_flag_system.Sdk.Log.{after, Above}
use feature_flag_system.Sdk.Log.Next.{after-lt, after_next}
use feature_flag_system.Sdk.System.Keeps.{finish-Keeps, reconcile-Keeps}
use feature_flag_system.Sdk.System.Faithful.{IsFaithful, Keeps-IsFaithful, advance}
use feature_flag_system.Sdk.CatchUp.{page_limit, list_events_since, drive}

page_limit-pos : (limit : ℕ) → 1 ≤ page_limit limit
unfolding page_limit
page_limit-pos limit = ground arith

advanced_stays :
    (page : List FlagEvent) (c : Client) (changed : Bool)
    → (apply_page page c changed true).2 ≡ true
unfolding apply_page
advanced_stays [] c changed = refl
advanced_stays (e ∷ page) c changed =
    ground (arith, advanced_stays page c changed, advanced_stays page (applied e c) true)

-- A page from the client's own version is applied whole.
page_applied :
    (log page rest : List FlagEvent) (c : Client) (changed advanced : Bool)
    → Above 0 log
    → after c.config_version log ≡ page ++ rest
    → IsFaithful log c
    → let r = apply_page page c changed advanced in
      IsFaithful log r.0 × (after r.0.config_version log ≡ rest)
page_applied log [] rest c changed advanced u h f = unfold apply_page in (f, h)
page_applied log (e ∷ page) rest c changed advanced u h f =
    rw (apply_page-new e page c changed advanced (after-lt c.config_version log h)) (
      page_applied log page rest (applied e c) true true u (after_next 0 c.config_version log u h)
        (advance log c u h f))

-- The run has ended: the client is live, free for the next run, and has the whole log.
pub record IsCaughtUp (log : List FlagEvent) (r : Client × Option Pending) : Type 0 where
  pub ended : r.1 ≡ none
  pub status : r.0.status ≡ live
  pub free : r.0.is_reconciling ≡ false
  pub nothing_left : after r.0.config_version log ≡ []
  pub faithful : IsFaithful log r.0

finish-IsCaughtUp :
    (log : List FlagEvent) (changed : Bool) (c : Client)
    → IsFaithful log c
    → after c.config_version log ≡ []
    → IsCaughtUp log (finish changed c, none)
finish-IsCaughtUp log changed c f h = record {
  ended = refl;
  status = finished.0;
  free = finished.1;
  nothing_left = rw (finish-Keeps changed c).version h;
  faithful = Keeps-IsFaithful log c (finish changed c) (finish-Keeps changed c) f;
}
  where
    finished : ((finish changed c).status ≡ live) × ((finish changed c).is_reconciling ≡ false)
    finished = unfold finish set_status notify_listeners in ground arith

drop-nil : (n : ℕ) (xs : List FlagEvent) → 1 ≤ n → take n xs ≡ [] → drop n xs ≡ []
drop-nil zero xs h e = absurd (omega arith)
drop-nil (suc n) [] h e = refl
drop-nil (suc n) (x ∷ xs) h e = cc

drive_ended :
    (n : ℕ) (log : List FlagEvent) (limit : ℕ) (c : Client)
    → drive n log limit (c, none) ≡ (c, none)
unfolding drive
drive_ended zero log limit c = refl
drive_ended (suc n) log limit c = refl

next_page_advanced :
    (p : Pending) (r : Client × Bool × Bool)
    → r.2 ≡ true
    → next_page p r ≡ (
        if ltb (p.guard + 1) max_pages
        then (
          r.0,
          some (record p { changed = r.1; guard = p.guard + 1; since = r.0.config_version }),
        )
        else (finish r.1 r.0, none))
unfolding next_page
next_page_advanced p (c, changed, true) h = refl
next_page_advanced p (c, changed, false) h = cc

reconcile_starts :
    (c : Client)
    → c.is_reconciling ≡ false
    → (p : Pending) × ((reconcile c).1 ≡ some p) × (p.guard ≡ 0) × (p.since ≡ c.config_version)
unfolding reconcile
reconcile_starts c free = (
  record { prev_status = c.status; changed = false; guard = 0; since = c.config_version },
  ground arith,
  refl,
  refl,
)

module _ (log : List FlagEvent) (limit : ℕ) (u : Above 0 log) where
  -- What a run of `n` more requests needs.
  record IsReady (n : ℕ) (p : Pending) (c : Client) : Type 0 where
    guarded : p.guard + n ≡ max_pages
    some_left : 1 ≤ n
    current : p.since ≡ c.config_version
    enough : length (after c.config_version log) ≤ n * page_limit limit
    faithful : IsFaithful log c

  -- One page, and then the rest of the run.
  drive_page :
      (n : ℕ) (p : Pending) (c : Client) (page rest : List FlagEvent)
      → ((q : Pending) (d : Client)
          → IsReady n q d
          → IsCaughtUp log (drive n log limit (d, some q)))
      → after c.config_version log ≡ page ++ rest
      → (page ≡ [] → rest ≡ [])
      → length rest ≤ n * page_limit limit
      → p.guard + suc n ≡ max_pages
      → IsFaithful log c
      → IsCaughtUp log (drive n log limit (reconcile_page (events page) p c))
  drive_page n p c [] rest ih h none_left short g f =
      unfold reconcile_page in
      rw (drive_ended n log limit (finish p.changed c))
        (finish-IsCaughtUp log p.changed c f (h ∙ none_left refl))
  drive_page n p c (e ∷ page) rest ih h none_left short g f =
      let r : Client × Bool × Bool = apply_page (e ∷ page) c p.changed false in
      let (rf, left) = page_applied log (e ∷ page) rest c p.changed false u h f in
      let adv : r.2 ≡ true =
        rw (apply_page-new e page c p.changed false (after-lt c.config_version log h))
          (advanced_stays page (applied e c) true) in
      let same : reconcile_page (events (e ∷ page)) p c ≡ next_page p r =
        unfold reconcile_page in refl in
      elim (le_or_lt n 0) [
        | inl last ↦
            let stop : ltb (p.guard + 1) max_pages ≡ false = ground arith in
            rw (same, next_page_advanced p r adv, stop, drive_ended n log limit (finish r.1 r.0))
              (finish-IsCaughtUp log r.1 r.0 rf (left ∙ eq-nil_of_length rest (grind arith)))
        | inr more ↦
            let go : ltb (p.guard + 1) max_pages ≡ true = ground arith in
            rw (same, next_page_advanced p r adv, go)
              (ih (record p { changed = r.1; guard = p.guard + 1; since = r.0.config_version }) r.0
                (record {
                  guarded = omega arith;
                  some_left = omega arith;
                  current = refl;
                  enough = rw left short;
                  faithful = rf;
                }))
      ]

  drive-IsCaughtUp :
      (n : ℕ) (p : Pending) (c : Client)
      → IsReady n p c
      → IsCaughtUp log (drive n log limit (c, some p))
  unfolding drive list_events_since
  drive-IsCaughtUp zero p c ready = absurd (omega (arith, ready.some_left))
  drive-IsCaughtUp (suc n) p c ready =
      let rem = after c.config_version log in
      let size = page_limit limit in
      let same : after p.since log ≡ rem = ap (λ v. after v log) ready.current in
      rw same (
        drive_page n p c (take size rem) (drop size rem) (drive-IsCaughtUp n)
          (sym (take-append-drop size rem)) (drop-nil size rem (page_limit-pos limit))
          (omega (arith, length-drop size rem, ready.enough)) ready.guarded ready.faithful)

  -- A client whose flags are those of an ascending log at the client's version, which is behind
  -- that log by no more than 10000 pages, and which no other reconciliation occupies, reconciles
  -- with a server that answers each request by `ListEventsSince`: within 10000 requests the run
  -- ends, the client is live and free, nothing of the log is left to fetch, and the flags are the
  -- log's at the client's version.
  pub reconcile_catches_up :
      (c : Client)
      → c.is_reconciling ≡ false
      → IsFaithful log c
      → length (after c.config_version log) ≤ max_pages * page_limit limit
      → IsCaughtUp log (drive max_pages log limit (reconcile c))
  reconcile_catches_up c free f enough =
      let d = (reconcile c).0 in
      let kept = reconcile-Keeps c in
      let (p, started, guard, since) = reconcile_starts c free in
      let both : reconcile c ≡ (d, some p) = cc started in
      rw both (
        drive-IsCaughtUp max_pages p d (record {
          guarded = omega (arith, guard);
          some_left = omega arith;
          current = since ∙ sym kept.version;
          enough = rw kept.version enough;
          faithful = Keeps-IsFaithful log c d kept f;
        }))
