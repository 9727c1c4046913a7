-- ===== src/Demo/Silence.antt =====
-- A replay that breaks off, and what the page says after it.
use feature_flag_system.Prelude.{
  ap, subst, sym, ◌∙◌, ◌+◌, ◌<◌, ◌∷◌, [], true, false, none, some, ℕ, List, Dict, ◌≡◌, refl, ltb,
  lt→ltb,
}
use feature_flag_system.Types.{FlagConfig, FlagEvent}
use feature_flag_system.Sdk.Log.{Above}
use feature_flag_system.Sdk.Client.{reconciling, Client, set_status, reconnecting, live}
use feature_flag_system.Sdk.Reconcile.{
  Pending, Page, thrown, events, reconcile, reconcile_page, apply_page, next_page, finish, give_up,
  write_event, max_pages,
}
use feature_flag_system.Sdk.Reconcile.Pages.{applied, apply_page-new}
use feature_flag_system.Demo.{
  DemoPage, operate_pending, happen, happen_all, page_arrives, stream_opens, answer_pending,
  first_pending,
}
use feature_flag_system.Sdk.Stream.{on_open}
use feature_flag_system.Demo.Quiet.{
  IsUnheard, IsUnheard-trans, set_status-IsQuietStep, at_rest, operate_pending-IsUnheard,
}

-- What events do to the flags, one after the other, and the version that they lead to.
unfoldable pub write_events : List FlagEvent → Dict FlagConfig → Dict FlagConfig
write_events [] flags = flags
write_events (e ∷ es) flags = write_events es (write_event e flags)

unfoldable pub last_version : List FlagEvent → ℕ → ℕ
last_version [] v = v
last_version (e ∷ es) v = last_version es e.version

abbrev replayed : List FlagEvent → Client → Client
replayed es c = record c {
  flags = write_events es c.flags;
  config_version = last_version es c.config_version;
}

-- Of a page that ascends from the client's version every event is applied.
apply_page-replayed :
    (es : List FlagEvent) (c : Client)
    → Above c.config_version es
    → apply_page es c true true ≡ (replayed es c, true, true)
unfolding apply_page write_events last_version
apply_page-replayed [] c u = refl
apply_page-replayed (e ∷ es) c u =
    apply_page-new e es c true true u.0 ∙ apply_page-replayed es (applied e c) u.1

-- How the page stands after each of the steps.
abbrev IsApplied : List FlagEvent → DemoPage → DemoPage → Type 0
IsApplied es p r =
    IsUnheard p r × (r.client ≡ replayed es (at_rest p)) × ((q : Pending) × (r.pending ≡ some q))

abbrev IsUnchanged : DemoPage → DemoPage → Type 0
IsUnchanged p r =
    IsUnheard p r
    × (r.client.flags ≡ p.client.flags)
    × (r.client.config_version ≡ p.client.config_version)

-- An answer to the request in flight.
answered :
    (P : DemoPage → Type 0) (page : Page) (p : DemoPage) (q : Pending)
    → p.pending ≡ some q
    → P (answer_pending page (some q) p)
    → P (happen (page_arrives page) p)
unfolding happen
answered P page p q h t = subst (λ o. P (answer_pending page o p)) (sym h) t

-- A page of new events, from a run that has requests left.
page_step :
    (p : DemoPage) (q : Pending) (e : FlagEvent) (es : List FlagEvent)
    → Above p.client.config_version (e ∷ es)
    → q.guard + 1 < max_pages
    → let r = answer_pending (events (e ∷ es)) (some q) p in IsApplied (e ∷ es) p r
unfolding operate_pending write_events last_version
page_step p q e es u more =
    let c = at_rest p in
    let d = replayed (e ∷ es) c in
    let q' = record q { changed = true; guard = q.guard + 1; since = d.config_version } in
    let new : apply_page (e ∷ es) c q.changed false ≡ (d, true, true) =
      (apply_page-new e es c q.changed false u.0 ∙ apply_page-replayed es (applied e c) u.1) in
    let go : ltb (q.guard + 1) max_pages ≡ true = lt→ltb (q.guard + 1) max_pages more in
    let first : reconcile_page (events (e ∷ es)) q c
        ≡ next_page q (apply_page (e ∷ es) c q.changed false) =
      unfold reconcile_page in refl in
    let last : next_page q (d, true, true) ≡ (d, some q') = unfold next_page in rw go refl in
    let run = first ∙ ap (next_page q) new ∙ last in
    let (heard, same) =
      operate_pending-IsUnheard (λ d. reconcile_page (events (e ∷ es)) q d) p (rw run tt) in
    (heard, same ∙ ap (λ x. x.0) run, (q', ap (λ x. x.1) run))

-- A request that fails.
thrown_step :
    (p : DemoPage) (q : Pending)
    → let r = answer_pending thrown (some q) p in
      IsUnchanged p r × (r.client.is_reconciling ≡ false)
unfolding reconcile_page give_up
thrown_step p q =
    let st = set_status-IsQuietStep reconnecting (at_rest p) refl in
    let (u, same) = operate_pending-IsUnheard (λ d. reconcile_page thrown q d) p st.quiet in
    (
      (u, ap (λ c. c.flags) same ∙ st.flags, ap (λ c. c.config_version) same ∙ st.version),
      ap (λ c. c.is_reconciling) same,
    )

reconcile_free :
    (c : Client)
    → c.is_reconciling ≡ false
    → reconcile c ≡ (
      set_status reconciling (record c { is_reconciling = true }),
      some
          (record { prev_status = c.status; changed = false; guard = 0; since = c.config_version }),
    )
unfolding reconcile
reconcile_free c free = simp free

open_step :
    (p : DemoPage)
    → p.client.is_reconciling ≡ false
    → let r = happen stream_opens p in
      IsUnchanged p r × ((q : Pending) × (r.pending ≡ some q) × (q.changed ≡ false))
unfolding happen on_open operate_pending
open_step p free =
    let c = record (at_rest p) { is_reconciling = true } in
    let q : Pending = record {
      prev_status = p.client.status;
      changed = false;
      guard = 0;
      since = p.client.config_version;
    } in
    let st = set_status-IsQuietStep reconciling c refl in
    let run : reconcile (at_rest p) ≡ (set_status reconciling c, some q) =
      reconcile_free (at_rest p) free in
    let (u, same) = operate_pending-IsUnheard (λ d. on_open d) p (rw run st.quiet) in
    (
      (
        record { same_flags = u.same_flags; same_version = u.same_version },
        ap (λ d. d.flags) same ∙ ap (λ x. x.0.flags) run ∙ st.flags,
        ap (λ d. d.config_version) same ∙ ap (λ x. x.0.config_version) run ∙ st.version,
      ),
      (q, ap (λ x. first_pending x.1 p.pending) run, refl),
    )

end_step :
    (p : DemoPage) (q : Pending)
    → q.changed ≡ false
    → let r = answer_pending (events []) (some q) p in IsUnchanged p r × (r.client.status ≡ live)
unfolding reconcile_page finish
end_step p q unchanged =
    let st = set_status-IsQuietStep live (at_rest p) refl in
    let c = record (set_status live (at_rest p)) { is_reconciling = false } in
    let run : reconcile_page (events []) q (at_rest p) ≡ (c, none) = rw unchanged refl in
    let (u, same) =
      operate_pending-IsUnheard (λ d. reconcile_page (events []) q d) p
        (rw (reconcile_page, finish, unchanged) st.quiet) in
    (
      (
        u,
        ap (λ d. d.flags) same ∙ ap (λ x. x.0.flags) run ∙ st.flags,
        ap (λ d. d.config_version) same ∙ ap (λ x. x.0.config_version) run ∙ st.version,
      ),
      ap (λ d. d.status) same ∙ ap (λ x. x.0.status) run ∙ st.status,
    )

-- A replay waits for a page and has a further request left. The page comes, with events that ascend
-- from the client's version, and the next request fails; the stream opens again, and the replay that
-- this starts finds nothing new. Then the client decides by the events of the page and counts as
-- live, but the page's copies of the flags and of the version are the old ones: `changed` of the
-- broken run is lost, and the later one does not tell either.
pub broken_replay_unheard :
    (p : DemoPage) (q : Pending) (e : FlagEvent) (es : List FlagEvent)
    → p.pending ≡ some q
    → Above p.client.config_version (e ∷ es)
    → q.guard + 1 < max_pages
    → let r =
        happen_all
          (page_arrives (events (e ∷ es))
            ∷ page_arrives thrown
            ∷ stream_opens
            ∷ page_arrives (events [])
            ∷ [])
          p in
      (r.client.config_version ≡ last_version (e ∷ es) p.client.config_version)
      × (r.client.flags ≡ write_events (e ∷ es) p.client.flags)
      × (r.client.status ≡ live)
      × (r.all_flags ≡ p.all_flags)
      × (r.client_version ≡ p.client_version)
unfolding happen_all
broken_replay_unheard p q e es waits newer more =
    let p1 = happen (page_arrives (events (e ∷ es))) p in
    let p2 = happen (page_arrives thrown) p1 in
    let p3 = happen stream_opens p2 in
    let p4 = happen (page_arrives (events [])) p3 in
    let (u1, c1, (q1, w1)) =
      answered (IsApplied (e ∷ es) p) (events (e ∷ es)) p q waits (page_step p q e es newer more) in
    let ((u2, f2, v2), free) =
      answered (λ r. IsUnchanged p1 r × (r.client.is_reconciling ≡ false)) thrown p1 q1 w1
        (thrown_step p1 q1) in
    let ((u3, f3, v3), (q3, w3, unchanged)) = open_step p2 free in
    let ((u4, f4, v4), is_live) =
      answered (λ r. IsUnchanged p3 r × (r.client.status ≡ live)) (events []) p3 q3 w3
        (end_step p3 q3 unchanged) in
    let u =
      IsUnheard-trans p p1 p4 u1 (IsUnheard-trans p1 p2 p4 u2 (IsUnheard-trans p2 p3 p4 u3 u4)) in
    (
      v4 ∙ v3 ∙ v2 ∙ ap (λ c. c.config_version) c1,
      f4 ∙ f3 ∙ f2 ∙ ap (λ c. c.flags) c1,
      is_live,
      u.same_flags,
      u.same_version,
    )
