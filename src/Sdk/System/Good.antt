-- ===== src/Sdk/System/Good.antt =====
-- One operation at a time: callbacks and answers keep the client faithful.
use mathlib.Core.List.{Memᴰ}
use feature_flag_system.Prelude.{
  ℤ, ℕ, All, All-append_left, All-keep, ltb, subst, inl, inr, suc, ◌≤◌, ◌≡◌, refl, ◌++◌, ◌∷◌, [],
  Text, Bool, true, false, List, Option, none, some, parse_int, pos, Dict, arith, le_or_lt,
}
use feature_flag_system.Types.{
  created, updated, FlagConfig, FlagEvent, EventType, created, updated, deleted,
}
use feature_flag_system.Sdk.Client.{live, Client, set_status, notify_listeners}
use feature_flag_system.Sdk.Reconcile.{
  Pending, events, reconcile, reconcile_page, apply_page, next_page, finish, write_event, write_as,
}
use feature_flag_system.Sdk.Reconcile.Pages.{applied}
use feature_flag_system.Sdk.Stream.{on_message, apply_event, event_version}
use feature_flag_system.Sdk.Stream.Live.{apply_event-stale, apply_event-gap, apply_event-next}
use feature_flag_system.Sdk.Log.{latest, latest-All, after, Above}
use feature_flag_system.Sdk.Log.Next.{after_member}
use feature_flag_system.Sdk.System.{frame, IsKeyed, message_of}
use feature_flag_system.Sdk.System.Keeps.{
  finish-Keeps, reconcile-Keeps, next_page-Keeps, notify-Keeps,
}
use feature_flag_system.Sdk.System.Faithful.{
  apply_page-reached, IsFaithful, Keeps-IsFaithful, advance, apply_page-IsFaithful,
}

-- A callback or an answer keeps the client faithful, never takes its version back, and asks the
-- server from no version above the client's.
pub record IsGood (log : List FlagEvent) (c : Client) (r : Client × Option Pending) : Type 0 where
  pub faithful : IsFaithful log r.0
  pub grows : c.config_version ≤ r.0.config_version
  pub fresh : (p : Pending) → r.1 ≡ some p → p.since ≤ r.0.config_version
  pub reached : c.config_version ≤ latest log → r.0.config_version ≤ latest log

page-All :
    (log : List FlagEvent) (since : ℕ) (page rest : List FlagEvent)
    → after since log ≡ page ++ rest
    → All (λ x. x.version ≤ latest log) page
unfolding after
page-All log since page rest h =
    All-append_left (λ x. x.version ≤ latest log) page rest
      (subst (All (λ x. x.version ≤ latest log)) h (
        All-keep (λ x. x.version ≤ latest log) (λ x. ltb since x.version) log
          (latest-All (latest log) log (omega arith))))

member-le :
    (log : List FlagEvent) (e : FlagEvent) (n : ℕ)
    → All (λ x. x.version ≤ n) log
    → Memᴰ e log
    → e.version ≤ n
member-le [] e n h m = elim m [ ]
member-le (x ∷ xs) e n h (Memᴰ.head same) = rw same h.0
member-le (x ∷ xs) e n h (Memᴰ.tail m) = member-le xs e n h.1 m

next_page-fresh :
    (p q : Pending) (r : Client × Bool × Bool)
    → (next_page p r).1 ≡ some q
    → q.since ≤ (next_page p r).0.config_version
unfolding next_page
next_page-fresh p q (c, changed, false) h = cc
next_page-fresh p q (c, changed, true) h = ground arith

-- A page leaves the client faithful, whether the run goes on or ends.
pub reconcile_page-IsGood :
    (log : List FlagEvent) (page rest : List FlagEvent) (p : Pending) (c : Client)
    → Above 0 log
    → after p.since log ≡ page ++ rest
    → p.since ≤ c.config_version
    → IsFaithful log c
    → IsGood log c (reconcile_page (events page) p c)
unfolding reconcile_page
reconcile_page-IsGood log [] rest p c u h le faithful = record {
  faithful = Keeps-IsFaithful log c (finish p.changed c) (finish-Keeps p.changed c) faithful;
  grows = omega (arith, (finish-Keeps p.changed c).version);
  fresh = λ q e. cc;
  reached = λ h. omega (arith, (finish-Keeps p.changed c).version);
}
reconcile_page-IsGood log (e ∷ page) rest p c u h le faithful =
    let r : Client × Bool × Bool = apply_page (e ∷ page) c p.changed false in
    let (f, v) =
      apply_page-IsFaithful log p.since (e ∷ page) rest c p.changed false u h le faithful in
    record {
      faithful = Keeps-IsFaithful log r.0 (next_page p r).0 (next_page-Keeps p r) f;
      grows = omega (arith, v, (next_page-Keeps p r).version);
      fresh = λ q. next_page-fresh p q r;
      reached = λ b. omega (
        arith,
        (next_page-Keeps p r).version,
        apply_page-reached (latest log) (e ∷ page) c p.changed false
            (page-All log p.since (e ∷ page) rest h) b,
      );
    }

pub reconcile-IsGood :
    (log : List FlagEvent) (c : Client) → IsFaithful log c → IsGood log c (reconcile c)
reconcile-IsGood log c faithful = record {
  faithful = Keeps-IsFaithful log c (reconcile c).0 (reconcile-Keeps c) faithful;
  grows = omega (arith, (reconcile-Keeps c).version);
  fresh = λ p h. omega (arith, since p h, (reconcile-Keeps c).version);
  reached = λ h. omega (arith, (reconcile-Keeps c).version);
}
  where
    since : (p : Pending) → (reconcile c).1 ≡ some p → p.since ≡ c.config_version
    since p h = unfold reconcile in ground arith

still-IsGood :
    (log : List FlagEvent) (c d : Client)
    → IsFaithful log d
    → c.config_version ≤ d.config_version
    → (c.config_version ≤ latest log → d.config_version ≤ latest log)
    → IsGood log c (d, none)
still-IsGood log c d faithful grows reached = record {
  faithful = faithful;
  grows = grows;
  fresh = λ p h. cc;
  reached = reached;
}

-- A live event is applied only if it is the next one.
pub apply_event-IsGood :
    (log : List FlagEvent) (e : FlagEvent) (mutate : Dict FlagConfig → Dict FlagConfig) (c : Client)
    → Above 0 log
    → Memᴰ e log
    → ((m : Dict FlagConfig) → mutate m ≡ write_event e m)
    → IsFaithful log c
    → IsGood log c (apply_event (pos e.version) mutate c)
apply_event-IsGood log e mutate c u m same faithful = elim (le_or_lt e.version c.config_version) [
  | inl old ↦
      rw (apply_event-stale e.version mutate c old)
        (still-IsGood log c c faithful (omega arith) (λ b. b))
  | inr new ↦ elim (le_or_lt e.version (suc c.config_version)) [
    | inl close ↦
        let follows : e.version ≡ suc c.config_version = omega arith in
        let d = applied e c in
        let d' = notify_listeners (set_status live d) in
        let d'' =
          notify_listeners
            (set_status live (record c { flags = mutate c.flags; config_version = e.version })) in
        let same_d : d' ≡ d'' = rw (same c.flags) in
        rw (apply_event-next e.version mutate c follows, ← same_d)
          (still-IsGood log c d'
            (Keeps-IsFaithful log d d' (notify-Keeps d)
              (advance log c u (after_member 0 c.config_version e log u m follows) faithful))
            (omega (arith, (notify-Keeps d).version))
            (λ b. omega (
              arith,
              (notify-Keeps d).version,
              member-le log e (latest log) (latest-All (latest log) log (omega arith)) m,
            )))
    | inr far ↦
        rw (apply_event-gap e.version mutate c (omega arith)) (reconcile-IsGood log c faithful)
  ]
]

event_version_lem :
    (c : Client) (id : Text) {v : ℤ} → parse_int id ≡ some v → event_version c id ≡ v
unfolding event_version
event_version_lem c id h = ground arith

frame_lem :
    (t : EventType) (e : FlagEvent) (id : Text) (c : Client)
    → IsKeyed e
    → parse_int id ≡ some (pos e.version)
    → on_message (frame t id e) c ≡ apply_event (pos e.version) (write_as t e) c
unfolding on_message write_as
frame_lem deleted e id c keyed h = rw (event_version_lem c id h)
frame_lem created e id c keyed h = rw (event_version_lem c id h, keyed)
frame_lem updated e id c keyed h = rw (event_version_lem c id h, keyed)

-- The frame of an event does to the flags what the reconciliation does with the event.
pub on_message-apply_event :
    (e : FlagEvent) (id : Text) (c : Client)
    → IsKeyed e
    → parse_int id ≡ some (pos e.version)
    → on_message (message_of id e) c ≡ apply_event (pos e.version) (write_event e) c
unfolding write_event
on_message-apply_event e id c keyed h = frame_lem e.event_type e id c keyed h

pub on_message-IsGood :
    (log : List FlagEvent) (e : FlagEvent) (id : Text) (c : Client)
    → Above 0 log
    → Memᴰ e log
    → IsKeyed e
    → parse_int id ≡ some (pos e.version)
    → IsFaithful log c
    → IsGood log c (on_message (message_of id e) c)
on_message-IsGood log e id c u m keyed h faithful =
    rw (on_message-apply_event e id c keyed h)
      (apply_event-IsGood log e (write_event e) c u m (λ _. refl) faithful)
