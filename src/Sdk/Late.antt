-- ===== src/Sdk/Late.antt =====
-- A commit out of order, and the clients of frontend/sdk/FeatureFlagClient.ts that have passed its
-- version already.
pub mod Asked
mod Tests
use mathlib.Core.List.{Memᴰ, append_assoc}
use feature_flag_system.Prelude.{
  ◌≡◌, refl, sym, ◌∙◌, ap, subst, ℕ, ℤ, pos, negsuc, ◌≤◌, ◌<◌, Text, Bool, true, false, List, [],
  ◌∷◌, ◌++◌, Option, none, some, ◌⊎◌, inl, inr, Dict, get, parse_int, All, arith,
}
use feature_flag_system.Types.{FlagConfig, FlagEvent}
use feature_flag_system.Sdk.Client.{Client}
use feature_flag_system.Sdk.Reconcile.{
  Pending, Page, thrown, refused, events, reconcile, reconcile_page, next_page, apply_page, finish,
  give_up, write_event,
}
use feature_flag_system.Sdk.Init.{set_all}
use feature_flag_system.Sdk.Stream.{
  Message, flag_updated, flag_deleted, on_message, on_open, on_error, apply_event,
}
use feature_flag_system.Sdk.Stream.Live.{apply_event-stale}
use feature_flag_system.Sdk.Log.{after, latest, Above, no_flags, state_at}
use feature_flag_system.Sdk.System.{
  System, Step, Reach, here, next, commit, receive, opened, fail, poll, answer, refuse, throw, call,
  run_call, after_callback, after_answer, message_of, IsKeyed,
}
use feature_flag_system.Sdk.Late.Asked.{
  IsFresh, reconcile-IsFresh, on_message-IsFresh, reconcile_page-IsFresh,
}
use feature_flag_system.Sdk.System.Good.{on_message-apply_event}
use feature_flag_system.Sdk.System.Keeps.{reconcile-Keeps}
use feature_flag_system.Sdk.System.Reachable.{
  Invariant, Step-version, Reach-Invariant, start, start-Invariant, never_wrong,
}

after_late :
    (v : ℕ) (e : FlagEvent) (xs ys : List FlagEvent)
    → e.version ≤ v
    → after v (xs ++ e ∷ ys) ≡ after v (xs ++ ys)
unfolding after
after_late v e [] ys h = ground arith
after_late v e (x ∷ xs) ys h = ground (arith, after_late v e xs ys h)

latest_late : (e : FlagEvent) (xs ys : List FlagEvent) → latest (xs ++ ys) ≤ latest (xs ++ e ∷ ys)
unfolding latest
latest_late e [] ys = omega arith
latest_late e (x ∷ xs) ys = omega (arith, latest_late e xs ys)

member_late :
    (d e : FlagEvent) (xs ys : List FlagEvent) → Memᴰ d (xs ++ e ∷ ys) → (d ≡ e) ⊎ Memᴰ d (xs ++ ys)
member_late d e [] ys (Memᴰ.head same) = inl same
member_late d e [] ys (Memᴰ.tail m) = inr m
member_late d e (x ∷ xs) ys (Memᴰ.head same) = inr (Memᴰ.head same)
member_late d e (x ∷ xs) ys (Memᴰ.tail m) = elim (member_late d e xs ys m) [
  | inl same ↦ inl same
  | inr later ↦ inr (Memᴰ.tail later)
]

-- The log of a system is not read by what its client does.
after_callback-log :
    (s : System) (log : List FlagEvent) (r : Client × Option Pending)
    → after_callback (record s { log = log }) r ≡ record (after_callback s r) { log = log }
after_callback-log s log (c, none) = refl
after_callback-log s log (c, some p) = refl

after_callback-same : (s : System) (r : Client × Option Pending) → (after_callback s r).log ≡ s.log
after_callback-same s (c, none) = refl
after_callback-same s (c, some p) = refl

module _ (s0 : System) (i0 : Invariant s0) (xs : List FlagEvent) (e : FlagEvent)
    (keyed : IsKeyed e) where
  -- The system as it would be without the late event, which the client has passed, and which no
  -- request of the client asks for.
  abbrev less : System → List FlagEvent → System
  less t rest = record t { log = xs ++ rest }

  record IsDeprived (t : System) : Type 0 where
    pub rest : List FlagEvent
    pub logged : t.log ≡ xs ++ e ∷ rest
    pub reached : Reach s0 (less t rest)
    pub passed : e.version ≤ t.client.config_version
    pub asked : (p : Pending) → t.pending ≡ some p → e.version ≤ p.since

  -- A step of the system without the event.
  step-IsDeprived :
      (t u : System) (d : IsDeprived t)
      → u.log ≡ t.log
      → Step (less t d.rest) (less u d.rest)
      → ((p : Pending) → u.pending ≡ some p → e.version ≤ p.since)
      → IsDeprived u
  step-IsDeprived t u d same st asked = record {
    rest = d.rest;
    logged = same ∙ d.logged;
    reached = next d.reached st;
    passed = omega (arith, d.passed, Step-version st (Reach-Invariant d.reached i0));
    asked = asked;
  }

  callback-IsDeprived :
      (t : System) (d : IsDeprived t) (r : Client × Option Pending)
      → IsFresh r
      → Step (less t d.rest) (after_callback (less t d.rest) r)
      → IsDeprived (after_callback t r)
  callback-IsDeprived t d (c, none) fresh st =
      step-IsDeprived t (record t { client = c }) d refl st d.asked
  callback-IsDeprived t d (c, some q) fresh st =
      let grows = Step-version st (Reach-Invariant d.reached i0) in
      step-IsDeprived t (record t { client = c; pending = some q }) d refl st
        (λ p h. omega (arith, fresh p h, d.passed, grows))

  answer-IsDeprived :
      (t : System) (d : IsDeprived t) (r : Client × Option Pending)
      → IsFresh r
      → Step (less t d.rest) (after_answer (less t d.rest) r)
      → IsDeprived (after_answer t r)
  answer-IsDeprived t d (c, q) fresh st =
      let grows = Step-version st (Reach-Invariant d.reached i0) in
      step-IsDeprived t (record t { client = c; pending = q }) d refl st
        (λ p h. omega (arith, fresh p h, d.passed, grows))

  commit-IsDeprived :
      (t : System) (d : IsDeprived t) (x : FlagEvent)
      → latest t.log < x.version
      → IsKeyed x
      → IsDeprived (record t { log = t.log ++ x ∷ [] })
  commit-IsDeprived t d x h k =
      let above = subst (λ l. latest l < x.version) d.logged h in
      let st = commit x (omega (arith, latest_late e xs d.rest, above)) k in
      record {
        rest = d.rest ++ x ∷ [];
        logged = ap (λ l. l ++ x ∷ []) d.logged ∙ append_assoc xs (e ∷ d.rest) (x ∷ []);
        reached =
            subst (λ l. Reach s0 (record t { log = l })) (append_assoc xs d.rest (x ∷ []))
              (next d.reached st);
        passed = d.passed;
        asked = d.asked;
      }

  -- A frame of the late event is ignored; a frame of another is one that the log without it has.
  receive-IsDeprived :
      (t : System) (d : IsDeprived t) (x : FlagEvent) (id : Text)
      → Memᴰ x t.log
      → parse_int id ≡ some (pos x.version)
      → IsDeprived (after_callback t (on_message (message_of id x) t.client))
  receive-IsDeprived t d x id m h = elim (member_late x e xs d.rest (subst (Memᴰ x) d.logged m)) [
    | inl same ↦
        let ignored : on_message (message_of id x) t.client ≡ (t.client, none) =
          on_message-apply_event x id t.client (subst IsKeyed (sym same) keyed) h
          ∙ apply_event-stale x.version (write_event x) t.client
              (omega (arith, ap (λ y. y.version) same, d.passed)) in
        subst (λ r. IsDeprived (after_callback t r)) (sym ignored) d
    | inr there ↦
        callback-IsDeprived t d (on_message (message_of id x) t.client)
          (on_message-IsFresh (message_of id x) t.client) (receive x id there h)
  ]

  Step-IsDeprived : {t u : System} → Step t u → IsDeprived t → IsDeprived u
  unfolding on_open
  Step-IsDeprived {t} (commit x h k) d = commit-IsDeprived t d x h k
  Step-IsDeprived {t} (receive x id m h) d = receive-IsDeprived t d x id m h
  Step-IsDeprived {t} opened d =
      callback-IsDeprived t d (reconcile t.client) (reconcile-IsFresh t.client) opened
  Step-IsDeprived {t} (fail es b) d =
      step-IsDeprived t (record t { client = on_error es b t.client }) d refl (fail es b) d.asked
  Step-IsDeprived {t} poll d =
      callback-IsDeprived t d (reconcile t.client) (reconcile-IsFresh t.client) poll
  Step-IsDeprived {t} (answer p page rest w h) d =
      let same =
        sym (after_late p.since e xs d.rest (d.asked p w))
        ∙ ap (after p.since) (sym d.logged)
        ∙ h in
      answer-IsDeprived t d (reconcile_page (events page) p t.client)
        (reconcile_page-IsFresh (events page) p t.client) (answer p page rest w same)
  Step-IsDeprived {t} (refuse p w) d =
      answer-IsDeprived t d (reconcile_page refused p t.client)
        (reconcile_page-IsFresh refused p t.client) (refuse p w)
  Step-IsDeprived {t} (throw p w) d =
      answer-IsDeprived t d (reconcile_page thrown p t.client)
        (reconcile_page-IsFresh thrown p t.client) (throw p w)
  Step-IsDeprived {t} (call op) d =
      step-IsDeprived t (record t { client = run_call op t.client }) d refl (call op) d.asked

  Reach-IsDeprived : {t u : System} → Reach t u → IsDeprived t → IsDeprived u
  Reach-IsDeprived here d = d
  Reach-IsDeprived (next r st) d = Step-IsDeprived st (Reach-IsDeprived r d)

-- Every event of an ascending log writes, if it writes a flag, the one under its own key, and a
-- client has started from a snapshot that is the log's configuration at the version that it names,
-- and has run to some state with no replay under way. Then an event commits, late, whose version the
-- client has reached or passed; it too writes under its own key, and stands anywhere in the log.
-- Whatever happens then, frames of that event, replays and later commits in order included: the
-- event stays in the log, and for every key the client holds what the log without that event gives
-- at the client's version.
pub late_commit_lost :
    (c : Client) (fs : List FlagConfig) (v : ℕ) (log : List FlagEvent)
    → Above 0 log
    → All IsKeyed log
    → ((k : Text) → get k (set_all fs []) ≡ state_at v log no_flags k)
    → v ≤ latest log
    → (s : System) → Reach (start c fs v log) s
    → s.pending ≡ none
    → (e : FlagEvent) (xs ys : List FlagEvent) → s.log ≡ xs ++ ys
    → IsKeyed e
    → e.version ≤ s.client.config_version
    → (t : System) → Reach (record s { log = xs ++ e ∷ ys }) t
    → (rest : List FlagEvent) × (t.log ≡ xs ++ e ∷ rest)
      × ((k : Text)
          → get k t.client.flags ≡ state_at t.client.config_version (xs ++ rest) no_flags k)
late_commit_lost c fs v log ascends keyed consistent known s r idle e xs ys split ek le t q =
    let i0 = start-Invariant c fs v log ascends keyed consistent known in
    let d = Reach-IsDeprived (start c fs v log) i0 xs e ek q (record {
      rest = ys;
      logged = refl;
      reached = subst (λ l. Reach (start c fs v log) (record s { log = l })) split r;
      passed = le;
      asked = λ p h. absurd (cc (sym idle ∙ h));
    }) in
    (d.rest, d.logged, (never_wrong c fs v log ascends keyed consistent known d.reached).0)
