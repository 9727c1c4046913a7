-- ===== src/Sdk/System/Reachable.antt =====
-- What holds of the client in every reachable state.
use mathlib.Core.List.{Memᴰ}
use feature_flag_system.Prelude.{
  ap, ℕ, ◌<◌, ◌≤◌, ◌≡◌, sym, ◌∙◌, ◌++◌, ◌∷◌, [], List, Option, none, some, All, All-append, arith,
  Text, get,
}
use feature_flag_system.Types.{FlagEvent, FlagConfig}
use feature_flag_system.Sdk.Client.{connect_sse, Client, ConnectionStatus, reconnecting}
use feature_flag_system.Sdk.Reconcile.{
  Pending, refused_status, thrown, refused, events, reconcile, reconcile_page, give_up,
}
use feature_flag_system.Sdk.Stream.{on_message, on_open, on_error}
use feature_flag_system.Sdk.Init.{snapshot, init_rest, bootstrap, set_all}
use feature_flag_system.Sdk.Log.{latest, latest-commit, no_flags, state_at, Above}
use feature_flag_system.Sdk.Log.Next.{state_at_commit}
use feature_flag_system.Sdk.System.{
  message_of, System, IsKeyed, Step, Reach, here, next, commit, receive, opened, fail, poll, answer,
  refuse, throw, call, run_call, after_callback, after_answer,
}
use feature_flag_system.Sdk.System.Keeps.{Keeps, run_call-Keeps, on_error-Keeps, give_up-Keeps}
use feature_flag_system.Sdk.System.Faithful.{IsFaithful, Keeps-IsFaithful}
use feature_flag_system.Sdk.System.Good.{
  IsGood, reconcile_page-IsGood, reconcile-IsGood, on_message-IsGood,
}

-- The log ascends and is keyed, the client's flags are the log's at its version and the log has
-- reached that version, and a waiting reconciliation asked from no later version.
pub record Invariant (s : System) : Type 0 where
  pub ascends : Above 0 s.log
  pub keyed : All IsKeyed s.log
  pub faithful : IsFaithful s.log s.client
  pub behind : (p : Pending) → s.pending ≡ some p → p.since ≤ s.client.config_version
  pub reached : s.client.config_version ≤ latest s.log

All-mem : (log : List FlagEvent) (e : FlagEvent) → All IsKeyed log → Memᴰ e log → IsKeyed e
All-mem [] e h m = elim m [ ]
All-mem (x ∷ xs) e h (Memᴰ.head same) = rw same h.0
All-mem (x ∷ xs) e h (Memᴰ.tail m) = All-mem xs e h.1 m

pub Above-commit :
    (lo : ℕ) (e : FlagEvent) (log : List FlagEvent)
    → Above lo log
    → lo < e.version
    → latest log < e.version
    → Above lo (log ++ e ∷ [])
unfolding latest
Above-commit lo e [] u h l = (h, tt)
Above-commit lo e (x ∷ xs) u h l =
    (u.0, Above-commit x.version e xs u.1 (omega arith) (omega arith))

commit-Invariant :
    (s : System)
    → Invariant s
    → (e : FlagEvent) → latest s.log < e.version
    → IsKeyed e
    → Invariant (record s { log = s.log ++ e ∷ [] })
commit-Invariant s i e h k = record {
  ascends = Above-commit 0 e s.log i.ascends (omega arith) h;
  keyed = All-append IsKeyed s.log (e ∷ []) i.keyed (k, tt);
  faithful = λ key.
      i.faithful key
      ∙ ap (λ m. m key)
          (sym
            (state_at_commit s.client.config_version e s.log no_flags (omega (arith, i.reached))));
  behind = i.behind;
  reached = omega (arith, i.reached, latest-commit e s.log h);
}

module _ (s : System) (i : Invariant s) where
  callback-Invariant :
      (r : Client × Option Pending) → IsGood s.log s.client r → Invariant (after_callback s r)
  callback-Invariant (c, none) g = record {
    ascends = i.ascends;
    keyed = i.keyed;
    faithful = g.faithful;
    behind = λ p h. omega (arith, i.behind p h, g.grows);
    reached = g.reached i.reached;
  }
  callback-Invariant (c, some q) g = record {
    ascends = i.ascends;
    keyed = i.keyed;
    faithful = g.faithful;
    behind = g.fresh;
    reached = g.reached i.reached;
  }

  answer-Invariant :
      (r : Client × Option Pending) → IsGood s.log s.client r → Invariant (after_answer s r)
  answer-Invariant (c, q) g = record {
    ascends = i.ascends;
    keyed = i.keyed;
    faithful = g.faithful;
    behind = g.fresh;
    reached = g.reached i.reached;
  }

  client-Invariant : (c : Client) → Keeps s.client c → Invariant (record s { client = c })
  client-Invariant c same = record {
    ascends = i.ascends;
    keyed = i.keyed;
    faithful = Keeps-IsFaithful s.log s.client c same i.faithful;
    behind = λ p h. omega (arith, i.behind p h, same.version);
    reached = omega (arith, i.reached, same.version);
  }

  give_up-IsGood : (st : ConnectionStatus) → IsGood s.log s.client (give_up st s.client, none)
  give_up-IsGood st = record {
    faithful =
        Keeps-IsFaithful s.log s.client (give_up st s.client) (give_up-Keeps st s.client)
          i.faithful;
    grows = omega (arith, (give_up-Keeps st s.client).version);
    fresh = λ p h. cc;
    reached = λ b. omega (arith, (give_up-Keeps st s.client).version);
  }

-- Every step of any party keeps the invariant.
pub Step-Invariant : {s t : System} → Step s t → Invariant s → Invariant t
unfolding on_open reconcile_page
Step-Invariant {s} (commit e h k) i = commit-Invariant s i e h k
Step-Invariant {s} (receive e id m h) i =
    callback-Invariant s i (on_message (message_of id e) s.client)
      (on_message-IsGood s.log e id s.client i.ascends m (All-mem s.log e i.keyed m) h i.faithful)
Step-Invariant {s} opened i =
    callback-Invariant s i (reconcile s.client) (reconcile-IsGood s.log s.client i.faithful)
Step-Invariant {s} (fail es b) i =
    client-Invariant s i (on_error es b s.client) (on_error-Keeps es b s.client)
Step-Invariant {s} poll i =
    callback-Invariant s i (reconcile s.client) (reconcile-IsGood s.log s.client i.faithful)
Step-Invariant {s} (answer p page rest w h) i =
    answer-Invariant s i (reconcile_page (events page) p s.client)
      (reconcile_page-IsGood s.log page rest p s.client i.ascends h (i.behind p w) i.faithful)
Step-Invariant {s} (refuse p w) i =
    answer-Invariant s i (reconcile_page refused p s.client) (give_up-IsGood s i (refused_status p))
Step-Invariant {s} (throw p w) i =
    answer-Invariant s i (reconcile_page thrown p s.client) (give_up-IsGood s i reconnecting)
Step-Invariant {s} (call op) i =
    client-Invariant s i (run_call op s.client) (run_call-Keeps op s.client)

pub Reach-Invariant : {s t : System} → Reach s t → Invariant s → Invariant t
Reach-Invariant here i = i
Reach-Invariant (next r st) i = Step-Invariant st (Reach-Invariant r i)

callback-version :
    (s : System) (r : Client × Option Pending)
    → IsGood s.log s.client r
    → s.client.config_version ≤ (after_callback s r).client.config_version
callback-version s (c, none) g = g.grows
callback-version s (c, some q) g = g.grows

-- No step takes the client's version back.
pub Step-version :
    {s t : System} → Step s t → Invariant s → s.client.config_version ≤ t.client.config_version
unfolding on_open reconcile_page
Step-version {s} (commit e h k) i = omega arith
Step-version {s} (receive e id m h) i =
    callback-version s (on_message (message_of id e) s.client)
      (on_message-IsGood s.log e id s.client i.ascends m (All-mem s.log e i.keyed m) h i.faithful)
Step-version {s} opened i =
    callback-version s (reconcile s.client) (reconcile-IsGood s.log s.client i.faithful)
Step-version {s} (fail es b) i = omega (arith, (on_error-Keeps es b s.client).version)
Step-version {s} poll i =
    callback-version s (reconcile s.client) (reconcile-IsGood s.log s.client i.faithful)
Step-version {s} (answer p page rest w h) i =
    (reconcile_page-IsGood s.log page rest p s.client i.ascends h (i.behind p w) i.faithful).grows
Step-version {s} (refuse p w) i = (give_up-IsGood s i (refused_status p)).grows
Step-version {s} (throw p w) i = (give_up-IsGood s i reconnecting).grows
Step-version {s} (call op) i = omega (arith, (run_call-Keeps op s.client).version)

Reach-version :
    {s t : System} → Reach s t → Invariant s → s.client.config_version ≤ t.client.config_version
Reach-version here i = omega arith
Reach-version (next r st) i =
    omega (arith, Reach-version r i, Step-version st (Reach-Invariant r i))

-- The system when `init` has been fulfilled with the flags `fs` and the version `v`.
abbrev pub start : Client → List FlagConfig → ℕ → List FlagEvent → System
start c fs v log = record {
  client = (init_rest (snapshot fs (some v)) c).0;
  pending = none;
  log = log;
}

pub init_rest-flags :
    (c : Client) (fs : List FlagConfig) (v : ℕ)
    → ((init_rest (snapshot fs (some v)) c).0.flags ≡ set_all fs [])
      × ((init_rest (snapshot fs (some v)) c).0.config_version ≡ v)
unfolding init_rest bootstrap connect_sse
init_rest-flags c fs v = ground arith

module _ (c : Client) (fs : List FlagConfig) (v : ℕ) (log : List FlagEvent) (ascends : Above 0 log)
    (keyed : All IsKeyed log)
    (consistent : (k : Text) → get k (set_all fs []) ≡ state_at v log no_flags k)
    (known : v ≤ latest log) where
  pub start-Invariant : Invariant (start c fs v log)
  start-Invariant =
      let same = init_rest-flags c fs v in
      record {
        ascends = ascends;
        keyed = keyed;
        faithful = λ k. cc (same.0, same.1, consistent k);
        behind = λ p h. cc;
        reached = omega (arith, same.1);
      }

  -- After an `init` whose snapshot is the log's configuration at the version that it names, and
  -- whatever commits, frames (late, repeated, out of order or lost), stream errors, polls, pages,
  -- failed requests and calls follow in whatever order: for every key, the client holds exactly
  -- what the log gives at the client's version, and the log has reached that version.
  pub never_wrong :
      {t : System}
      → Reach (start c fs v log) t
      → ((k : Text) → get k t.client.flags ≡ state_at t.client.config_version t.log no_flags k)
        × (t.client.config_version ≤ latest t.log)
  never_wrong r = let i = Reach-Invariant r start-Invariant in (i.faithful, i.reached)

  -- Under the same conditions the version never falls: between any two states of a run.
  pub never_regress :
      {t u : System}
      → Reach (start c fs v log) t
      → Reach t u
      → t.client.config_version ≤ u.client.config_version
  never_regress r q = Reach-version q (Reach-Invariant r start-Invariant)
