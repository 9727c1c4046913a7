-- ===== src/Server/Overlap/Unique.antt =====
-- However the transactions of backend/internal/repository/flag_repository.go overlap, no version is
-- used twice: `version` is the primary key of the log.
use feature_flag_system.Prelude.{
  ◌≡◌, ◌≢◌, refl, sym, subst, ℕ, ◌≤◌, Text, false, List, [], ◌∷◌, ◌++◌, Option, none, some, arith,
  All, All-append, All-imp, inl, inr, ◌==◌, Bool-cases, ==_iff,
}
use feature_flag_system.Types.{FlagEvent}
use feature_flag_system.Sdk.Log.{Above, Above-weaken, latest-All}
use feature_flag_system.Server.{Store, empty_store}
use feature_flag_system.Server.Service.{Write, run_writes}
use feature_flag_system.Server.Sound.Writes.{run_writes-IsSound}
use feature_flag_system.Server.Overlap.Appended.{IsAppended, perform-IsAppended}
use feature_flag_system.Server.Overlap.{
  Pending, perform, Overlap, begin_tx, end_tx, end_found, pending_at, without, TxStep, begins, ends,
  rolls_back, tx_step, tx_steps,
}

abbrev pub IsUnique : List FlagEvent → Type 0
IsUnique [] = Unit
IsUnique (e ∷ events) = All (λ d. d.version ≢ e.version) events × IsUnique events

abbrev IsUniquePending : List (ℕ × Pending) → Type 0
IsUniquePending [] = Unit
IsUniquePending (p ∷ pending) = All (λ q. q.0 ≢ p.0) pending × IsUniquePending pending

abbrev IsUnused : List FlagEvent → ℕ × Pending → Type 0
IsUnused events p = All (λ e. e.version ≢ p.0) events

-- What a log, the transactions under way and the number that was drawn last have in common.
record IsFreshAt (n : ℕ) (events : List FlagEvent) (pending : List (ℕ × Pending)) : Type 0 where
  pub drawn : All (λ e. e.version ≤ n) events
  pub begun : All (λ p. p.0 ≤ n) pending
  pub unique : IsUnique events
  pub apart : IsUniquePending pending
  pub unused : All (IsUnused events) pending

abbrev IsFresh : Overlap → Type 0
IsFresh o = IsFreshAt o.store.sequence o.store.events o.pending

IsUnique-append :
    (events : List FlagEvent) (e : FlagEvent)
    → IsUnique events
    → All (λ d. d.version ≢ e.version) events
    → IsUnique (events ++ e ∷ [])
IsUnique-append [] e u h = (tt, tt)
IsUnique-append (d ∷ events) e u h = (
  All-append (λ x. x.version ≢ d.version) events (e ∷ []) u.0 (λ same. h.0 (sym same), tt),
  IsUnique-append events e u.1 h.1,
)

without-All {κ} :
    (P : ℕ × Pending → Type κ) (version : ℕ) (pending : List (ℕ × Pending))
    → All P pending
    → All P (without version pending)
unfolding without
without-All P version [] h = tt
without-All P version ((v, p) ∷ pending) h = elim (Bool-cases (v == version)) [
  | inl k ↦ rw k (without-All P version pending h.1)
  | inr k ↦ rw k (h.0, without-All P version pending h.1)
]

without-IsUniquePending :
    (version : ℕ) (pending : List (ℕ × Pending))
    → IsUniquePending pending
    → IsUniquePending (without version pending)
unfolding without
without-IsUniquePending version [] u = tt
without-IsUniquePending version ((v, p) ∷ pending) u = elim (Bool-cases (v == version)) [
  | inl k ↦ rw k (without-IsUniquePending version pending u.1)
  | inr k ↦
      rw k (
        without-All (λ q. q.0 ≢ v) version pending u.0,
        without-IsUniquePending version pending u.1,
      )
]

differs : (v version : ℕ) → (v == version) ≡ false → version ≢ v
differs v version k same = absurd (ground (arith, ==_iff v version))

-- No transaction with that version is left.
without-gone :
    (version : ℕ) (pending : List (ℕ × Pending))
    → All (λ q. version ≢ q.0) (without version pending)
unfolding without
without-gone version [] = tt
without-gone version ((v, p) ∷ pending) = elim (Bool-cases (v == version)) [
  | inl k ↦ rw k (without-gone version pending)
  | inr k ↦ rw k (differs v version k, without-gone version pending)
]

pending_at-All {κ} :
    (P : ℕ → Type κ) (version : ℕ) (pending : List (ℕ × Pending)) (p : Pending)
    → pending_at version pending ≡ some p
    → All (λ q. P q.0) pending
    → P version
unfolding pending_at
pending_at-All P version [] p h k = absurd (cc h)
pending_at-All P version ((v, q) ∷ pending) p h k = elim (Bool-cases (v == version)) [
  | inl e ↦ subst P ((==_iff v version).0 e) k.0
  | inr e ↦ pending_at-All P version pending p (ground arith) k.1
]

begin_tx-IsFresh : (p : Pending) (o : Overlap) → IsFresh o → IsFresh (begin_tx p o)
unfolding begin_tx
begin_tx-IsFresh p o i = record {
  drawn = All-imp _ _ (λ e h. omega (arith, h)) o.store.events i.drawn;
  begun = (omega arith, All-imp _ _ (λ q h. omega (arith, h)) o.pending i.begun);
  unique = i.unique;
  apart = (All-imp _ _ (λ q h same. absurd (omega (arith, h, same))) o.pending i.begun, i.apart);
  unused =
      (All-imp _ _ (λ e h same. absurd (omega (arith, h, same))) o.store.events i.drawn, i.unused);
}

-- A transaction that has ended has left the list; its event may be at the end of the log.
without-IsFreshAt :
    (n : ℕ) (events : List FlagEvent) (pending : List (ℕ × Pending)) (version : ℕ)
    → IsFreshAt n events pending
    → IsFreshAt n events (without version pending)
without-IsFreshAt n events pending version i = record {
  drawn = i.drawn;
  begun = without-All (λ p. p.0 ≤ n) version pending i.begun;
  unique = i.unique;
  apart = without-IsUniquePending version pending i.apart;
  unused = without-All (IsUnused events) version pending i.unused;
}

append-IsFreshAt :
    (n : ℕ) (events : List FlagEvent) (pending : List (ℕ × Pending)) (e : FlagEvent)
    → IsFreshAt n events pending
    → e.version ≤ n
    → All (λ d. d.version ≢ e.version) events
    → All (λ q. e.version ≢ q.0) pending
    → IsFreshAt n (events ++ e ∷ []) pending
append-IsFreshAt n events pending e i le new gone = record {
  drawn = All-append (λ d. d.version ≤ n) events (e ∷ []) i.drawn (le, tt);
  begun = i.begun;
  unique = IsUnique-append events e i.unique new;
  apart = i.apart;
  unused = both pending i.unused gone;
}
  where
    both :
        (ps : List (ℕ × Pending))
        → All (IsUnused events) ps
        → All (λ q. e.version ≢ q.0) ps
        → All (IsUnused (events ++ e ∷ [])) ps
    both [] h k = tt
    both (q ∷ ps) h k =
        (All-append (λ d. d.version ≢ q.0) events (e ∷ []) h.0 (k.0, tt), both ps h.1 k.1)

ended-IsFreshAt :
    (version : ℕ) (o : Overlap) (t : Store)
    → IsFresh o
    → version ≤ o.store.sequence
    → All (λ d. d.version ≢ version) o.store.events
    → IsAppended version o.store t
    → IsFreshAt t.sequence t.events (without version o.pending)
ended-IsFreshAt version o t i le new a =
    let rest = without version o.pending in
    let base = without-IsFreshAt o.store.sequence o.store.events o.pending version i in
    subst (λ n. IsFreshAt n t.events rest) (sym a.kept)
      (elim a.logged [
        | inl same ↦ subst (λ es. IsFreshAt o.store.sequence es rest) (sym same) base
        | inr (e, at, same) ↦
            subst (λ es. IsFreshAt o.store.sequence es rest) (sym same)
              (append-IsFreshAt o.store.sequence o.store.events rest e base (omega (arith, at, le))
                (subst (λ v. All (λ d. d.version ≢ v) o.store.events) (sym at) new)
                (subst (λ v. All (λ q. v ≢ q.0) rest) (sym at) (without-gone version o.pending)))
      ])

end_found-IsFresh :
    (version : ℕ) (now : Text) (found : Option Pending) (o : Overlap)
    → pending_at version o.pending ≡ found
    → IsFresh o
    → IsFresh (end_found version now found o)
unfolding end_found
end_found-IsFresh version now none o h i = i
end_found-IsFresh version now (some p) o h i =
    let s = o.store in
    ended-IsFreshAt version o (perform p now version s) i
      (pending_at-All (λ v. v ≤ s.sequence) version o.pending p h i.begun)
      (pending_at-All (λ v. All (λ d. d.version ≢ v) s.events) version o.pending p h i.unused)
      (perform-IsAppended p now version s)

end_tx-IsFresh :
    (version : ℕ) (now : Text) (o : Overlap) → IsFresh o → IsFresh (end_tx version now o)
unfolding end_tx
end_tx-IsFresh version now o i =
    end_found-IsFresh version now (pending_at version o.pending) o refl i

tx_step-IsFresh : (t : TxStep) (o : Overlap) → IsFresh o → IsFresh (tx_step t o)
unfolding tx_step
tx_step-IsFresh (begins p) o i = begin_tx-IsFresh p o i
tx_step-IsFresh (ends version now) o i = end_tx-IsFresh version now o i
tx_step-IsFresh (rolls_back version) o i =
    without-IsFreshAt o.store.sequence o.store.events o.pending version i

Above-All : (lo : ℕ) (es : List FlagEvent) → Above lo es → All (λ d. d.version ≢ lo) es
Above-All lo [] u = tt
Above-All lo (e ∷ es) u = (
  λ same. absurd (omega (arith, u.0, same)),
  Above-All lo es (Above-weaken lo e.version es (omega (arith, u.0)) u.1),
)

Above-IsUnique : (lo : ℕ) (es : List FlagEvent) → Above lo es → IsUnique es
Above-IsUnique lo [] u = tt
Above-IsUnique lo (e ∷ es) u = (Above-All e.version es u.1, Above-IsUnique e.version es u.1)

tx_steps-IsFresh : (steps : List TxStep) (o : Overlap) → IsFresh o → IsFresh (tx_steps steps o)
unfolding tx_steps
tx_steps-IsFresh [] o i = i
tx_steps-IsFresh (t ∷ steps) o i = tx_steps-IsFresh steps (tx_step t o) (tx_step-IsFresh t o i)

-- From an empty database on, whatever writes have run and whatever transactions then begin, end and
-- roll back, in any interleaving: no two events of the log have the same version.
pub tx_steps-IsUnique :
    (ws : List Write) (steps : List TxStep)
    → IsUnique
        (tx_steps steps record { store = run_writes ws empty_store; pending = [] }).store.events
tx_steps-IsUnique ws steps =
    let sound = run_writes-IsSound ws in
    let s = run_writes ws empty_store in
    (tx_steps-IsFresh steps record { store = s; pending = [] }
      record {
        drawn = latest-All s.sequence s.events sound.drawn;
        begun = tt;
        unique = Above-IsUnique 0 s.events sound.ascends;
        apart = tt;
        unused = tt;
      }).unique
