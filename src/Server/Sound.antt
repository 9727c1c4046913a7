-- ===== src/Server/Sound.antt =====
-- What every write of the server keeps: the table of flags is what the event log says.
pub mod Operations
pub mod Writes
use mathlib.Core.List.{Memᴰ}
use feature_flag_system.Prelude.{
  ◌≢◌, ℕ, suc, ◌≤◌, ◌<◌, Text, Bool, true, false, ◌&&◌, List, [], ◌∷◌, ◌++◌, Option, none, some,
  ◌≡◌, refl, sym, ◌∙◌, ap, arith, text_eq, if◌then◌else◌, leb, All, All-append, All-imp, Bool-cases,
  Option-cases, inl, inr, ◌⊎◌, is_none, &&_true,
}
use feature_flag_system.Types.{
  deleted, full, Flag, FlagEvent, EventType, created, updated, deleted, Payload, full, stub,
  as_config, CreateFlagInput,
}
use feature_flag_system.Sdk.Log.{
  View, no_flags, entry, entry_value, state_at, Above, latest, latest-commit,
}
use feature_flag_system.Sdk.System.{IsKeyed}
use feature_flag_system.Sdk.System.Reachable.{Above-commit}
use feature_flag_system.Server.{
  to_config, Store, empty_store, to_config, get_by_id, get_by_key, put_row, delete_row, is_storable,
}
use feature_flag_system.Server.Repository.{
  Written, done, no_row, version_conflict, database_error, not_found, commit_event, event_at, draw,
  create_row, insert_row, new_row, can_insert, toggled_row, update_row, update_found, write_row,
  toggle_row, toggle_found, remove_row, delete_found, UpdateRequest, updated_row, has_no_change,
  is_expected,
}
use feature_flag_system.Server.Service.{
  Write, create, update, toggle, delete, interrupted, run_write, run_writes, create_flag,
  create_error, bad_change, update_flag, toggle_flag, delete_flag, create_checked, delete_looked_up,
  answer_write, answer_delete,
}
use feature_flag_system.Server.Rows.{
  IsDistinct, IsApart, config_at, config_at-cons, config_at-append, get_by_id-All, get_by_id-id,
  get_by_key-none, get_by_id-none, append-IsDistinct, put_row-All, put_row-IsDistinct,
  config_at-put_row, delete_row-All, delete_row-IsDistinct, config_at-delete_row,
}

-- The configuration after all events.
unfoldable pub written : List FlagEvent → View → View
written [] m = m
written (e ∷ es) m = written es (entry e m)

written-append :
    (es : List FlagEvent) (e : FlagEvent) (m : View)
    → written (es ++ e ∷ []) m ≡ entry e (written es m)
unfolding written
written-append [] e m = refl
written-append (x ∷ xs) e m = written-append xs e (entry x m)

-- It is the configuration at any version that the log does not pass.
pub state_at-written :
    (v : ℕ) (es : List FlagEvent) (m : View) → latest es ≤ v → state_at v es m ≡ written es m
unfolding written state_at latest
state_at-written v [] m h = refl
state_at-written v (e ∷ es) m h =
    let past : leb e.version v ≡ true = ground arith in
    rw past (state_at-written v es (entry e m) (omega arith))

-- The log has the event that wrote the row as it is.
abbrev pub IsLogged : List FlagEvent → Flag → Type 0
IsLogged es r =
    (e : FlagEvent) × Memᴰ e es
    × (e.version ≡ r.version)
    × (e.event_type ≢ deleted)
    × (e.payload ≡ full (to_config r))

Mem-append : (e : FlagEvent) (es ds : List FlagEvent) → Memᴰ e es → Memᴰ e (es ++ ds)
Mem-append e [] ds m = elim m [ ]
Mem-append e (x ∷ xs) ds (Memᴰ.head same) = Memᴰ.head same
Mem-append e (x ∷ xs) ds (Memᴰ.tail m) = Memᴰ.tail (Mem-append e xs ds m)

pub Mem-last : (e : FlagEvent) (es : List FlagEvent) → Memᴰ e (es ++ e ∷ [])
Mem-last e [] = Memᴰ.head refl
Mem-last e (x ∷ xs) = Memᴰ.tail (Mem-last e xs)

IsLogged-still :
    (e : FlagEvent) (es : List FlagEvent) (r : Flag) → IsLogged es r → IsLogged (es ++ e ∷ []) r
IsLogged-still e es r (d, m, v, n, p) = (d, Mem-append d es (e ∷ []) m, v, n, p)

pub record IsSound (s : Store) : Type 0 where
  pub ascends : Above 0 s.events
  pub drawn : latest s.events ≤ s.sequence
  pub keyed : All IsKeyed s.events
  pub distinct : IsDistinct s.flags
  pub behind : All (λ r. r.version ≤ s.sequence) s.flags
  pub logged : All (IsLogged s.events) s.flags
  pub mirrors : (k : Text) → config_at k s.flags ≡ written s.events no_flags k

pub empty_store-IsSound : IsSound empty_store
unfolding latest written get_by_key
empty_store-IsSound = record {
  ascends = tt;
  drawn = omega arith;
  keyed = tt;
  distinct = tt;
  behind = tt;
  logged = tt;
  mirrors = λ k. refl;
}

-- A write leaves the log alone, or appends to it one keyed event above all others.
abbrev pub IsCommit : Store → Store → Type 0
IsCommit s t =
    (t.events ≡ s.events)
    ⊎ ((e : FlagEvent) × (t.events ≡ s.events ++ e ∷ [])
        × (latest s.events < e.version)
        × IsKeyed e)

-- Every row with the id has a version above the one given.
abbrev pub IsNewer : Text → ℕ → List Flag → Type 0
IsNewer id v rows = All (λ r. r.id ≡ id → v < r.version) rows

pub record IsNext (s t : Store) : Type 0 where
  pub sound : IsSound t
  pub log : IsCommit s t
  pub grows : s.sequence ≤ t.sequence
  pub newer : (id : Text) (v : ℕ) → v ≤ s.sequence → IsNewer id v s.flags → IsNewer id v t.flags

-- The rows of a transaction: what holds of every old row, and of the row that the transaction
-- writes under the number that it drew and puts into its event, holds of them all.
abbrev pub IsKept : Store → EventType → Payload → List Flag → Type 1
IsKept s t payload rows =
    (P : Flag → Type 0)
    → All P s.flags
    → ((r : Flag) → r.version ≡ suc s.sequence → t ≢ deleted → payload ≡ full (to_config r) → P r)
    → All P rows

module _ (s : Store) (i : IsSound s) where
  pub stay : IsNext s s
  stay = record { sound = i; log = inl refl; grows = omega arith; newer = λ id v b h. h }

  draw-IsSound : IsSound (draw s)
  draw-IsSound = record {
    ascends = i.ascends;
    drawn = omega (arith, i.drawn);
    keyed = i.keyed;
    distinct = i.distinct;
    behind =
        All-imp (λ r. r.version ≤ s.sequence) (λ r. r.version ≤ suc s.sequence) (λ r h. omega arith)
          s.flags i.behind;
    logged = i.logged;
    mirrors = i.mirrors;
  }

  pub draw-IsNext : IsNext s (draw s)
  draw-IsNext = record {
    sound = draw-IsSound;
    log = inl refl;
    grows = omega arith;
    newer = λ id v b h. h;
  }

  behind_next : All (λ r. r.version ≤ suc s.sequence) s.flags
  behind_next = draw-IsNext.sound.behind

  -- A transaction whose rows are the old ones with the event's entry made.
  pub commit_event-IsNext :
      (t : EventType) (key : Text) (payload : Payload) (now : Text) (rows : List Flag)
      → (as_config payload).key ≡ key
      → IsDistinct rows
      → IsKept s t payload rows
      → ((k : Text)
          → config_at k rows
            ≡ (if text_eq key k then entry_value t (as_config payload) else config_at k s.flags))
      → IsNext s (commit_event t key payload now rows s)
  unfolding commit_event
  commit_event-IsNext t key payload now rows same d b h =
      let e = event_at t key payload now (suc s.sequence) in
      let later : latest s.events < e.version = omega (arith, i.drawn) in
      let sound : IsSound (commit_event t key payload now rows s) = record {
        ascends = Above-commit 0 e s.events i.ascends (omega arith) later;
        drawn = omega (arith, latest-commit e s.events later);
        keyed = All-append IsKeyed s.events (e ∷ []) i.keyed (same, tt);
        distinct = d;
        behind = b (λ r. r.version ≤ suc s.sequence) behind_next (λ r v a p. omega (arith, v));
        logged =
            b (IsLogged (s.events ++ e ∷ []))
              (All-imp (IsLogged s.events) (IsLogged (s.events ++ e ∷ []))
                (IsLogged-still e s.events) s.flags i.logged)
              (λ r v a p. (e, Mem-last e s.events, sym v, a, p));
        mirrors = λ k. h k ∙ rw (written-append s.events e no_flags, i.mirrors k) refl;
      } in
      record {
        sound = sound;
        log = inr (e, refl, later, same);
        grows = omega arith;
        newer = λ id v a n. b (λ r. r.id ≡ id → v < r.version) n (λ r q x p j. omega (arith, a, q));
      }
