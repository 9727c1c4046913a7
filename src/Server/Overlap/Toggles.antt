-- ===== src/Server/Overlap/Toggles.antt =====
-- Two overlapping toggles of one flag, which commit in the other order than they drew their
-- versions: `Toggle` of backend/internal/repository/flag_repository.go.
use feature_flag_system.Prelude.{
  ◌≡◌, refl, sym, ◌∙◌, ap, ℕ, suc, ◌<◌, Text, Bool, true, false, not, List, [], ◌∷◌, ◌++◌, some,
  arith, text_eq_refl,
}
use feature_flag_system.Types.{Flag, FlagConfig, FlagEvent, updated, full}
use feature_flag_system.Sdk.Log.{View, no_flags, entry, Above, latest}
use feature_flag_system.Server.{Store, empty_store, to_config, get_by_id, put_row, is_storable}
use feature_flag_system.Server.Repository.{draw, event_at, toggled_row}
use feature_flag_system.Server.Service.{Write, run_writes}
use feature_flag_system.Server.Rows.{get_by_id-id}
use feature_flag_system.Server.Saves.{get_by_id-put_row}
use feature_flag_system.Server.Sound.{written}
use feature_flag_system.Server.Sound.Writes.{run_writes-IsSound}
use feature_flag_system.Server.Overlap.{
  commit_at, toggling, begin_tx, end_tx, end_found, pending_at, without, perform, toggle_found_at,
  write_at, insert_by_version, by_version,
}

-- Two more events at the end of an ascending log, in the wrong order.
by_version-swapped :
    (lo : ℕ) (es : List FlagEvent) (a b : FlagEvent)
    → Above lo es
    → latest es < a.version
    → a.version < b.version
    → by_version ((es ++ b ∷ []) ++ a ∷ []) ≡ es ++ a ∷ b ∷ []
unfolding by_version insert_by_version latest
by_version-swapped lo [] a b u l h = ground arith
by_version-swapped lo (e ∷ []) a b u l h = ground arith
by_version-swapped lo (e ∷ x ∷ es) a b u l h =
    rw (by_version-swapped e.version (x ∷ es) a b u.1 (omega (arith, l)) h) (ground (arith, u.1.0))

written-two :
    (es : List FlagEvent) (a b : FlagEvent) (m : View)
    → written (es ++ a ∷ b ∷ []) m ≡ entry b (entry a (written es m))
unfolding written
written-two [] a b m = refl
written-two (x ∷ es) a b m = written-two es a b (entry x m)

-- The two toggles begin one after the other, and the later one is the first to commit.
abbrev pub crossed : Text → Text → Text → Store → Store
crossed id now₁ now₂ s =
    let begun =
      begin_tx (toggling id) (begin_tx (toggling id) record { store = s; pending = [] }) in
    (end_tx (suc s.sequence) now₁ (end_tx (suc (suc s.sequence)) now₂ begun)).store

crossed-performed :
    (id now₁ now₂ : Text) (s : Store)
    → crossed id now₁ now₂ s
      ≡ perform
          (toggling id)
          now₁
          (suc s.sequence)
          (perform (toggling id) now₂ (suc (suc s.sequence)) (draw (draw s)))
unfolding end_tx end_found begin_tx pending_at without
crossed-performed id now₁ now₂ s = ground arith

toggle_found_at-storable :
    (now : Text) (version : ℕ) (f : Flag) (s : Store)
    → is_storable f ≡ true
    → (toggle_found_at now version (some f) s).1 ≡ (
        let row = toggled_row now version f in
        commit_at updated f.key (full (to_config row)) now (put_row row s.flags) version s)
unfolding toggle_found_at write_at is_storable
toggle_found_at-storable now version f s h = ground arith

-- A toggle that finds its row, and what it leaves.
perform-toggling :
    (id now : Text) (version : ℕ) (f : Flag) (s : Store)
    → get_by_id id s.flags ≡ some f
    → is_storable f ≡ true
    → perform (toggling id) now version s ≡ (
        let row = toggled_row now version f in
        commit_at updated f.key (full (to_config row)) now (put_row row s.flags) version s)
unfolding perform
perform-toggling id now version f s found h =
    ap (λ o. (toggle_found_at now version o s).1) found ∙ toggle_found_at-storable now version f s h

not-not : (b : Bool) → not (not b) ≡ b
not-not true = refl
not-not false = refl

module _ (ws : List Write) (id now₁ now₂ : Text) (f : Flag) where
  abbrev start : Store
  start = run_writes ws empty_store

  -- The row after the toggle that commits first, and after the other.
  abbrev second : Flag
  second = toggled_row now₂ (suc (suc start.sequence)) f

  abbrev first : Flag
  first = toggled_row now₁ (suc start.sequence) second

  second-storable : is_storable f ≡ true → is_storable second ≡ true
  unfolding is_storable
  second-storable h = h

  crossed_store :
      get_by_id id start.flags ≡ some f
      → is_storable f ≡ true
      → crossed id now₁ now₂ start ≡ record {
        flags = put_row first (put_row second start.flags);
        events =
            (start.events
              ++ event_at updated f.key (full (to_config second)) now₂ (suc (suc start.sequence))
                ∷ [])
            ++ event_at updated f.key (full (to_config first)) now₁ (suc start.sequence) ∷ [];
        sequence = suc (suc start.sequence);
      }
  crossed_store found h =
      let v = suc start.sequence in
      let mid = perform-toggling id now₂ (suc v) f (draw (draw start)) found h in
      let again =
        get_by_id-put_row id f second start.flags found (get_by_id-id id start.flags f found) in
      crossed-performed id now₁ now₂ start
      ∙ ap (perform (toggling id) now₁ v) mid
      ∙ perform-toggling id now₁ v second _ again (second-storable h)

  last_word :
      written
        (by_version (
          (start.events
            ++ event_at updated f.key (full (to_config second)) now₂ (suc (suc start.sequence))
              ∷ [])
          ++ event_at updated f.key (full (to_config first)) now₁ (suc start.sequence) ∷ []))
        no_flags
        f.key
      ≡ some (to_config second)
  last_word =
      let sound = run_writes-IsSound ws in
      let a = event_at updated f.key (full (to_config first)) now₁ (suc start.sequence) in
      let b = event_at updated f.key (full (to_config second)) now₂ (suc (suc start.sequence)) in
      ap (λ es. written es no_flags f.key)
        (by_version-swapped 0 start.events a b sound.ascends (omega (arith, sound.drawn))
          (omega arith))
      ∙ ap (λ m. m f.key) (written-two start.events a b no_flags)
      ∙ rw (text_eq_refl f.key) refl

  -- The row is as it was before, and the log's last word is that the flag was switched.
  final :
      get_by_id id start.flags ≡ some f
      → is_storable f ≡ true
      → let t = crossed id now₁ now₂ start in
        (get_by_id id t.flags ≡ some first)
        × (written (by_version t.events) no_flags f.key ≡ some (to_config second))
  final found h =
      let again =
        get_by_id-put_row id f second start.flags found (get_by_id-id id start.flags f found) in
      (
        ap (λ t. get_by_id id t.flags) (crossed_store found h)
            ∙ get_by_id-put_row id second first (put_row second start.flags) again
                (get_by_id-id id start.flags f found),
        ap (λ t. written (by_version t.events) no_flags f.key) (crossed_store found h) ∙ last_word,
      )

-- After any writes, two toggles of a flag that is there, and whose row fits the columns, overlap,
-- and the one that drew the later version commits first. Then the row is enabled as it was before
-- both, under the earlier of the two versions, and the log, taken in the order of versions, ends
-- with the flag switched, under the later version.
pub overlapped_toggles :
    (ws : List Write) (id now₁ now₂ : Text) (f : Flag)
    → get_by_id id (run_writes ws empty_store).flags ≡ some f
    → is_storable f ≡ true
    → let t = crossed id now₁ now₂ (run_writes ws empty_store) in
      ((r : Flag) × (get_by_id id t.flags ≡ some r)
        × (r.enabled ≡ f.enabled)
        × (suc r.version ≡ t.sequence))
      × ((c : FlagConfig) × (written (by_version t.events) no_flags f.key ≡ some c)
          × (c.enabled ≡ not f.enabled)
          × (c.version ≡ t.sequence))
unfolding to_config
overlapped_toggles ws id now₁ now₂ f found h =
    let t = final ws id now₁ now₂ f found h in
    let drawn = ap (λ s. s.sequence) (crossed_store ws id now₁ now₂ f found h) in
    (
      (first ws id now₁ now₂ f, t.0, not-not f.enabled, sym drawn),
      (to_config (second ws id now₁ now₂ f), t.1, refl, sym drawn),
    )
