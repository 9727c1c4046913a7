-- ===== src/Server/Races.antt =====
-- Two editors of one flag: `Update` of backend/internal/repository/flag_repository.go, whose
-- expected version is the one that the editor loaded.
use feature_flag_system.Prelude.{
  ℕ, suc, ◌≤◌, Text, Bool, true, false, List, [], ◌∷◌, some, ℤ, pos, negsuc, ◌≡◌, refl, sym, ap,
  ◌∙◌, arith, if◌then◌else◌, text_eq, text_eq_iff, ◌<◌, subst, All-imp, Bool-cases, Option-cases,
  inl, inr, is_none,
}
use feature_flag_system.Types.{Flag}
use feature_flag_system.Server.{Store, empty_store, get_by_id}
use feature_flag_system.Server.Repository.{
  no_row, version_conflict, UpdateRequest, update_row, update_found, updated_row, has_no_change,
  is_expected, is_version, draw,
}
use feature_flag_system.Server.Service.{
  Served, ok, failed, nothing, conflict, run_write, update, update_flag, bad_change, answer_write,
  run_writes, Write,
}
use feature_flag_system.Server.Rows.{IsApart, IsDistinct, get_by_id-id, get_by_id-All}
use feature_flag_system.Server.Sound.{IsNext, IsNewer}
use feature_flag_system.Server.Sound.Writes.{
  run_writes-IsSound, run_write-IsNext, run_writes-IsNewer,
}
use feature_flag_system.Server.Saves.{update_saves}

-- No other row has the id of the one that is found.
found-IsNewer :
    (id : Text) (v : ℕ) (r : Flag) (rs : List Flag)
    → IsDistinct rs
    → get_by_id id rs ≡ some r
    → v < r.version
    → IsNewer id v rs
unfolding get_by_id
found-IsNewer id v r [] d found later = tt
found-IsNewer id v r (x ∷ xs) d found later = elim (Bool-cases (text_eq x.id id)) [
  | inl hit ↦
      let same : x ≡ r = ground arith in
      let here : x.id ≡ id = (text_eq_iff x.id id).0 hit in
      (
        (λ e. subst (λ y. v < y.version) (sym same) later),
        All-imp (IsApart x) (λ y. y.id ≡ id → v < y.version) (λ y a e. absurd (a.0 (here ∙ sym e)))
            xs d.0,
      )
  | inr miss ↦ (
    (λ e. absurd (cc (miss, (text_eq_iff x.id id).1 e))),
    found-IsNewer id v r xs d.1 (ground arith) later,
  )
]

-- A version that the row has passed is not expected of it.
is_version_once : (e : ℤ) (a b : ℕ) → is_version e a ≡ true → a < b → is_version e b ≡ false
is_version_once (pos n) a b h ne = ground arith
is_version_once (negsuc n) a b h ne = refl

-- An update that expects a version which every row with the id has passed.
update_flag-refused :
    (req : UpdateRequest) (id now : Text) (e : ℤ) (v : ℕ) (s : Store)
    → has_no_change req ≡ false
    → bad_change req.rollout_percentage ≡ false
    → req.expected_version ≡ some e
    → is_version e v ≡ true
    → IsNewer id v s.flags
    → update_flag req id now s
      ≡ answer_write ((if is_none (get_by_id id s.flags) then no_row else version_conflict), draw s)
unfolding update_flag update_row update_found
update_flag-refused req id now e v s change fine expects was newer =
    elim (Option-cases (get_by_id id s.flags)) [
      | inl gone ↦ rw (fine, change, gone) refl
      | inr (f, found) ↦
          let passed : v < f.version =
            get_by_id-All (λ r. r.id ≡ id → v < r.version) id s.flags f newer found
              (get_by_id-id id s.flags f found) in
          let stale = is_version_once e v f.version was passed in
          rw (fine, change, found, ap (λ x. is_expected x f.version) expects ∙ stale) refl
    ]

-- A refused write leaves the flags and the log, and publishes nothing.
refused_draw :
    (b : Bool) (s : Store)
    → let r : Served Flag = answer_write ((if b then no_row else version_conflict), draw s) in
      (r.reply ≡ (if b then nothing else failed conflict))
      × (r.store.flags ≡ s.flags)
      × (r.store.events ≡ s.events)
      × (r.published ≡ [])
refused_draw true s = (refl, refl, refl, refl)
refused_draw false s = (refl, refl, refl, refl)

-- Two editors loaded a flag at the same version, and both change something within the allowed
-- percentages. The first saves and is told of success; any further writes follow, then the second
-- saves. Whatever was written before the first and between the two, the second is told of the
-- conflict, or that there is no such flag when it is gone by then, also when the flag has been
-- deleted and made again under its id in between. The second one's attempt leaves the flags and
-- the event log as they were and publishes nothing.
pub second_editor_refused :
    (ws between : List Write) (first second : UpdateRequest) (id now later : Text) (e : ℤ)
    (g : Flag)
    → has_no_change first ≡ false
    → has_no_change second ≡ false
    → bad_change second.rollout_percentage ≡ false
    → first.expected_version ≡ some e
    → second.expected_version ≡ some e
    → let s = run_writes ws empty_store in
      (update_flag first id now s).reply ≡ ok g
      → let u = run_writes between (update_flag first id now s).store in
        let r = update_flag second id later u in
        (r.reply ≡ (if is_none (get_by_id id u.flags) then nothing else failed conflict))
        × (r.store.flags ≡ u.flags)
        × (r.store.events ≡ u.events)
        × (r.published ≡ [])
second_editor_refused ws between first second id now later e g c1 c2 fine e1 e2 h =
    let s = run_writes ws empty_store in
    let i = run_writes-IsSound ws in
    let t = (update_flag first id now s).store in
    let n : IsNext s t = unfold run_write in run_write-IsNext (update first id now) s i in
    let (f, found, expected, put) = update_saves first id now e s g c1 e1 h in
    let old : f.version ≤ s.sequence =
      get_by_id-All (λ r. r.version ≤ s.sequence) id s.flags f i.behind found in
    let row = updated_row first now (suc s.sequence) f in
    let saved = found-IsNewer id f.version row t.flags n.sound.distinct put (omega (arith, old)) in
    let kept : f.version ≤ t.sequence = omega (arith, old, n.grows) in
    let u = run_writes between t in
    let newer = run_writes-IsNewer between t id f.version n.sound kept saved in
    subst
      (λ r.
        (r.reply ≡ (if is_none (get_by_id id u.flags) then nothing else failed conflict))
        × (r.store.flags ≡ u.flags)
        × (r.store.events ≡ u.events)
        × (r.published ≡ []))
      (sym (update_flag-refused second id later e f.version u c2 fine e2 expected newer))
      (refused_draw (is_none (get_by_id id u.flags)) u)
