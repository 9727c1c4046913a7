-- ===== src/Server/Torn.antt =====
-- A snapshot that a write falls into: `GetAllFlags` of
-- backend/internal/handler/client_handler.go reads the flags, and then the version.
use feature_flag_system.Prelude.{
  ℕ, suc, ◌≤◌, Text, Bool, true, false, not, List, [], ◌∷◌, Option, none, some, ◌≡◌, refl, sym, ap,
  ◌∙◌, inl, inr, arith, map, get, Bool-cases, text_eq, text_eq_iff, text_eq_refl,
}
use feature_flag_system.Types.{Flag, FlagConfig, FlagEvent}
use feature_flag_system.Sdk.Client.{Client}
use feature_flag_system.Sdk.Init.{init_rest}
use feature_flag_system.Sdk.Log.{no_flags, state_at, latest, after}
use feature_flag_system.Sdk.System.Reachable.{init_rest-flags}
use feature_flag_system.Server.{Store, empty_store, to_config, get_by_id, put_row}
use feature_flag_system.Server.Repository.{toggled_row, toggle_row, toggle_found, commit_event}
use feature_flag_system.Server.Service.{
  ok, toggle_flag, answer_write, run_writes, run_write, toggle, Write,
}
use feature_flag_system.Server.Rows.{
  IsApart, IsDistinct, config_at, config_at-cons, get_by_id-All, config_at-put_row,
}
use feature_flag_system.Server.Sound.{IsSound, state_at-written}
use feature_flag_system.Server.Sound.Operations.{found_again}
use feature_flag_system.Server.Sound.Writes.{
  answer_write-store, run_writes-IsSound, run_write-IsNext,
}
use feature_flag_system.Server.Listing.{get_all_flags, list_rows, get-get_all_flags}
use feature_flag_system.Server.Saves.{write_row_ok}

-- The row found by its id is the one under its key.
pub config_at-get_by_id :
    (id : Text) (f : Flag) (rs : List Flag)
    → IsDistinct rs
    → get_by_id id rs ≡ some f
    → config_at f.key rs ≡ some (to_config f)
unfolding get_by_id
config_at-get_by_id id f [] d found = absurd (cc found)
config_at-get_by_id id f (x ∷ xs) d found = elim (Bool-cases (text_eq x.id id)) [
  | inl hit ↦
      let here : x ≡ f = ground arith in
      ground (arith, config_at-cons f.key x xs, text_eq_refl f.key)
  | inr miss ↦
      let later : get_by_id id xs ≡ some f = ground arith in
      let apart = get_by_id-All (IsApart x) id xs f d.0 later in
      ground (
        arith,
        config_at-cons f.key x xs,
        text_eq_iff x.key f.key,
        config_at-get_by_id id f xs d.1 later,
      )
]

after-latest : (v : ℕ) (es : List FlagEvent) → latest es ≤ v → after v es ≡ []
unfolding after latest
after-latest v [] h = refl
after-latest v (e ∷ es) h = ground (arith, after-latest v es (omega arith))

-- A successful toggle, read back from its reply.
toggle_found_ok :
    (now : Text) (s : Store) (g : Flag) (o : Option Flag)
    → (answer_write (toggle_found now o s)).reply ≡ ok g
    → (f : Flag) × (o ≡ some f)
      × (g ≡ toggled_row now (suc s.sequence) f)
      × ((toggle_found now o s).1.flags ≡ put_row g s.flags)
unfolding toggle_found
toggle_found_ok now s g none h = absurd (cc h)
toggle_found_ok now s g (some f) h =
    let (kept, same) = write_row_ok (toggled_row now (suc s.sequence) f) g now s h in
    (
      f,
      refl,
      same,
      unfold commit_event in ap (λ r. r.1.flags) kept ∙ ap (λ r. put_row r s.flags) (sym same),
    )

not-not : (b : Bool) → b ≡ not (not b)
not-not true = refl
not-not false = refl

module _ (s : Store) (i : IsSound s) (id now : Text) (g : Flag)
    (h : (toggle_flag id now s).reply ≡ ok g) where
  toggled_from :
      (f : Flag) × (get_by_id f.id s.flags ≡ some f)
      × (g ≡ toggled_row now (suc s.sequence) f)
      × ((toggle_flag id now s).store.flags ≡ put_row g s.flags)
  unfolding toggle_flag toggle_row
  toggled_from =
      let o = get_by_id id s.flags in
      let (f, found, same, kept) = toggle_found_ok now s g o h in
      (
        f,
        found_again s i id f found,
        same,
        ap (λ t. t.flags) (answer_write-store (toggle_found now o s)) ∙ kept,
      )

  -- The table before the toggle, and the table after it.
  before_toggle :
      (f : FlagConfig) × (config_at g.key s.flags ≡ some f) × (f.enabled ≡ not g.enabled)
  before_toggle =
      let (f, found, same, kept) = toggled_from in
      (
        to_config f,
        ap (λ r. config_at r.key s.flags) same
            ∙ config_at-get_by_id f.id f s.flags i.distinct found,
        unfold to_config in not-not f.enabled ∙ ap (λ r. not r.enabled) (sym same),
      )

  after_toggle : config_at g.key (toggle_flag id now s).store.flags ≡ some (to_config g)
  after_toggle =
      let (f, found, same, kept) = toggled_from in
      let there =
        config_at-put_row f g (ap (λ r. r.id) same) (ap (λ r. r.key) same) g.key s.flags i.distinct
          found in
      ap (config_at g.key) kept ∙ there ∙ rw (text_eq_refl g.key) refl

-- A toggle between the two queries of a snapshot: the client that starts from it holds the flag
-- as it was before the toggle, under a version at which the log has the toggle, and no event of
-- the log is left that would repair it.
pub torn_snapshot :
    (precedes : Flag → Flag → Bool) (c : Client) (ws : List Write) (id now : Text) (g : Flag)
    → let s = run_writes ws empty_store in
      (toggle_flag id now s).reply ≡ ok g
      → let t = (toggle_flag id now s).store in
        let d = (init_rest (get_all_flags precedes (some s) (some t)) c).0 in
        ((f : FlagConfig) × (get g.key d.flags ≡ some f) × (f.enabled ≡ not g.enabled))
        × (state_at d.config_version t.events no_flags g.key ≡ some (to_config g))
        × (after d.config_version t.events ≡ [])
unfolding get_all_flags
torn_snapshot precedes c ws id now g h =
    let s = run_writes ws empty_store in
    let i = run_writes-IsSound ws in
    let t = (toggle_flag id now s).store in
    let j : IsSound t = unfold run_write in (run_write-IsNext (toggle id now) s i).sound in
    let (flags, version) =
      init_rest-flags c (map to_config (list_rows precedes s.flags)) (latest t.events) in
    let (f, held, off) = before_toggle s i id now g h in
    let d = (init_rest (get_all_flags precedes (some s) (some t)) c).0 in
    let known : latest t.events ≤ d.config_version = omega (arith, version) in
    (
      (f, ap (get g.key) flags ∙ get-get_all_flags precedes g.key s.flags i.distinct ∙ held, off),
      ap (λ m. m g.key) (state_at-written d.config_version t.events no_flags known)
          ∙ sym (j.mirrors g.key)
          ∙ after_toggle s i id now g h,
      after-latest d.config_version t.events known,
    )
