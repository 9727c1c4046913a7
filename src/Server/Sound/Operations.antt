-- ===== src/Server/Sound/Operations.antt =====
-- What each operation of backend/internal/repository/flag_repository.go does to a sound store.
use feature_flag_system.Prelude.{
  suc, Text, true, [], ◌∷◌, ◌++◌, Option, none, some, ◌≡◌, refl, ◌∙◌, ap, arith, All-append,
  Bool-cases, Option-cases, inl, inr, is_none,
}
use feature_flag_system.Types.{Flag, created, updated, deleted, full, stub, CreateFlagInput}
use feature_flag_system.Server.{
  Store, to_config, get_by_id, get_by_key, put_row, delete_row, is_storable,
}
use feature_flag_system.Server.Repository.{
  create_row, insert_row, new_row, can_insert, toggled_row, update_row, update_found, write_row,
  toggle_row, toggle_found, remove_row, delete_found, UpdateRequest, updated_row, has_no_change,
  is_expected,
}
use feature_flag_system.Server.Rows.{
  config_at-append, get_by_id-id, get_by_key-none, get_by_id-none, append-IsDistinct, put_row-All,
  put_row-IsDistinct, config_at-put_row, delete_row-All, delete_row-IsDistinct,
  config_at-delete_row,
}
use feature_flag_system.Server.Sound.{IsSound, IsNext, stay, draw-IsNext, commit_event-IsNext}

is_none-none {ℓ} : {A : Type ℓ} (o : Option A) → is_none o ≡ true → o ≡ none
is_none-none none h = refl
is_none-none (some a) h = absurd (cc h)

module _ (s : Store) (i : IsSound s) where
  -- A row in place of the one with its id and key.
  write_row-IsNext :
      (f row : Flag) (now : Text)
      → get_by_id f.id s.flags ≡ some f
      → row.id ≡ f.id
      → row.key ≡ f.key
      → row.version ≡ suc s.sequence
      → IsNext s (write_row row now s).1
  unfolding write_row to_config
  write_row-IsNext f row now found same_id same_key v = elim (Bool-cases (is_storable row)) [
    | inr bad ↦ rw bad (draw-IsNext s i)
    | inl good ↦ rw good (
        commit_event-IsNext s i updated row.key (full (to_config row)) now (put_row row s.flags)
          refl (put_row-IsDistinct f row same_id same_key s.flags i.distinct found)
          (λ P old new.
            put_row-All f row same_id same_key P s.flags old (new row v (λ e. cc e) refl))
          (λ k. config_at-put_row f row same_id same_key k s.flags i.distinct found))
  ]

  -- A row that was looked up is found under its own id.
  pub found_again :
      (id : Text) (f : Flag) → get_by_id id s.flags ≡ some f → get_by_id f.id s.flags ≡ some f
  found_again id f h = ap (λ j. get_by_id j s.flags) (get_by_id-id id s.flags f h) ∙ h

  pub create_row-IsNext :
      (req : CreateFlagInput) (id now : Text) → IsNext s (create_row req id now s).1
  unfolding create_row insert_row to_config
  create_row-IsNext req id now =
      let row = new_row req id now (suc s.sequence) in
      elim (Bool-cases (can_insert row s.flags)) [
        | inr bad ↦ rw bad (draw-IsNext s i)
        | inl good ↦
            let free_key : get_by_key row.key s.flags ≡ none =
              is_none-none (get_by_key row.key s.flags) (ground arith) in
            let free_id : get_by_id row.id s.flags ≡ none =
              is_none-none (get_by_id row.id s.flags) (ground arith) in
            rw good (
              commit_event-IsNext s i created row.key (full (to_config row)) now
                (s.flags ++ row ∷ []) refl
                (append-IsDistinct s.flags row i.distinct (get_by_id-none row.id s.flags free_id)
                  (get_by_key-none row.key s.flags free_key))
                (λ P old new.
                  All-append P s.flags (row ∷ []) old (new row refl (λ e. cc e) refl, tt))
                (λ k. config_at-append k row s.flags free_key))
      ]

  pub update_row-IsNext :
      (req : UpdateRequest) (id now : Text) → IsNext s (update_row req id now s).1
  unfolding update_row update_found
  update_row-IsNext req id now = elim (Bool-cases (has_no_change req)) [
    | inl same ↦ rw same (stay s i)
    | inr change ↦ elim (Option-cases (get_by_id id s.flags)) [
      | inl gone ↦ rw (change, gone) (draw-IsNext s i)
      | inr (f, found) ↦ elim (Bool-cases (is_expected req.expected_version f.version)) [
        | inr stale ↦ rw (change, found, stale) (draw-IsNext s i)
        | inl fine ↦
            rw (change, found, fine)
              (write_row-IsNext f (updated_row req now (suc s.sequence) f) now
                (found_again id f found) refl refl refl)
      ]
    ]
  ]

  pub toggle_row-IsNext : (id now : Text) → IsNext s (toggle_row id now s).1
  unfolding toggle_row toggle_found
  toggle_row-IsNext id now = elim (Option-cases (get_by_id id s.flags)) [
    | inl gone ↦ rw gone (draw-IsNext s i)
    | inr (f, found) ↦ rw found (
        write_row-IsNext f (toggled_row now (suc s.sequence) f) now (found_again id f found) refl
          refl refl)
  ]

  pub remove_row-IsNext : (id now : Text) → IsNext s (remove_row id now s).1
  unfolding remove_row delete_found
  remove_row-IsNext id now = elim (Option-cases (get_by_id id s.flags)) [
    | inl gone ↦ rw gone (stay s i)
    | inr (f, found) ↦ rw found (
        commit_event-IsNext s i deleted f.key (stub id f.key) now (delete_row id s.flags) refl
          (delete_row-IsDistinct id s.flags i.distinct)
          (λ P old new. delete_row-All id P s.flags old)
          (λ k. config_at-delete_row id k f s.flags i.distinct found))
  ]
