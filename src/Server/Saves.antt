-- ===== src/Server/Saves.antt =====
-- What a save that succeeded did, read back from its reply: `UpdateFlag` of
-- backend/internal/service/flag_service.go.
use feature_flag_system.Prelude.{
  suc, Text, Bool, true, false, List, [], ◌∷◌, Option, none, some, ℤ, ◌≡◌, refl, sym, ap, ◌∙◌,
  arith, if◌then◌else◌, text_eq_refl, codes,
}
use feature_flag_system.Types.{Flag, updated, full}
use feature_flag_system.Server.{Store, to_config, get_by_id, put_row, is_storable}
use feature_flag_system.Server.Repository.{
  Written, done, version_conflict, database_error, UpdateRequest, write_row, update_row,
  update_found, updated_row, commit_event, has_no_change, is_expected, is_version, draw,
}
use feature_flag_system.Server.Service.{
  Served, ok, update_flag, bad_change, answer_write, refuse, invalid,
}
use feature_flag_system.Server.Rows.{get_by_id-id}

-- A row that has been put in place of the one that was found is found.
pub get_by_id-put_row :
    (id : Text) (f r : Flag) (rs : List Flag)
    → get_by_id id rs ≡ some f
    → r.id ≡ id
    → get_by_id id (put_row r rs) ≡ some r
unfolding get_by_id put_row
get_by_id-put_row id f r [] found same = absurd (cc found)
get_by_id-put_row id f r (x ∷ xs) found same =
    ground (arith, text_eq_refl id, get_by_id-put_row id f r xs)

-- A successful write of a row, read back from its reply.
pub write_row_ok :
    (row g : Flag) (now : Text) (s : Store)
    → (answer_write (write_row row now s)).reply ≡ ok g
    → (write_row row now s ≡ (
      done row,
      commit_event updated row.key (full (to_config row)) now (put_row row s.flags) s,
    ))
      × (g ≡ row)
unfolding write_row
write_row_ok row g now s = go (is_storable row)
  where
    kept : Store
    kept = commit_event updated row.key (full (to_config row)) now (put_row row s.flags) s

    go :
        (b : Bool)
        → let r : Written Flag × Store = if b then (done row, kept) else (database_error, draw s) in
          (answer_write r).reply ≡ ok g → (r ≡ (done row, kept)) × (g ≡ row)
    go true h = (refl, cc h)
    go false h = absurd (cc h)

-- The same for an update, once the row has been looked up.
update_found_ok :
    (req : UpdateRequest) (now : Text) (e : ℤ) (s : Store) (g : Flag) (o : Option Flag)
    → req.expected_version ≡ some e
    → (answer_write (update_found req now o s)).reply ≡ ok g
    → (f : Flag) × (o ≡ some f)
      × (is_version e f.version ≡ true)
      × (update_found req now o s ≡ write_row (updated_row req now (suc s.sequence) f) now s)
unfolding update_found
update_found_ok req now e s g none expects h = absurd (cc h)
update_found_ok req now e s g (some f) expects h =
    go (is_expected req.expected_version f.version) (ap (λ x. is_expected x f.version) expects) h
  where
    wrote : Written Flag × Store
    wrote = write_row (updated_row req now (suc s.sequence) f) now s

    go :
        (b : Bool)
        → b ≡ is_version e f.version
        → let r : Written Flag × Store = if b then wrote else (version_conflict, draw s) in
          (answer_write r).reply ≡ ok g
          → (f' : Flag) × (some f ≡ some f')
            × (is_version e f'.version ≡ true)
            × (r ≡ write_row (updated_row req now (suc s.sequence) f') now s)
    go true same h = (f, refl, sym same, refl)
    go false same h = absurd (cc h)

update_row_changed :
    (req : UpdateRequest) (id now : Text) (s : Store)
    → has_no_change req ≡ false
    → update_row req id now s ≡ update_found req now (get_by_id id s.flags) s
unfolding update_row
update_row_changed req id now s change = rw change refl

update_flag_ok :
    (req : UpdateRequest) (id now : Text) (s : Store) (g : Flag)
    → (update_flag req id now s).reply ≡ ok g
    → update_flag req id now s ≡ answer_write (update_row req id now s)
unfolding update_flag
update_flag_ok req id now s g = go (bad_change req.rollout_percentage)
  where
    go :
        (b : Bool)
        → let r : Served Flag =
            if b
            then refuse (invalid (codes "rollout_percentage must be between 0 and 100")) s
            else answer_write (update_row req id now s) in
          r.reply ≡ ok g → r ≡ answer_write (update_row req id now s)
    go true h = absurd (cc h)
    go false h = refl

-- What a successful update leaves under the id.
pub update_saves :
    (req : UpdateRequest) (id now : Text) (e : ℤ) (s : Store) (g : Flag)
    → has_no_change req ≡ false
    → req.expected_version ≡ some e
    → (update_flag req id now s).reply ≡ ok g
    → (f : Flag) × (get_by_id id s.flags ≡ some f)
      × (is_version e f.version ≡ true)
      × (get_by_id id (update_flag req id now s).store.flags
          ≡ some (updated_row req now (suc s.sequence) f))
update_saves req id now e s g change expects h =
    let run =
      update_flag_ok req id now s g h ∙ ap answer_write (update_row_changed req id now s change) in
    let (f, found, expected, wrote) =
      update_found_ok req now e s g (get_by_id id s.flags) expects
        (ap (λ r. r.reply) (sym run) ∙ h) in
    let row = updated_row req now (suc s.sequence) f in
    let run' : update_flag req id now s ≡ answer_write (write_row row now s) =
      run ∙ ap answer_write wrote in
    let (kept, same) = write_row_ok row g now s (ap (λ r. r.reply) (sym run') ∙ h) in
    let end = run' ∙ ap answer_write kept in
    (
      f,
      found,
      expected,
      ap (λ r. get_by_id id r.store.flags) end
          ∙ unfold commit_event in
            get_by_id-put_row id f row s.flags found (get_by_id-id id s.flags f found),
    )
