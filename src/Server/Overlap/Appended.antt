-- ===== src/Server/Overlap/Appended.antt =====
-- What one transaction of backend/internal/repository/flag_repository.go adds to the log: an event
-- at its version, or nothing.
use feature_flag_system.Prelude.{
  ◌≡◌, refl, ℕ, Text, [], ◌∷◌, ◌++◌, Option, none, some, ◌⊎◌, inl, inr, Bool-cases,
}
use feature_flag_system.Types.{Flag, FlagEvent, CreateFlagInput}
use feature_flag_system.Server.{Store, get_by_id, is_storable}
use feature_flag_system.Server.Repository.{
  UpdateRequest, can_insert, new_row, updated_row, toggled_row, is_expected,
}
use feature_flag_system.Server.Overlap.{
  Pending, creating, updating, toggling, deleting, perform, create_at, write_at, update_found_at,
  toggle_found_at, remove_at,
}

-- What performing a transaction does to the log and to the sequence.
pub record IsAppended (version : ℕ) (s t : Store) : Type 0 where
  pub kept : t.sequence ≡ s.sequence
  pub logged :
      (t.events ≡ s.events)
      ⊎ ((e : FlagEvent) × (e.version ≡ version) × (t.events ≡ s.events ++ e ∷ []))

abbrev untouched : (version : ℕ) (s : Store) → IsAppended version s s
untouched version s = record { kept = refl; logged = inl refl }

create_at-IsAppended :
    (req : CreateFlagInput) (id now : Text) (version : ℕ) (s : Store)
    → IsAppended version s (create_at req id now version s).1
unfolding create_at
create_at-IsAppended req id now version s =
    elim (Bool-cases (can_insert (new_row req id now version) s.flags)) [
      | inl h ↦ rw h (record { kept = refl; logged = inr (_, refl, refl) })
      | inr h ↦ rw h (untouched version s)
    ]

write_at-IsAppended :
    (row : Flag) (now : Text) (version : ℕ) (s : Store)
    → IsAppended version s (write_at row now version s).1
unfolding write_at
write_at-IsAppended row now version s = elim (Bool-cases (is_storable row)) [
  | inl h ↦ rw h (record { kept = refl; logged = inr (_, refl, refl) })
  | inr h ↦ rw h (untouched version s)
]

update_found_at-IsAppended :
    (req : UpdateRequest) (now : Text) (version : ℕ) (o : Option Flag) (s : Store)
    → IsAppended version s (update_found_at req now version o s).1
unfolding update_found_at
update_found_at-IsAppended req now version none s = untouched version s
update_found_at-IsAppended req now version (some f) s =
    elim (Bool-cases (is_expected req.expected_version f.version)) [
      | inl h ↦ rw h (write_at-IsAppended (updated_row req now version f) now version s)
      | inr h ↦ rw h (untouched version s)
    ]

toggle_found_at-IsAppended :
    (now : Text) (version : ℕ) (o : Option Flag) (s : Store)
    → IsAppended version s (toggle_found_at now version o s).1
unfolding toggle_found_at
toggle_found_at-IsAppended now version none s = untouched version s
toggle_found_at-IsAppended now version (some f) s =
    write_at-IsAppended (toggled_row now version f) now version s

pub perform-IsAppended :
    (p : Pending) (now : Text) (version : ℕ) (s : Store)
    → IsAppended version s (perform p now version s)
unfolding perform remove_at
perform-IsAppended (creating req id) now version s = create_at-IsAppended req id now version s
perform-IsAppended (updating req id) now version s =
    update_found_at-IsAppended req now version (get_by_id id s.flags) s
perform-IsAppended (toggling id) now version s =
    toggle_found_at-IsAppended now version (get_by_id id s.flags) s
perform-IsAppended (deleting id key) now version s = record {
  kept = refl;
  logged = inr (_, refl, refl);
}
