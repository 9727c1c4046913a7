-- ===== src/Server/Overlap/Alone.antt =====
-- A transaction that no other overlaps does what backend/internal/repository/flag_repository.go does
-- with one transaction at a time.
use feature_flag_system.Prelude.{◌≡◌, refl, suc, Text, false, Option, none, some, arith, ap}
use feature_flag_system.Types.{Flag, CreateFlagInput}
use feature_flag_system.Server.{Store, get_by_id}
use feature_flag_system.Server.Repository.{
  UpdateRequest, draw, updated_row, toggled_row, create_row, insert_row, update_row, update_found,
  write_row, toggle_row, toggle_found, remove_row, delete_found, commit_event, has_no_change,
}
use feature_flag_system.Server.Overlap.{
  create_at, write_at, update_found_at, toggle_found_at, remove_at, creating, updating, toggling,
  deleting, perform,
}

write_at-alone :
    (row : Flag) (now : Text) (s : Store)
    → write_at row now (suc s.sequence) (draw s) ≡ write_row row now s
unfolding write_at write_row commit_event
write_at-alone row now s = ground arith

create_at-alone :
    (req : CreateFlagInput) (id now : Text) (s : Store)
    → (create_at req id now (suc s.sequence) (draw s)).1 ≡ (create_row req id now s).1
unfolding create_at create_row insert_row commit_event
create_at-alone req id now s = ground arith

update_found-alone :
    (change : UpdateRequest) (now : Text) (o : Option Flag) (s : Store)
    → update_found_at change now (suc s.sequence) o (draw s) ≡ update_found change now o s
unfolding update_found_at update_found
update_found-alone change now none s = refl
update_found-alone change now (some f) s =
    ground (arith, write_at-alone (updated_row change now (suc s.sequence) f) now s)

update-alone :
    (change : UpdateRequest) (id now : Text) (s : Store)
    → has_no_change change ≡ false
    → (update_found_at change now (suc s.sequence) (get_by_id id s.flags) (draw s)).1
      ≡ (update_row change id now s).1
unfolding update_row
update-alone change id now s h =
    rw h (ap (λ r. r.1) (update_found-alone change now (get_by_id id s.flags) s))

toggle-alone :
    (now : Text) (o : Option Flag) (s : Store)
    → (toggle_found_at now (suc s.sequence) o (draw s)).1 ≡ (toggle_found now o s).1
unfolding toggle_found_at toggle_found
toggle-alone now none s = refl
toggle-alone now (some f) s =
    ap (λ r. r.1) (write_at-alone (toggled_row now (suc s.sequence) f) now s)

remove-alone :
    (id now : Text) (f : Flag) (s : Store)
    → get_by_id id s.flags ≡ some f
    → (remove_at id f.key now (suc s.sequence) (draw s)).1 ≡ (remove_row id now s).1
unfolding remove_at remove_row delete_found commit_event
remove-alone id now f s found = rw found refl

-- Drawn and at once performed, a pending creation, update, toggle or deletion leaves the store that
-- the write leaves which runs alone; a deletion where the flag is there.
pub perform-alone :
    (req : CreateFlagInput) (change : UpdateRequest) (id now : Text) (f : Flag) (s : Store)
    → has_no_change change ≡ false
    → get_by_id id s.flags ≡ some f
    → (perform (creating req id) now (suc s.sequence) (draw s) ≡ (create_row req id now s).1)
      × (perform (updating change id) now (suc s.sequence) (draw s)
          ≡ (update_row change id now s).1)
      × (perform (toggling id) now (suc s.sequence) (draw s) ≡ (toggle_row id now s).1)
      × (perform (deleting id f.key) now (suc s.sequence) (draw s) ≡ (remove_row id now s).1)
unfolding perform toggle_row toggle_found
perform-alone req change id now f s h found = (
  create_at-alone req id now s,
  update-alone change id now s h,
  toggle-alone now (get_by_id id s.flags) s,
  remove-alone id now f s found,
)
