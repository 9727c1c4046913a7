-- ===== src/Server/Sound/Writes.antt =====
-- Each write of backend/internal/service/flag_service.go, and any list of them, keeps the table sound.
use feature_flag_system.Prelude.{
  ℕ, ◌≤◌, arith, Text, List, [], ◌∷◌, Option, none, some, ◌≡◌, refl, Bool-cases, inl, inr, is_none,
}
use feature_flag_system.Types.{Flag, CreateFlagInput}
use feature_flag_system.Server.{Store, empty_store, get_by_id, get_by_key}
use feature_flag_system.Server.Repository.{
  Written, done, no_row, version_conflict, database_error, not_found, create_row, update_row,
  toggle_row, remove_row,
}
use feature_flag_system.Server.Service.{
  Write, create, update, toggle, delete, interrupted, run_write, run_writes, create_flag,
  create_error, bad_change, update_flag, toggle_flag, delete_flag, create_checked, delete_looked_up,
  answer_write, answer_delete,
}
use feature_flag_system.Server.Sound.{
  IsSound, IsNext, IsNewer, stay, draw-IsNext, empty_store-IsSound,
}
use feature_flag_system.Server.Sound.Operations.{
  create_row-IsNext, update_row-IsNext, toggle_row-IsNext, remove_row-IsNext,
}

pub answer_write-store : (r : Written Flag × Store) → (answer_write r).store ≡ r.1
answer_write-store (done f, s) = refl
answer_write-store (no_row, s) = refl
answer_write-store (version_conflict, s) = refl
answer_write-store (database_error, s) = refl
answer_write-store (not_found, s) = refl

answer_delete-store : (key : Text) (r : Written ℕ × Store) → (answer_delete key r).store ≡ r.1
answer_delete-store key (done f, s) = refl
answer_delete-store key (no_row, s) = refl
answer_delete-store key (version_conflict, s) = refl
answer_delete-store key (database_error, s) = refl
answer_delete-store key (not_found, s) = refl

create_checked-IsNext :
    (e : Option Text) (req : CreateFlagInput) (id now : Text) (s : Store)
    → IsSound s
    → IsNext s (create_checked e req id now s).store
create_checked-IsNext (some e) req id now s i = stay s i
create_checked-IsNext none req id now s i =
    elim (Bool-cases (is_none (get_by_key req.key s.flags))) [
      | inr taken ↦ rw taken (stay s i)
      | inl free ↦
          rw (free, answer_write-store (create_row req id now s)) (create_row-IsNext s i req id now)
    ]

delete_looked_up-IsNext :
    (o : Option Flag) (id now : Text) (s : Store)
    → IsSound s
    → IsNext s (delete_looked_up o id now s).store
delete_looked_up-IsNext none id now s i = stay s i
delete_looked_up-IsNext (some f) id now s i =
    rw (answer_delete-store f.key (remove_row id now s)) (remove_row-IsNext s i id now)

pub run_write-IsNext : (w : Write) (s : Store) → IsSound s → IsNext s (run_write w s)
unfolding run_write create_flag update_flag toggle_flag delete_flag
run_write-IsNext (create req id now) s i = create_checked-IsNext (create_error req) req id now s i
run_write-IsNext (update req id now) s i = elim (Bool-cases (bad_change req.rollout_percentage)) [
  | inl bad ↦ rw (run_write, update_flag, bad) (stay s i)
  | inr fine ↦
      rw (run_write, update_flag, fine, answer_write-store (update_row req id now s))
        (update_row-IsNext s i req id now)
]
run_write-IsNext (toggle id now) s i =
    rw (run_write, toggle_flag, answer_write-store (toggle_row id now s))
      (toggle_row-IsNext s i id now)
run_write-IsNext (delete id now) s i = delete_looked_up-IsNext (get_by_id id s.flags) id now s i
run_write-IsNext interrupted s i = draw-IsNext s i

run_from : (ws : List Write) (s : Store) → IsSound s → IsSound (run_writes ws s)
unfolding run_writes
run_from [] s i = i
run_from (w ∷ ws) s i = run_from ws (run_write w s) (run_write-IsNext w s i).sound

-- A row that is newer than a version stays so, whatever is written, and however often the flag is
-- deleted and made again.
pub run_writes-IsNewer :
    (ws : List Write) (s : Store) (id : Text) (v : ℕ)
    → IsSound s
    → v ≤ s.sequence
    → IsNewer id v s.flags
    → IsNewer id v (run_writes ws s).flags
unfolding run_writes
run_writes-IsNewer [] s id v i b n = n
run_writes-IsNewer (w ∷ ws) s id v i b n =
    let t = run_write-IsNext w s i in
    run_writes-IsNewer ws (run_write w s) id v t.sound (omega (arith, b, t.grows))
      (t.newer id v b n)

-- From an empty database on, whatever is created, updated, toggled, deleted, refused or
-- interrupted: ids and keys stay unique, the log ascends, every row is as an event of the log
-- wrote it under the row's version, and the table of flags has under every key exactly what the
-- event log, read from its start, says of that key.
pub run_writes-IsSound : (ws : List Write) → IsSound (run_writes ws empty_store)
run_writes-IsSound ws = run_from ws empty_store empty_store-IsSound
