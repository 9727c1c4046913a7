-- ===== src/Server/Announced.antt =====
-- What a write of backend/internal/service/flag_service.go changes, and what it publishes.
use feature_flag_system.Prelude.{
  codes, if◌then◌else◌, suc, Text, Bool, true, false, List, [], ◌∷◌, ◌++◌, Option, none, some, ◌≡◌,
  refl, sym, Bool-cases, ap, ◌∙◌, ◌⊎◌, inl, inr, is_none,
}
use feature_flag_system.Types.{
  Flag, FlagEvent, EventType, created, updated, deleted, as_config, full, stub, CreateFlagInput,
}
use feature_flag_system.Server.{put_row, Store, to_config, get_by_id, get_by_key, is_storable}
use feature_flag_system.Server.Repository.{
  event_at, draw, as_written, Written, done, version_conflict, database_error, UpdateRequest,
  create_row, insert_row, new_row, can_insert, write_row, update_row, update_found, updated_row,
  toggled_row, toggle_row, toggle_found, remove_row, delete_found, commit_event, has_no_change,
  is_expected,
}
use feature_flag_system.Server.Service.{
  Served, refuse, duplicate_key, invalid, Envelope, flag_updated, flag_deleted, Write, create,
  update, toggle, delete, interrupted, run_write, published_by, create_flag, update_flag,
  toggle_flag, delete_flag, create_checked, delete_looked_up, create_error, bad_change,
  answer_write,
}
use feature_flag_system.Server.Rows.{get_by_id-id}

-- The envelope that tells of an event.
abbrev pub envelope_as : EventType → FlagEvent → Envelope
envelope_as deleted e = flag_deleted e.version e.flag_key
envelope_as created e = flag_updated e.version (as_config e.payload)
envelope_as updated e = flag_updated e.version (as_config e.payload)

abbrev pub envelope_of : FlagEvent → Envelope
envelope_of e = envelope_as e.event_type e

-- A write that asks for no change: an update without any field.
abbrev pub is_empty_update : Write → Bool
is_empty_update (update req id now) = has_no_change req
is_empty_update (create req id now) = false
is_empty_update (toggle id now) = false
is_empty_update (delete id now) = false
is_empty_update interrupted = false

-- Nothing changed: flags and events are the old ones, and nothing is published, unless the write
-- asks for no change (`idle`): then it may be a row as it stands.
pub record IsIdle (idle : Bool) (s t : Store) (ps : List Envelope) : Type 0 where
  pub same_flags : t.flags ≡ s.flags
  pub same_events : t.events ≡ s.events
  pub no_news :
      (ps ≡ [])
      ⊎ ((idle ≡ true)
          × (f : Flag) × (get_by_id f.id s.flags ≡ some f)
          × (ps ≡ flag_updated f.version (to_config f) ∷ []))

abbrev pub IsAnnounced : Bool → Store → Store → List Envelope → Type 0
IsAnnounced idle s t ps =
    IsIdle idle s t ps
    ⊎ ((e : FlagEvent) × (t.events ≡ s.events ++ e ∷ []) × (ps ≡ envelope_of e ∷ []))

module _ (idle : Bool) (s : Store) where
  abbrev IsTold : {A : Type 0} → Served A → Type 0
  IsTold r = IsAnnounced idle s r.store r.published

  silent : {t : Store} → t.flags ≡ s.flags → t.events ≡ s.events → IsAnnounced idle s t []
  silent {t} f e = inl (record { same_flags = f; same_events = e; no_news = inl refl })

  either :
      {A : Type 0} (b : Bool) (x y : Served A) → IsTold x → IsTold y → IsTold (if b then x else y)
  either true x y h k = h
  either false x y h k = k

  either_written :
      (b : Bool) (x y : Written Flag × Store)
      → IsTold (answer_write x)
      → IsTold (answer_write y)
      → IsTold (answer_write (if b then x else y))
  either_written true x y h k = h
  either_written false x y h k = k

  write_row-IsAnnounced :
      (row : Flag) (now : Text)
      → row.version ≡ suc s.sequence
      → IsTold (answer_write (write_row row now s))
  unfolding write_row commit_event to_config
  write_row-IsAnnounced row now v =
      either_written (is_storable row)
        (done row, commit_event updated row.key (full (to_config row)) now (put_row row s.flags) s)
        (database_error, draw s)
        (inr (
          event_at updated row.key (full (to_config row)) now (suc s.sequence),
          refl,
          ap (λ n. flag_updated n (to_config row) ∷ []) v,
        ))
        (silent refl refl)

  create_row-IsAnnounced :
      (req : CreateFlagInput) (id now : Text) → IsTold (answer_write (create_row req id now s))
  unfolding create_row insert_row commit_event to_config
  create_row-IsAnnounced req id now =
      let row = new_row req id now (suc s.sequence) in
      either_written (can_insert row s.flags)
        (done row, commit_event created row.key (full (to_config row)) now (s.flags ++ row ∷ []) s)
        (database_error, draw s)
        (inr (event_at created row.key (full (to_config row)) now (suc s.sequence), refl, refl))
        (silent refl refl)

  as_written-IsAnnounced :
      (id : Text) (o : Option Flag)
      → idle ≡ true
      → get_by_id id s.flags ≡ o
      → IsTold (answer_write (as_written o, s))
  as_written-IsAnnounced id none i h = silent refl refl
  as_written-IsAnnounced id (some f) i h = inl (record {
    same_flags = refl;
    same_events = refl;
    no_news = inr (i, f, ap (λ j. get_by_id j s.flags) (get_by_id-id id s.flags f h) ∙ h, refl);
  })

  update_found-IsAnnounced :
      (req : UpdateRequest) (now : Text) (o : Option Flag)
      → IsTold (answer_write (update_found req now o s))
  unfolding update_found
  update_found-IsAnnounced req now none = silent refl refl
  update_found-IsAnnounced req now (some f) =
      let row = updated_row req now (suc s.sequence) f in
      either_written (is_expected req.expected_version f.version) (write_row row now s)
        (version_conflict, draw s) (write_row-IsAnnounced row now refl) (silent refl refl)

  toggle_found-IsAnnounced :
      (now : Text) (o : Option Flag) → IsTold (answer_write (toggle_found now o s))
  unfolding toggle_found
  toggle_found-IsAnnounced now none = silent refl refl
  toggle_found-IsAnnounced now (some f) =
      write_row-IsAnnounced (toggled_row now (suc s.sequence) f) now refl

  delete_looked_up-IsAnnounced :
      (id now : Text) (o : Option Flag)
      → get_by_id id s.flags ≡ o
      → IsTold (delete_looked_up o id now s)
  unfolding remove_row delete_found commit_event
  delete_looked_up-IsAnnounced id now none h = silent refl refl
  delete_looked_up-IsAnnounced id now (some f) h =
      rw (remove_row, h)
        (inr (event_at deleted f.key (stub id f.key) now (suc s.sequence), refl, refl))

  create_checked-IsAnnounced :
      (e : Option Text) (req : CreateFlagInput) (id now : Text)
      → IsTold (create_checked e req id now s)
  create_checked-IsAnnounced (some e) req id now = silent refl refl
  create_checked-IsAnnounced none req id now =
      either (is_none (get_by_key req.key s.flags)) (answer_write (create_row req id now s))
        (refuse duplicate_key s) (create_row-IsAnnounced req id now) (silent refl refl)

  -- An update that is read for the row when it asks for no change, and otherwise tries to write.
  update_row-IsAnnounced :
      (req : UpdateRequest) (id now : Text)
      → has_no_change req ≡ idle
      → IsTold (answer_write (update_row req id now s))
  unfolding update_row
  update_row-IsAnnounced req id now h = elim (Bool-cases (has_no_change req)) [
    | inl e ↦ rw e (as_written-IsAnnounced id (get_by_id id s.flags) (sym h ∙ e) refl)
    | inr e ↦ rw e (update_found-IsAnnounced req now (get_by_id id s.flags))
  ]

module _ (s : Store) where
  -- Whatever a write is asked for and however it ends: either flags and events are untouched, and
  -- nothing is published but, if the write is an update without a change, the row as it stands; or
  -- exactly one event is appended to the log, and exactly the envelope of that event is published.
  pub write-IsAnnounced :
      (w : Write) → IsAnnounced (is_empty_update w) s (run_write w s) (published_by w s)
  unfolding run_write published_by create_flag update_flag toggle_flag delete_flag toggle_row
  write-IsAnnounced (create req id now) =
      create_checked-IsAnnounced false s (create_error req) req id now
  write-IsAnnounced (update req id now) =
      either (has_no_change req) s (bad_change req.rollout_percentage)
        (refuse (invalid (codes "rollout_percentage must be between 0 and 100")) s)
        (answer_write (update_row req id now s)) (silent (has_no_change req) s refl refl)
        (update_row-IsAnnounced (has_no_change req) s req id now refl)
  write-IsAnnounced (toggle id now) = toggle_found-IsAnnounced false s now (get_by_id id s.flags)
  write-IsAnnounced (delete id now) =
      delete_looked_up-IsAnnounced false s id now (get_by_id id s.flags) refl
  write-IsAnnounced interrupted = silent false s refl refl
