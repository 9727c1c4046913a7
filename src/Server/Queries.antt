-- ===== src/Server/Queries.antt =====
-- The event log as it is asked for: `ListEventsByFlag` of
-- backend/internal/repository/flag_repository.go with `GetFlagHistory`, and the handler `Reconcile` of
-- backend/internal/handler/client_handler.go.
use feature_flag_system.Prelude.{
  ℕ, zero, suc, ◌<◌, ◌≤◌, ◌^◌, Text, false, List, [], ◌∷◌, Option, none, some, ℤ, pos, negsuc, ◌==◌,
  ltb, is_empty, if◌then◌else◌, take, length, length-take, text_eq, decimal, parse_int64,
  parse_int64-decimal, decimal-digits, ◌≡◌, ◌≢◌, refl, sym, ap, ◌∙◌, arith, Bool-cases, inl, inr,
}
use feature_flag_system.Types.{
  Flag, FlagConfig, FlagEvent, EventType, created, updated, deleted, as_config,
}
use feature_flag_system.Sdk.Log.{View, no_flags, entry, entry_value, latest}
use feature_flag_system.Sdk.CatchUp.{list_events_since}
use feature_flag_system.Server.{Store, empty_store, to_config, get_by_id}
use feature_flag_system.Server.Service.{Write, run_writes}
use feature_flag_system.Server.Sound.{written}
use feature_flag_system.Server.Sound.Writes.{run_writes-IsSound}
use feature_flag_system.Server.Sound.Operations.{found_again}
use feature_flag_system.Server.Torn.{config_at-get_by_id}

-- `WHERE flag_key = $1 ORDER BY version DESC`, on a log of ascending versions.
unfoldable pub newest_of : Text → List FlagEvent → List FlagEvent → List FlagEvent
newest_of key [] found = found
newest_of key (e ∷ es) found =
    newest_of key es (if text_eq e.flag_key key then e ∷ found else found)

-- `LIMIT`, for limits that are not negative.
unfoldable pub history_limit : ℕ → ℕ
history_limit limit =
    let asked = if limit == 0 then 50 else limit in if ltb 200 asked then 200 else asked

-- `ListEventsByFlag`
unfoldable pub list_events_by_flag : Text → ℕ → List FlagEvent → List FlagEvent
unfolding newest_of history_limit
list_events_by_flag key limit log = take (history_limit limit) (newest_of key log [])

-- `GetFlagHistory` of the service, which the handler calls with 50; `none` is answered 404.
unfoldable pub get_flag_history : Text → ℕ → Store → Option (List FlagEvent)
unfolding list_events_by_flag
get_flag_history id limit s = elim (get_by_id id s.flags) [
  | none ↦ none
  | some f ↦ some (list_events_by_flag f.key limit s.events)
]

-- The answers of `Reconcile`.
pub data Replay : Type 0 where
  invalid_since query_failed : Replay
  backlog : List FlagEvent → ℕ → Replay

abbrev since_of : Text → Option ℤ
since_of s = if is_empty s then some (pos 0) else parse_int64 s

abbrev backlog_since : Option ℤ → Option Store → Option Store → Replay
backlog_since none s t = invalid_since
backlog_since (some (negsuc n)) s t = invalid_since
backlog_since (some (pos v)) none t = query_failed
backlog_since (some (pos v)) (some s) none = query_failed
backlog_since (some (pos v)) (some s) (some t) =
    backlog (list_events_since s.events v 0) (latest t.events)

-- `Reconcile`, with a query for the events and one for the version, each at its own store;
-- `none` is a query that fails.
unfoldable pub handle_reconcile : (since : Text) → Option Store → Option Store → Replay
handle_reconcile since s t = backlog_since (since_of since) s t

-- The newest event found decides what a key has.
abbrev newest_value : List FlagEvent → Option FlagConfig → Option FlagConfig
newest_value [] d = d
newest_value (e ∷ es) d = entry_value e.event_type (as_config e.payload)

newest_of-written :
    (key : Text) (d : Option FlagConfig) (es found : List FlagEvent) (m : View)
    → newest_value found d ≡ m key
    → newest_value (newest_of key es found) d ≡ written es m key
unfolding newest_of written
newest_of-written key d [] found m h = h
newest_of-written key d (e ∷ es) found m h = elim (Bool-cases (text_eq e.flag_key key)) [
  | inl hit ↦ rw hit (newest_of-written key d es (e ∷ found) (entry e m) (rw hit refl))
  | inr miss ↦ rw miss (newest_of-written key d es found (entry e m) (rw miss h))
]

entry_value-some :
    (t : EventType) (p c : FlagConfig) → entry_value t p ≡ some c → (t ≢ deleted) × (p ≡ c)
entry_value-some created p c h = ((λ e. cc e), cc h)
entry_value-some updated p c h = ((λ e. cc e), cc h)
entry_value-some deleted p c h = absurd (cc h)

-- A history that is not empty, and what heads it.
abbrev pub Heads : FlagConfig → Option (List FlagEvent) → Type 0
Heads c h =
    (e : FlagEvent) × (rest : List FlagEvent) × (h ≡ some (e ∷ rest))
    × (e.event_type ≢ deleted)
    × (as_config e.payload ≡ c)
    × (length (e ∷ rest) ≤ 200)

taken-Heads :
    (n : ℕ) (c : FlagConfig) (es : List FlagEvent)
    → 0 < n
    → n ≤ 200
    → newest_value es none ≡ some c
    → Heads c (some (take n es))
taken-Heads zero c es h k q = absurd (omega arith)
taken-Heads (suc n) c [] h k q = absurd (cc q)
taken-Heads (suc n) c (e ∷ es) h k q =
    let (kept, same) = entry_value-some e.event_type (as_config e.payload) c q in
    (e, take n es, refl, kept, same, omega (arith, length-take n es))

history_limit_bounds : (limit : ℕ) → (0 < history_limit limit) × (history_limit limit ≤ 200)
unfolding history_limit
history_limit_bounds limit = ground arith

-- Whatever was written, the history of a flag that there is has at its head the event that made
-- the flag what it is now: no deletion, and with the flag's present configuration as its payload.
-- It is found whatever limit was asked for, and the list has 200 events at most.
pub history-Heads :
    (ws : List Write) (id : Text) (limit : ℕ) (f : Flag)
    → let s = run_writes ws empty_store in
      get_by_id id s.flags ≡ some f → Heads (to_config f) (get_flag_history id limit s)
unfolding get_flag_history
history-Heads ws id limit f found =
    let s = run_writes ws empty_store in
    let i = run_writes-IsSound ws in
    let now : newest_value (newest_of f.key s.events []) none ≡ some (to_config f) =
      newest_of-written f.key none s.events [] no_flags refl
      ∙ sym (i.mirrors f.key)
      ∙ config_at-get_by_id f.id f s.flags i.distinct (found_again s i id f found) in
    let (least, most) = history_limit_bounds limit in
    rw (get_flag_history, found)
      (taken-Heads (history_limit limit) (to_config f) (newest_of f.key s.events []) least most now)

-- The replay that a client asks for by its version is the one that the handler gives.
pub handle_reconcile-decimal :
    (v : ℕ) (s t : Store)
    → v < 2 ^ 63
    → handle_reconcile (decimal v) (some s) (some t)
      ≡ backlog (list_events_since s.events v 0) (latest t.events)
unfolding handle_reconcile
handle_reconcile-decimal v s t h =
    let (c, rest, e, digits) = decimal-digits v in
    let full : is_empty (decimal v) ≡ false = ap is_empty e in
    rw (full, parse_int64-decimal v h) refl
