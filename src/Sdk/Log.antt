-- ===== src/Sdk/Log.antt =====
-- What the server's durable event log says of the flags: the independent description against
-- which the client is held. A log lists the events of backend/migrations' `flag_events` by
-- ascending version.
pub mod Next
use mathlib.Core.List.{Memᴰ}
use feature_flag_system.Prelude.{
  All, max, ◌++◌, ℕ, ◌+◌, ◌<◌, ◌≤◌, ◌≡◌, refl, ap, ◌≢◌, ◌++◌, ◌∷◌, [], Text, Bool, true, false,
  List, Option, none, some, leb, ltb, if◌then◌else◌, text_eq, keep, All, arith, Bool-cases, inl,
  inr, get, get-set, get-remove, Dict,
}
use feature_flag_system.Types.{
  FlagConfig, FlagEvent, EventType, deleted, created, updated, as_config,
}
use feature_flag_system.Sdk.Reconcile.{write_event}

-- A configuration, with the order of its flags forgotten.
abbrev pub View : Type 0
View = Text → Option FlagConfig

abbrev pub no_flags : View
no_flags k = none

abbrev pub entry_value : EventType → FlagConfig → Option FlagConfig
entry_value deleted f = none
entry_value created f = some f
entry_value updated f = some f

abbrev pub entry : FlagEvent → View → View
entry ev m k =
    if text_eq ev.flag_key k then entry_value ev.event_type (as_config ev.payload) else m k

-- The configuration at version `v`: the events up to it, in order.
unfoldable pub state_at : ℕ → List FlagEvent → View → View
state_at v [] m = m
state_at v (e ∷ es) m = state_at v es (if leb e.version v then entry e m else m)

-- `WHERE version > v ORDER BY version ASC`
unfoldable pub after : ℕ → List FlagEvent → List FlagEvent
after v log = keep (λ e. ltb v e.version) log

-- Versions ascend, from above `lo`.
abbrev pub Above : ℕ → List FlagEvent → Type 0
Above lo [] = Unit
Above lo (e ∷ es) = (lo < e.version) × Above e.version es

pub Above-weaken : (a b : ℕ) (es : List FlagEvent) → a ≤ b → Above b es → Above a es
Above-weaken a b [] h u = tt
Above-weaken a b (e ∷ es) h u = (omega arith, u.1)

-- Above `v` nothing is filtered out and nothing has happened.
pub after_all : (v : ℕ) (es : List FlagEvent) → Above v es → after v es ≡ es
unfolding after
after_all v [] u = refl
after_all v (e ∷ es) u =
    ground (arith, after_all v es (Above-weaken v e.version es (omega arith) u.1))

pub state_at_all : (v : ℕ) (es : List FlagEvent) (m : View) → Above v es → state_at v es m ≡ m
unfolding state_at
state_at_all v [] m u = refl
state_at_all v (e ∷ es) m u =
    ground (arith, state_at_all v es m (Above-weaken v e.version es (omega arith) u.1))

-- `SELECT COALESCE(MAX(version), 0)`
unfoldable pub latest : List FlagEvent → ℕ
latest [] = 0
latest (e ∷ es) = max e.version (latest es)

pub latest-All : (n : ℕ) (es : List FlagEvent) → latest es ≤ n → All (λ x. x.version ≤ n) es
unfolding latest
latest-All n [] h = tt
latest-All n (e ∷ es) h = (omega arith, latest-All n es (omega arith))

pub latest-commit :
    (e : FlagEvent) (es : List FlagEvent)
    → latest es < e.version
    → latest (es ++ e ∷ []) ≡ e.version
unfolding latest
latest-commit e [] h = omega arith
latest-commit e (x ∷ xs) h = omega (arith, latest-commit e xs (omega arith))
