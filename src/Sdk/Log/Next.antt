-- ===== src/Sdk/Log/Next.antt =====
-- The next event after a version: where it stands in a log, and what it does to the configuration.
use mathlib.Core.List.{Memᴰ}
use feature_flag_system.Prelude.{
  ℕ, suc, ◌<◌, ◌≤◌, ◌≡◌, ap, ◌++◌, ◌∷◌, [], Text, List, leb, ltb, if◌then◌else◌, text_eq, arith,
  Bool-cases, inl, inr, le_or_lt, get, get-set, get-remove, Dict, sym, ◌∙◌,
}
use feature_flag_system.Types.{
  FlagConfig, FlagEvent, EventType, deleted, created, updated, as_config,
}
use feature_flag_system.Sdk.Reconcile.{write_event, write_as}
use feature_flag_system.Sdk.Log.{
  View, entry, entry_value, state_at, after, Above, Above-weaken, after_all, state_at_all,
}

-- A clause of `after`, where the head is taken or passed over.
after_take :
    (v : ℕ) (x : FlagEvent) (es : List FlagEvent)
    → v < x.version
    → after v (x ∷ es) ≡ x ∷ after v es
unfolding after
after_take v x es h = ground arith

after_skip :
    (v : ℕ) (x : FlagEvent) (es : List FlagEvent) → x.version ≤ v → after v (x ∷ es) ≡ after v es
unfolding after
after_skip v x es h = ground arith

state_at_take :
    (v : ℕ) (x : FlagEvent) (es : List FlagEvent) (m : View)
    → x.version ≤ v
    → state_at v (x ∷ es) m ≡ state_at v es (entry x m)
unfolding state_at
state_at_take v x es m h = ground arith

state_at_skip :
    (v : ℕ) (x : FlagEvent) (es : List FlagEvent) (m : View)
    → v < x.version
    → state_at v (x ∷ es) m ≡ state_at v es m
unfolding state_at
state_at_skip v x es m h = ground arith

-- The first event after `v` lies above `v`.
pub after-lt :
    (v : ℕ) (log : List FlagEvent) {e : FlagEvent} {rest : List FlagEvent}
    → after v log ≡ e ∷ rest
    → v < e.version
unfolding after
after-lt v [] h = cc
after-lt v (x ∷ xs) {e} {rest} h = elim (Bool-cases (ltb v x.version)) [
  | inl hit ↦ ground arith
  | inr miss ↦ after-lt v xs {e = e} {rest = rest} (ground arith)
]

module _ {e : FlagEvent} {rest : List FlagEvent} where
  -- Past it, what is left is the rest.
  pub after_next :
      (lo v : ℕ) (log : List FlagEvent)
      → Above lo log
      → after v log ≡ e ∷ rest
      → after e.version log ≡ rest
  after_next lo v [] u h = absurd (after-nil h)
    where
      after-nil : after v [] ≡ e ∷ rest → ⊥
      after-nil h = unfold after in cc
  after_next lo v (x ∷ xs) u h = elim (le_or_lt x.version v) [
    | inr hit ↦ cc (
      after_take v x xs hit,
      after_skip x.version x xs (omega arith),
      after_all x.version xs u.1,
      after_all v xs (Above-weaken v x.version xs (omega arith) u.1),
    )
    | inl miss ↦
        let h' : after v xs ≡ e ∷ rest = sym (after_skip v x xs miss) ∙ h in
        after_skip e.version x xs (omega (arith, after-lt v xs h'))
        ∙ after_next x.version v xs u.1 h'
  ]

  -- Its version is the configuration before with the event written.
  pub state_at_next :
      (lo v : ℕ) (log : List FlagEvent) (m : View)
      → Above lo log
      → after v log ≡ e ∷ rest
      → state_at e.version log m ≡ entry e (state_at v log m)
  state_at_next lo v [] m u h = absurd (unfold after in cc h)
  state_at_next lo v (x ∷ xs) m u h = elim (le_or_lt x.version v) [
    | inr hit ↦ cc (
      after_take v x xs hit,
      state_at_take x.version x xs m (omega arith),
      state_at_skip v x xs m hit,
      state_at_all x.version xs (entry x m) u.1,
      state_at_all v xs m (Above-weaken v x.version xs (omega arith) u.1),
    )
    | inl miss ↦
        let h' : after v xs ≡ e ∷ rest = sym (after_skip v x xs miss) ∙ h in
        state_at_take e.version x xs m (omega (arith, after-lt v xs h'))
        ∙ state_at_next x.version v xs (entry x m) u.1 h'
        ∙ ap (entry e) (sym (state_at_take v x xs m miss))
  ]

  -- Between `s` and it there is nothing.
  pub after_gap :
      (lo s v : ℕ) (log : List FlagEvent)
      → Above lo log
      → after s log ≡ e ∷ rest
      → s ≤ v
      → v < e.version
      → after v log ≡ e ∷ rest
  after_gap lo s v [] u h p q = absurd (unfold after in cc h)
  after_gap lo s v (x ∷ xs) u h p q = elim (le_or_lt x.version s) [
    | inr hit ↦
        let same : x ≡ e = cc (after_take s x xs hit) in
        let below : v < x.version = rw same q in
        cc (
          after_take s x xs hit,
          after_take v x xs below,
          after_all s xs (Above-weaken s x.version xs (omega arith) u.1),
          after_all v xs (Above-weaken v x.version xs (omega arith) u.1),
        )
    | inl miss ↦
        after_skip v x xs (omega arith)
        ∙ after_gap x.version s v xs u.1 (sym (after_skip s x xs miss) ∙ h) p q
  ]

pub Above-mem :
    (lo : ℕ) (e : FlagEvent) (log : List FlagEvent) → Above lo log → Memᴰ e log → lo < e.version
Above-mem lo e [] u m = elim m [ ]
Above-mem lo e (x ∷ xs) u (Memᴰ.head same) = rw same u.0
Above-mem lo e (x ∷ xs) u (Memᴰ.tail m) = omega (arith, Above-mem x.version e xs u.1 m, u.0)

-- An event of the log whose version follows `v` directly is the next one.
pub after_member :
    (lo v : ℕ) (e : FlagEvent) (log : List FlagEvent)
    → Above lo log
    → Memᴰ e log
    → e.version ≡ suc v
    → after v log ≡ e ∷ after e.version log
after_member lo v e [] u m h = elim m [ ]
after_member lo v e (x ∷ xs) u (Memᴰ.head same) h =
    let first : x.version ≡ suc v = rw (← same) h in
    cc (
      same,
      after_take v x xs (omega arith),
      after_skip x.version x xs (omega arith),
      after_all x.version xs u.1,
      after_all v xs (Above-weaken v x.version xs (omega arith) u.1),
    )
after_member lo v e (x ∷ xs) u (Memᴰ.tail m) h =
    let above = Above-mem x.version e xs u.1 m in
    after_skip v x xs (omega arith)
    ∙ after_member x.version v e xs u.1 m h
    ∙ ap (λ l. e ∷ l) (sym (after_skip e.version x xs (omega arith)))

-- A commit above `v` is appended to what follows `v`.
pub after_commit :
    (v : ℕ) (e : FlagEvent) (log : List FlagEvent)
    → v < e.version
    → after v (log ++ e ∷ []) ≡ after v log ++ e ∷ []
unfolding after
after_commit v e [] h = ground arith
after_commit v e (x ∷ xs) h = ground (arith, after_commit v e xs h)

-- It does not change what the configuration was at `v`.
pub state_at_commit :
    (v : ℕ) (e : FlagEvent) (log : List FlagEvent) (m : View)
    → v < e.version
    → state_at v (log ++ e ∷ []) m ≡ state_at v log m
unfolding state_at
state_at_commit v e [] m h = ground arith
state_at_commit v e (x ∷ xs) m h =
    state_at_commit v e xs (if leb x.version v then entry x m else m) h

get-write_as :
    (t : EventType) (ev : FlagEvent) (m : Dict FlagConfig) (k : Text)
    → get k (write_as t ev m)
      ≡ (if text_eq ev.flag_key k then entry_value t (as_config ev.payload) else get k m)
unfolding write_as
get-write_as deleted ev m k = get-remove ev.flag_key k m
get-write_as created ev m k = get-set ev.flag_key k (as_config ev.payload) m
get-write_as updated ev m k = get-set ev.flag_key k (as_config ev.payload) m

-- What `write_event` does to the map is what the entry does to the configuration.
pub get-write_event :
    (ev : FlagEvent) (m : Dict FlagConfig) (k : Text)
    → get k (write_event ev m) ≡ entry ev (λ j. get j m) k
unfolding write_event
get-write_event ev m k = get-write_as ev.event_type ev m k
