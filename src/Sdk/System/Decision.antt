-- ===== src/Sdk/System/Decision.antt =====
-- From the log to a user's answer.
use mathlib.Core.Option
use feature_flag_system.Prelude.{
  ℕ, ◌≤◌, ◌≡◌, refl, sym, ◌∙◌, ◌∷◌, [], Text, List, some, All, arith, get, leb, text_eq,
  text_eq_iff, if◌then◌else◌, Bool-cases, inl, inr,
}
use feature_flag_system.Types.{
  FlagConfig, FlagEvent, created, updated, deleted, EventType, as_config,
}
use feature_flag_system.Sdk.Client.{Client, is_enabled}
use feature_flag_system.Sdk.Init.{set_all}
use feature_flag_system.Sdk.Log.{View, no_flags, entry, entry_value, state_at, Above, latest}
use feature_flag_system.Sdk.System.{System, IsKeyed, Reach}
use feature_flag_system.Sdk.System.Reachable.{Reach-Invariant, start, start-Invariant}
use feature_flag_system.Evaluate.{evaluate}
use feature_flag_system.Evaluate.Parity.{as_evaluable, is_enabled-evaluate}

-- Each flag stands under its own key.
abbrev IsKeyedView : View → Type 0
IsKeyedView m = (k : Text) (f : FlagConfig) → m k ≡ some f → f.key ≡ k

entry-IsKeyedView : (e : FlagEvent) (m : View) → IsKeyed e → IsKeyedView m → IsKeyedView (entry e m)
entry-IsKeyedView e m keyed h k f = go e.event_type
  where
    go :
        (t : EventType)
        → (if text_eq e.flag_key k then entry_value t (as_config e.payload) else m k) ≡ some f
        → f.key ≡ k
    go deleted q = ground (arith, h k f, text_eq_iff e.flag_key k)
    go created q = ground (arith, h k f, text_eq_iff e.flag_key k)
    go updated q = ground (arith, h k f, text_eq_iff e.flag_key k)

state_at-IsKeyedView :
    (v : ℕ) (log : List FlagEvent) (m : View)
    → All IsKeyed log
    → IsKeyedView m
    → IsKeyedView (state_at v log m)
unfolding state_at
state_at-IsKeyedView v [] m keyed h = h
state_at-IsKeyedView v (e ∷ es) m keyed h = elim (Bool-cases (leb e.version v)) [
  | inl done ↦
      rw done (state_at-IsKeyedView v es (entry e m) keyed.1 (entry-IsKeyedView e m keyed.0 h))
  | inr ahead ↦ rw ahead (state_at-IsKeyedView v es m keyed.1 h)
]

-- In every state that a client reaches after an `init` with a consistent snapshot, `isEnabled`
-- answers for any flag key and user what the traced evaluation gives for the flag that the log
-- holds under that key at the client's version, a flag that is not there included.
pub decides_by_log :
    (c : Client) (fs : List FlagConfig) (v : ℕ) (log : List FlagEvent)
    → Above 0 log
    → All IsKeyed log
    → ((k : Text) → get k (set_all fs []) ≡ state_at v log no_flags k)
    → v ≤ latest log
    → {t : System} → Reach (start c fs v log) t
    → (flag_key user_id : Text)
    → is_enabled t.client flag_key user_id
      ≡ (evaluate
          (Option.map as_evaluable (state_at t.client.config_version t.log no_flags flag_key))
          user_id).on
decides_by_log c fs v log ascends keyed consistent known {t} r flag_key user_id =
    let i = Reach-Invariant r (start-Invariant c fs v log ascends keyed consistent known) in
    let same = i.faithful flag_key in
    is_enabled-evaluate t.client flag_key user_id (λ f h.
      state_at-IsKeyedView t.client.config_version t.log no_flags i.keyed (λ k g e. cc) flag_key f
        (sym same ∙ h))
    ∙ rw same refl
