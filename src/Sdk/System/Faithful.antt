-- ===== src/Sdk/System/Faithful.antt =====
-- The client is never wrong, only behind: in every reachable state its flags are those that the
-- log gives for the version that it claims.
use feature_flag_system.Prelude.{
  All, inl, inr, ℕ, ◌≤◌, ◌≡◌, sym, ap, ◌∙◌, ◌++◌, ◌∷◌, [], Text, Bool, true, List, Option, get,
  arith, le_or_lt,
}
use feature_flag_system.Types.{FlagConfig, FlagEvent}
use feature_flag_system.Sdk.Client.{Client}
use feature_flag_system.Sdk.Reconcile.{apply_page, write_event}
use feature_flag_system.Sdk.Reconcile.Pages.{applied, apply_page-old, apply_page-new}
use feature_flag_system.Sdk.Log.{no_flags, entry, state_at, after, Above}
use feature_flag_system.Sdk.Log.Next.{after_next, after_gap, state_at_next, get-write_event}
use feature_flag_system.Sdk.System.Keeps.{Keeps}

-- The flags are the log's, at the client's version.
abbrev pub IsFaithful : List FlagEvent → Client → Type 0
IsFaithful log c = (k : Text) → get k c.flags ≡ state_at c.config_version log no_flags k

pub Keeps-IsFaithful :
    (log : List FlagEvent) (c d : Client) → Keeps c d → IsFaithful log c → IsFaithful log d
Keeps-IsFaithful log c d same h k = cc (same.flags, same.version, h k)

entry_at :
    (e : FlagEvent) (m n : Text → Option FlagConfig) (k : Text)
    → m k ≡ n k
    → entry e m k ≡ entry e n k
entry_at e m n k h = rw h

-- The next event, applied, gives the log's flags at its version.
pub advance :
    (log : List FlagEvent) (c : Client) {e : FlagEvent} {rest : List FlagEvent}
    → Above 0 log
    → after c.config_version log ≡ e ∷ rest
    → IsFaithful log c
    → IsFaithful log (record c { flags = write_event e c.flags; config_version = e.version })
advance log c {e} u h faithful k =
    get-write_event e c.flags k
    ∙ entry_at e (λ j. get j c.flags) (state_at c.config_version log no_flags) k (faithful k)
    ∙ ap (λ m. m k) (sym (state_at_next 0 c.config_version log no_flags u h))

-- A page from below the client's version: what is old is skipped, and the rest follows in order.
pub apply_page-IsFaithful :
    (log : List FlagEvent) (since : ℕ) (page rest : List FlagEvent) (c : Client)
    (changed advanced : Bool)
    → Above 0 log
    → after since log ≡ page ++ rest
    → since ≤ c.config_version
    → IsFaithful log c
    → IsFaithful log (apply_page page c changed advanced).0
      × (c.config_version ≤ (apply_page page c changed advanced).0.config_version)
apply_page-IsFaithful log since [] rest c changed advanced u h le faithful =
    unfold apply_page in (faithful, omega arith)
apply_page-IsFaithful log since (e ∷ page) rest c changed advanced u h le faithful =
    elim (le_or_lt e.version c.config_version) [
      | inl old ↦ rw (apply_page-old e page c changed advanced old) (
          apply_page-IsFaithful log e.version page rest c changed advanced u
            (after_next 0 since log u h) old faithful)
      | inr new ↦
          let (f, v) =
            apply_page-IsFaithful log e.version page rest (applied e c) true true u
              (after_next 0 since log u h) (omega arith)
              (advance log c u (after_gap 0 since c.config_version log u h le new) faithful) in
          rw (apply_page-new e page c changed advanced new) (f, omega arith)
    ]

-- Nor does a page take the client past the log.
pub apply_page-reached :
    (n : ℕ) (page : List FlagEvent) (c : Client) (changed advanced : Bool)
    → All (λ x. x.version ≤ n) page
    → c.config_version ≤ n
    → (apply_page page c changed advanced).0.config_version ≤ n
unfolding apply_page
apply_page-reached n [] c changed advanced h le = le
apply_page-reached n (e ∷ page) c changed advanced h le = ground (
  arith,
  apply_page-reached n page c changed advanced h.1 le,
  apply_page-reached n page (applied e c) true true h.1 h.0,
)
