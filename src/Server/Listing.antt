-- ===== src/Server/Listing.antt =====
-- `List` of backend/internal/repository/flag_repository.go and `GetAllFlags` of
-- backend/internal/handler/client_handler.go: the snapshot that a client starts from.
use feature_flag_system.Prelude.{
  Text, Bool, List, [], ◌∷◌, Option, none, some, ◌≡◌, refl, sym, ◌∙◌, arith, text_eq, text_eq_iff,
  if◌then◌else◌, All, map, get, set, get-set, Bool-cases, Option-cases, All-imp, ◌≢◌, inl, inr,
}
use feature_flag_system.Types.{Flag, FlagConfig}
use feature_flag_system.Sdk.Init.{Snapshot, snapshot, refused, set_all}
use feature_flag_system.Sdk.Log.{latest}
use feature_flag_system.Server.{Store, to_config, get_by_key}
use feature_flag_system.Server.Rows.{IsApart, IsDistinct, config_at, config_at-cons, config_at-none}

-- `ORDER BY created_at DESC`. `precedes` is the database's order, with its choice among rows of
-- the same time.
module _ (precedes : Flag → Flag → Bool) where
  unfoldable pub insert_listed : Flag → List Flag → List Flag
  insert_listed r [] = r ∷ []
  insert_listed r (x ∷ xs) =
      let rest = insert_listed r xs in if precedes r x then r ∷ x ∷ xs else x ∷ rest

  -- `List`
  unfoldable pub list_rows : List Flag → List Flag
  unfolding insert_listed
  list_rows [] = []
  list_rows (r ∷ rs) = insert_listed r (list_rows rs)

  -- The two queries of `GetAllFlags`: the flags as they are in the first store, and the version
  -- of the second, which the writes between the queries lead to. `none` is a query that fails,
  -- which is answered with a status that is no success.
  unfoldable pub get_all_flags : Option Store → Option Store → Snapshot
  unfolding list_rows
  get_all_flags none t = refused
  get_all_flags (some s) none = refused
  get_all_flags (some s) (some t) =
      snapshot (map to_config (list_rows s.flags)) (some (latest t.events))

  insert_listed-All {κ} :
      (P : Flag → Type κ) (r : Flag) (rs : List Flag) → P r → All P rs → All P (insert_listed r rs)
  unfolding insert_listed
  insert_listed-All P r [] p h = (p, tt)
  insert_listed-All P r (x ∷ xs) p h = elim (Bool-cases (precedes r x)) [
    | inl hit ↦ rw hit (p, h)
    | inr miss ↦ rw miss (h.0, insert_listed-All P r xs p h.1)
  ]

  list_rows-All {κ} : (P : Flag → Type κ) (rs : List Flag) → All P rs → All P (list_rows rs)
  unfolding list_rows
  list_rows-All P [] h = tt
  list_rows-All P (r ∷ rs) h = insert_listed-All P r (list_rows rs) h.0 (list_rows-All P rs h.1)

  insert_listed-IsDistinct :
      (r : Flag) (rs : List Flag)
      → All (IsApart r) rs
      → IsDistinct rs
      → IsDistinct (insert_listed r rs)
  unfolding insert_listed
  insert_listed-IsDistinct r [] a d = (tt, tt)
  insert_listed-IsDistinct r (x ∷ xs) a d = elim (Bool-cases (precedes r x)) [
    | inl hit ↦ rw hit (a, d)
    | inr miss ↦ rw miss (
      insert_listed-All (IsApart x) r xs ((λ e. a.0.0 (sym e)), (λ e. a.0.1 (sym e))) d.0,
      insert_listed-IsDistinct r xs a.1 d.1,
    )
  ]

  list_rows-IsDistinct : (rs : List Flag) → IsDistinct rs → IsDistinct (list_rows rs)
  unfolding list_rows
  list_rows-IsDistinct [] d = tt
  list_rows-IsDistinct (r ∷ rs) d =
      insert_listed-IsDistinct r (list_rows rs) (list_rows-All (IsApart r) rs d.0)
        (list_rows-IsDistinct rs d.1)

  config_at-insert_listed :
      (k : Text) (r : Flag) (rs : List Flag)
      → All (IsApart r) rs
      → config_at k (insert_listed r rs) ≡ config_at k (r ∷ rs)
  unfolding insert_listed
  config_at-insert_listed k r [] a = refl
  config_at-insert_listed k r (x ∷ xs) a = ground (
    arith,
    config_at-insert_listed k r xs a.1,
    config_at-cons k r (x ∷ xs),
    config_at-cons k r xs,
    config_at-cons k x xs,
    config_at-cons k x (insert_listed r xs),
    text_eq_iff r.key k,
    text_eq_iff x.key k,
  )

  config_at-list_rows :
      (k : Text) (rs : List Flag) → IsDistinct rs → config_at k (list_rows rs) ≡ config_at k rs
  unfolding list_rows
  config_at-list_rows k [] d = refl
  config_at-list_rows k (r ∷ rs) d =
      config_at-insert_listed k r (list_rows rs) (list_rows-All (IsApart r) rs d.0)
      ∙ config_at-cons k r (list_rows rs)
      ∙ rw (config_at-list_rows k rs d.1) (sym (config_at-cons k r rs))

-- The client's map, filled with the rows one after the other.
abbrev first_of : Option FlagConfig → Option FlagConfig → Option FlagConfig
first_of none d = d
first_of (some c) d = some c

get-set_all :
    (k : Text) (rs : List Flag) (m : List (Text × FlagConfig))
    → IsDistinct rs
    → get k (set_all (map to_config rs) m) ≡ first_of (config_at k rs) (get k m)
unfolding set_all to_config
get-set_all k [] m d = unfold get_by_key in refl
get-set_all k (r ∷ rs) m d =
    let later = get-set_all k rs (set r.key (to_config r) m) d.1 in
    let here = config_at-cons k r rs in
    let stored = get-set r.key k (to_config r) m in
    elim (Bool-cases (text_eq r.key k)) [
      | inl hit ↦
          let same : r.key ≡ k = (text_eq_iff r.key k).0 hit in
          let alone : config_at k rs ≡ none =
            config_at-none k rs
              (All-imp (IsApart r) (λ x. k ≢ x.key) (λ x a e. a.1 (same ∙ e)) rs d.0) in
          ground arith
      | inr miss ↦ ground arith
    ]

-- The snapshot of one moment is the table.
pub get-get_all_flags :
    (precedes : Flag → Flag → Bool) (k : Text) (rs : List Flag)
    → IsDistinct rs
    → get k (set_all (map to_config (list_rows precedes rs)) []) ≡ config_at k rs
get-get_all_flags precedes k rs d =
    let all = get-set_all k (list_rows precedes rs) [] (list_rows-IsDistinct precedes rs d) in
    let same = config_at-list_rows precedes k rs d in
    elim (Option-cases (config_at k rs)) [
      | inl absent ↦ unfold get in ground arith
      | inr (f, present) ↦ ground arith
    ]
