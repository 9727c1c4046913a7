-- ===== src/Server/Rows.antt =====
-- The rows of a table whose ids and keys are unique, as a map from keys to configurations.
use mathlib.Core.Option
use feature_flag_system.Prelude.{
  Text, List, [], ◌∷◌, ◌++◌, Option, none, some, ◌≡◌, ◌≢◌, refl, arith, text_eq, text_eq_iff,
  if◌then◌else◌, All, All-append, All-imp, subst, Bool-cases, inl, inr,
}
use feature_flag_system.Types.{Flag, FlagConfig}
use feature_flag_system.Server.{to_config, get_by_id, get_by_key, put_row, delete_row}

abbrev pub IsApart : Flag → Flag → Type 0
IsApart r x = (r.id ≢ x.id) × (r.key ≢ x.key)

-- `PRIMARY KEY` and `UNIQUE`
abbrev pub IsDistinct : List Flag → Type 0
IsDistinct [] = Unit
IsDistinct (r ∷ rs) = All (IsApart r) rs × IsDistinct rs

-- The configuration that the table has under a key.
abbrev pub config_at : Text → List Flag → Option FlagConfig
config_at k rs = Option.map to_config (get_by_key k rs)

pub config_at-cons :
    (k : Text) (r : Flag) (rs : List Flag)
    → config_at k (r ∷ rs) ≡ (if text_eq r.key k then some (to_config r) else config_at k rs)
unfolding get_by_key
config_at-cons k r rs = ground arith

-- A row with a key that is not there is found, and hides none.
pub config_at-append :
    (k : Text) (r : Flag) (rs : List Flag)
    → get_by_key r.key rs ≡ none
    → config_at k (rs ++ r ∷ []) ≡ (if text_eq r.key k then some (to_config r) else config_at k rs)
unfolding get_by_key
config_at-append k r [] h = ground arith
config_at-append k r (x ∷ xs) h = ground (
  arith,
  text_eq_iff x.key r.key,
  text_eq_iff x.key k,
  text_eq_iff r.key k,
  config_at-append k r xs,
)

-- Nothing stands under a key that no row has.
pub config_at-none : (k : Text) (rs : List Flag) → All (λ x. k ≢ x.key) rs → config_at k rs ≡ none
unfolding get_by_key
config_at-none k [] h = refl
config_at-none k (x ∷ xs) h = ground (arith, text_eq_iff x.key k, config_at-none k xs h.1)

-- What holds of every row holds of the one that is found.
pub get_by_id-All {κ} :
    (P : Flag → Type κ) (id : Text) (rs : List Flag) (r : Flag)
    → All P rs
    → get_by_id id rs ≡ some r
    → P r
unfolding get_by_id
get_by_id-All P id [] r h found = absurd (cc found)
get_by_id-All P id (x ∷ xs) r h found = elim (Bool-cases (text_eq x.id id)) [
  | inl hit ↦ let same : x ≡ r = ground arith in subst P same h.0
  | inr miss ↦ get_by_id-All P id xs r h.1 (ground arith)
]

pub get_by_id-id : (id : Text) (rs : List Flag) (r : Flag) → get_by_id id rs ≡ some r → r.id ≡ id
unfolding get_by_id
get_by_id-id id [] r found = absurd (cc found)
get_by_id-id id (x ∷ xs) r found = ground (arith, text_eq_iff x.id id, get_by_id-id id xs r)

pub get_by_key-none : (k : Text) (rs : List Flag) → get_by_key k rs ≡ none → All (λ x. x.key ≢ k) rs
unfolding get_by_key
get_by_key-none k [] h = tt
get_by_key-none k (x ∷ xs) h =
    (ground (arith, text_eq_iff x.key k), get_by_key-none k xs (ground arith))

pub get_by_id-none : (id : Text) (rs : List Flag) → get_by_id id rs ≡ none → All (λ x. x.id ≢ id) rs
unfolding get_by_id
get_by_id-none id [] h = tt
get_by_id-none id (x ∷ xs) h =
    (ground (arith, text_eq_iff x.id id), get_by_id-none id xs (ground arith))

-- A new row, with an id and a key that no row has.
pub append-IsDistinct :
    (rs : List Flag) (r : Flag)
    → IsDistinct rs
    → All (λ x. x.id ≢ r.id) rs
    → All (λ x. x.key ≢ r.key) rs
    → IsDistinct (rs ++ r ∷ [])
append-IsDistinct [] r d i k = (tt, tt)
append-IsDistinct (x ∷ xs) r d i k =
    (All-append (IsApart x) xs (r ∷ []) d.0 ((i.0, k.0), tt), append-IsDistinct xs r d.1 i.1 k.1)

-- A row that takes the place of the one with its id.
module _ (f r : Flag) (same_id : r.id ≡ f.id) (same_key : r.key ≡ f.key) where
  pub put_row-All {κ} : (P : Flag → Type κ) (rs : List Flag) → All P rs → P r → All P (put_row r rs)
  unfolding put_row
  put_row-All P [] h p = tt
  put_row-All P (x ∷ xs) h p = elim (Bool-cases (text_eq x.id r.id)) [
    | inl hit ↦ rw hit (p, h.1)
    | inr miss ↦ rw miss (h.0, put_row-All P xs h.1 p)
  ]

  pub put_row-IsDistinct :
      (rs : List Flag) → IsDistinct rs → get_by_id f.id rs ≡ some f → IsDistinct (put_row r rs)
  unfolding put_row get_by_id
  put_row-IsDistinct [] d found = tt
  put_row-IsDistinct (x ∷ xs) d found = elim (Bool-cases (text_eq x.id r.id)) [
    | inl hit ↦
        let here : x ≡ f = ground (arith, text_eq_iff x.id f.id) in
        rw hit (All-imp (IsApart x) (IsApart r) (λ y a. (λ e. a.0 (cc), λ e. a.1 (cc))) xs d.0, d.1)
    | inr miss ↦
        let later : get_by_id f.id xs ≡ some f = ground arith in
        let apart = get_by_id-All (IsApart x) f.id xs f d.0 later in
        rw miss (
          put_row-All (IsApart x) xs d.0 ((λ e. apart.0 (cc)), (λ e. apart.1 (cc))),
          put_row-IsDistinct xs d.1 later,
        )
  ]

  pub config_at-put_row :
      (k : Text) (rs : List Flag)
      → IsDistinct rs
      → get_by_id f.id rs ≡ some f
      → config_at k (put_row r rs)
        ≡ (if text_eq r.key k then some (to_config r) else config_at k rs)
  unfolding put_row get_by_id get_by_key
  config_at-put_row k [] d found = absurd (cc found)
  config_at-put_row k (x ∷ xs) d found = elim (Bool-cases (text_eq x.id r.id)) [
    | inl hit ↦ let here : x ≡ f = ground (arith, text_eq_iff x.id f.id) in ground arith
    | inr miss ↦
        let later : get_by_id f.id xs ≡ some f = ground arith in
        let apart = get_by_id-All (IsApart x) f.id xs f d.0 later in
        ground (arith, text_eq_iff x.key k, text_eq_iff r.key k, config_at-put_row k xs d.1 later)
  ]

-- A row that is deleted.
module _ (id : Text) where
  pub delete_row-All {κ} :
      (P : Flag → Type κ) (rs : List Flag) → All P rs → All P (delete_row id rs)
  unfolding delete_row
  delete_row-All P [] h = tt
  delete_row-All P (x ∷ xs) h = elim (Bool-cases (text_eq x.id id)) [
    | inl hit ↦ rw hit h.1
    | inr miss ↦ rw miss (h.0, delete_row-All P xs h.1)
  ]

  pub delete_row-IsDistinct : (rs : List Flag) → IsDistinct rs → IsDistinct (delete_row id rs)
  unfolding delete_row
  delete_row-IsDistinct [] d = tt
  delete_row-IsDistinct (x ∷ xs) d = elim (Bool-cases (text_eq x.id id)) [
    | inl hit ↦ rw hit d.1
    | inr miss ↦ rw miss (delete_row-All (IsApart x) xs d.0, delete_row-IsDistinct xs d.1)
  ]

  pub config_at-delete_row :
      (k : Text) (f : Flag) (rs : List Flag)
      → IsDistinct rs
      → get_by_id id rs ≡ some f
      → config_at k (delete_row id rs) ≡ (if text_eq f.key k then none else config_at k rs)
  unfolding delete_row get_by_id get_by_key
  config_at-delete_row k f [] d found = absurd (cc found)
  config_at-delete_row k f (x ∷ xs) d found = elim (Bool-cases (text_eq x.id id)) [
    | inl hit ↦
        let here : x ≡ f = ground arith in
        let gone : config_at x.key xs ≡ none =
          config_at-none x.key xs (All-imp (IsApart x) (λ y. x.key ≢ y.key) (λ y a. a.1) xs d.0) in
        ground (arith, text_eq_iff x.key k)
    | inr miss ↦
        let later : get_by_id id xs ≡ some f = ground arith in
        let apart = get_by_id-All (IsApart x) id xs f d.0 later in
        ground
          (arith, text_eq_iff x.key k, text_eq_iff f.key k, config_at-delete_row k f xs d.1 later)
  ]
