-- ===== src/Explain/Grid/Meter.antt =====
-- The grid of frontend/components/explain/RolloutVisualizer.tsx fills like a meter.
use feature_flag_system.Prelude.{
  ◌≡◌, refl, ap, ◌∷◌, [], ℕ, zero, suc, ◌≤◌, ◌<◌, Text, true, false, List, some, ℤ, pos, ◌≤ℤ◌,
  ltb_ℤ, All, get_elem?, map, arith, subst,
}
use feature_flag_system.Sdk.Hash.{rollout_bucket, rollout_bucket-lt}
use feature_flag_system.Evaluate.{EvaluableFlag, evaluate}
use feature_flag_system.Evaluate.Rule.{evaluate_ramp, is_on, evaluate-is_on}
use feature_flag_system.Explain.Grid.{
  Cell, on_rollout, insert_cell, sort_cells, cells_of, state_of, is_off, on_count, GridKey,
  arrow_right, arrow_left, arrow_down, arrow_up, home, end, other, next_focus, Grid,
  on_grid_key_down, selected_roll, compared,
}

abbrev pub Ascending : List Cell → Type 0
Ascending [] = Unit
Ascending (c ∷ cells) = All (λ d. c.bucket ≤ d.bucket) cells × Ascending cells

All-insert {ℓ} :
    (P : Cell → Type ℓ) (c : Cell) (cells : List Cell)
    → P c
    → All P cells
    → All P (insert_cell c cells)
unfolding insert_cell
All-insert P c [] h k = (h, tt)
All-insert P c (d ∷ cells) h k = ground (arith, All-insert P c cells h k.1)

All-le :
    (a b : ℕ) (cells : List Cell)
    → a ≤ b
    → All (λ d. b ≤ d.bucket) cells
    → All (λ d. a ≤ d.bucket) cells
All-le a b [] h k = tt
All-le a b (d ∷ cells) h k = (omega (arith, k.0), All-le a b cells h k.1)

insert_cell-Ascending :
    (c : Cell) (cells : List Cell) → Ascending cells → Ascending (insert_cell c cells)
unfolding insert_cell
insert_cell-Ascending c [] h = (tt, tt)
insert_cell-Ascending c (d ∷ cells) h = ground (
  arith,
  insert_cell-Ascending c cells h.1,
  All-insert (λ e. d.bucket ≤ e.bucket) c cells,
  All-le c.bucket d.bucket cells,
)

sort_cells-Ascending : (cells : List Cell) → Ascending (sort_cells cells)
unfolding sort_cells
sort_cells-Ascending [] = tt
sort_cells-Ascending (c ∷ cells) =
    insert_cell-Ascending c (sort_cells cells) (sort_cells-Ascending cells)

-- Every cell shows its user's bucket.
abbrev pub IsCell : Text → Cell → Type 0
IsCell key c = c.bucket ≡ rollout_bucket key c.user

All-sort {ℓ} : (P : Cell → Type ℓ) (cells : List Cell) → All P cells → All P (sort_cells cells)
unfolding sort_cells
All-sort P [] h = tt
All-sort P (c ∷ cells) h = All-insert P c (sort_cells cells) h.0 (All-sort P cells h.1)

cells_of-IsCell : (key : Text) (users : List Text) → All (IsCell key) (cells_of key users)
unfolding cells_of
cells_of-IsCell key users = All-sort (IsCell key) _ (made users)
  where
    made :
        (us : List Text)
        → All
            (IsCell key)
            (map (λ user. record { user = user; bucket = rollout_bucket key user }) us)
    made [] = tt
    made (u ∷ us) = (refl, made us)

some_inj : {a b : Cell} → some a ≡ some b → a ≡ b
some_inj e = cc

All-get_elem? {ℓ} :
    (P : Cell → Type ℓ) (cells : List Cell) (i : ℕ) (c : Cell)
    → All P cells
    → get_elem? cells i ≡ some c
    → P c
All-get_elem? P [] i c h e = absurd (cc)
All-get_elem? P (d ∷ cells) zero c h e = subst P (some_inj e) h.0
All-get_elem? P (d ∷ cells) (suc i) c h e = All-get_elem? P cells i c h.1 e

Ascending-get_elem? :
    (cells : List Cell) (i j : ℕ) (a b : Cell)
    → Ascending cells
    → i ≤ j
    → get_elem? cells i ≡ some a
    → get_elem? cells j ≡ some b
    → a.bucket ≤ b.bucket
Ascending-get_elem? [] i j a b h l e k = absurd (cc)
Ascending-get_elem? (c ∷ cells) zero zero a b h l e k =
    omega (arith, ap (λ c. c.bucket) (some_inj e), ap (λ c. c.bucket) (some_inj k))
Ascending-get_elem? (c ∷ cells) zero (suc j) a b h l e k =
    subst (λ c. c.bucket ≤ b.bucket) (some_inj e)
      (All-get_elem? (λ d. c.bucket ≤ d.bucket) cells j b h.0 k)
Ascending-get_elem? (c ∷ cells) (suc i) zero a b h l e k = absurd (omega arith)
Ascending-get_elem? (c ∷ cells) (suc i) (suc j) a b h l e k =
    Ascending-get_elem? cells i j a b h.1 (omega arith) e k

on_rollout-lt :
    (flag : EvaluableFlag) (c : Cell)
    → state_of flag c ≡ on_rollout
    → (flag.enabled ≡ true)
      × (ltb_ℤ (pos (rollout_bucket flag.key c.user)) flag.rollout_percentage ≡ true)
unfolding state_of evaluate
on_rollout-lt flag c h = ground (arith, rollout_bucket-lt flag.key c.user)

lt-on :
    (flag : EvaluableFlag) (c : Cell)
    → flag.enabled ≡ true
    → ltb_ℤ (pos (rollout_bucket flag.key c.user)) flag.rollout_percentage ≡ true
    → is_off (state_of flag c) ≡ false
unfolding state_of is_on
lt-on flag c e h = ground (arith, evaluate-is_on flag c.user)

ltb_mono : (m n : ℕ) (p : ℤ) → m ≤ n → ltb_ℤ (pos n) p ≡ true → ltb_ℤ (pos m) p ≡ true
ltb_mono m n p l h = ground arith

cells_of-Ascending : (key : Text) (users : List Text) → Ascending (cells_of key users)
unfolding cells_of
cells_of-Ascending key users =
    sort_cells-Ascending
      (map (λ user. record { user = user; bucket = rollout_bucket key user }) users)

-- The grid fills like a meter: when a cell is on by the percentage, so is every cell before it.
pub cells_fill :
    (flag : EvaluableFlag) (users : List Text) (i j : ℕ) (a b : Cell)
    → i ≤ j
    → get_elem? (cells_of flag.key users) i ≡ some a
    → get_elem? (cells_of flag.key users) j ≡ some b
    → state_of flag b ≡ on_rollout
    → is_off (state_of flag a) ≡ false
cells_fill flag users i j a b l e k s =
    let cells = cells_of flag.key users in
    let hb = on_rollout-lt flag b s in
    let ia = All-get_elem? (IsCell flag.key) cells i a (cells_of-IsCell flag.key users) e in
    let ib = All-get_elem? (IsCell flag.key) cells j b (cells_of-IsCell flag.key users) k in
    let le = Ascending-get_elem? cells i j a b (cells_of-Ascending flag.key users) l e k in
    lt-on flag a hb.0 (ltb_mono _ _ flag.rollout_percentage (omega (arith, le, ia, ib)) hb.1)

-- Raising the explored percentage never lowers the number of users that are on.
pub on_count_ramp :
    (flag : EvaluableFlag) (p q : ℤ) (cells : List Cell)
    → p ≤ℤ q
    → on_count (record flag { rollout_percentage = p }) cells
      ≤ on_count (record flag { rollout_percentage = q }) cells
unfolding on_count state_of
on_count_ramp flag p q [] h = omega arith
on_count_ramp flag p q (c ∷ cells) h =
    ground (arith, evaluate_ramp flag p q c.user h, on_count_ramp flag p q cells h)

-- The keyboard never leaves the grid: whatever key is pressed, the focus stays on a cell.
pub on_grid_key_down-lt :
    (key : GridKey) (count : ℕ) (g : Grid)
    → g.focus_idx < count
    → (on_grid_key_down key count g).focus_idx < count
unfolding on_grid_key_down next_focus
on_grid_key_down-lt arrow_right count g h = omega arith
on_grid_key_down-lt arrow_left count g h = omega arith
on_grid_key_down-lt arrow_down count g h = omega arith
on_grid_key_down-lt arrow_up count g h = omega arith
on_grid_key_down-lt home count g h = omega arith
on_grid_key_down-lt end count g h = omega arith
on_grid_key_down-lt other count g h = h

-- For a disabled flag, whoever the user, the line under the grid answers "no" to the question
-- whether the bucket is below the percentage, also where it is.
pub selected_roll-disabled :
    (flag : EvaluableFlag) (cell : Cell)
    → flag.enabled ≡ false
    → selected_roll flag cell ≡ compared cell.bucket flag.rollout_percentage false
unfolding selected_roll evaluate
selected_roll-disabled flag cell h = ground arith
