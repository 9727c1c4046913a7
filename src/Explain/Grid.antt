-- ===== src/Explain/Grid.antt =====
-- frontend/components/explain/RolloutVisualizer.tsx: a grid of sample users in the order of their
-- buckets, coloured by the verdict at an explored percentage.

pub mod View
pub mod Meter
use feature_flag_system.Prelude.{
  ◌≡◌, refl, ◌++◌, ◌∷◌, [], ℕ, zero, suc, ◌+◌, ◌-◌, ◌*◌, ◌/◌, ◌%◌, min, max, Text, Bool, true,
  false, not, ◌&&◌, ◌||◌, List, Option, none, some, ℤ, pos, codes, text_eq, if◌then◌else◌, map, ltb,
  ◌==◌, length, find, arith, is_none, decimal,
}
use feature_flag_system.Sdk.Hash.{rollout_bucket}
use feature_flag_system.Evaluate.{EvalTrace, EvaluableFlag, evaluate}
use feature_flag_system.Explain.Why.{is_targeted}

pub data CellState : Type 0 where
  on_rollout on_targeted off : CellState

pub record Cell : Type 0 where
  pub user : Text
  pub bucket : ℕ

sample_from : ℕ → ℕ → List Text
sample_from zero i = []
sample_from (suc n) i = (codes "user-" ++ decimal (i + 1)) ∷ sample_from n (i + 1)

-- GRID * GRID users.
unfoldable pub sample : List Text
unfolding sample_from
sample = sample_from (10 * 10) 0

-- `s < t` on texts, by code units.
unfoldable pub text_lt : Text → Text → Bool
text_lt [] [] = false
text_lt [] (b ∷ t) = true
text_lt (a ∷ s) [] = false
text_lt (a ∷ s) (b ∷ t) = ltb a b || a == b && text_lt s t

-- The comparison that `sort` is given, as "a comes before b".
abbrev pub before : Cell → Cell → Bool
before a b = ltb a.bucket b.bucket || a.bucket == b.bucket && text_lt a.user b.user

-- `sort` with that comparison, as an insertion sort.
unfoldable pub insert_cell : Cell → List Cell → List Cell
insert_cell c [] = c ∷ []
insert_cell c (d ∷ cells) =
    let rest = insert_cell c cells in if before d c then d ∷ rest else c ∷ d ∷ cells

unfoldable pub sort_cells : List Cell → List Cell
unfolding insert_cell
sort_cells [] = []
sort_cells (c ∷ cells) = insert_cell c (sort_cells cells)

unfoldable pub cells_of : Text → List Text → List Cell
unfolding sort_cells
cells_of key users =
    sort_cells (map (λ user. record { user = user; bucket = rollout_bucket key user }) users)

pub record Grid : Type 0 where
  pub flag : EvaluableFlag
  pub pct : ℤ
  pub prev_flag_pct : ℤ
  pub selected : Option Text
  pub focus_idx : ℕ

unfoldable pub open_grid : EvaluableFlag → Grid
open_grid flag = record {
  flag = flag;
  pct = flag.rollout_percentage;
  prev_flag_pct = flag.rollout_percentage;
  selected = none;
  focus_idx = 0;
}

abbrev pub same_ℤ : ℤ → ℤ → Bool
same_ℤ (pos a) (pos b) = a == b
same_ℤ (ℤ.negsuc a) (ℤ.negsuc b) = a == b
same_ℤ _ _ = false

-- A render with a new flag: the explored percentage follows when the flag's own changed.
unfoldable pub set_flag : EvaluableFlag → Grid → Grid
set_flag flag g =
    if same_ℤ flag.rollout_percentage g.prev_flag_pct then record g { flag = flag } else record g {
      flag = flag;
      pct = flag.rollout_percentage;
      prev_flag_pct = flag.rollout_percentage;
    }

unfoldable pub explore : ℤ → Grid → Grid
explore pct g = record g { pct = pct }

-- "Reset to actual"
unfoldable pub reset_explored : Grid → Grid
reset_explored g = record g { pct = g.flag.rollout_percentage }

unfoldable pub is_dirty : Grid → Bool
is_dirty g = not (same_ℤ g.pct g.flag.rollout_percentage)

unfoldable pub explored : Grid → EvaluableFlag
explored g = record g.flag { rollout_percentage = g.pct }

unfoldable pub state_of : EvaluableFlag → Cell → CellState
state_of flag cell =
    let t = evaluate (some flag) cell.user in
    if not t.on then off else if is_targeted t.reason then on_targeted else on_rollout

abbrev pub is_off : CellState → Bool
is_off off = true
is_off _ = false

unfoldable pub on_count : EvaluableFlag → List Cell → ℕ
unfolding state_of
on_count flag [] = 0
on_count flag (c ∷ cells) =
    let rest = on_count flag cells in if is_off (state_of flag c) then rest else suc rest

pub data GridKey : Type 0 where
  arrow_right arrow_left arrow_down arrow_up home end other : GridKey

-- The cell that a key moves to; `none` leaves the key to the browser.
unfoldable pub next_focus : GridKey → ℕ → ℕ → Option ℕ
next_focus arrow_right focus count = some (min (focus + 1) (count - 1))
next_focus arrow_left focus count = some (max (focus - 1) 0)
next_focus arrow_down focus count = some (min (focus + 10) (count - 1))
next_focus arrow_up focus count = some (max (focus - 10) 0)
next_focus home focus count = some 0
next_focus end focus count = some (count - 1)
next_focus other focus count = none

unfoldable pub on_grid_key_down : GridKey → ℕ → Grid → Grid
on_grid_key_down key count g = elim (next_focus key g.focus_idx count) [
  | none ↦ g
  | some next ↦ record g { focus_idx = next }
]

-- A cell that receives the focus by other means.
unfoldable pub focus_cell : ℕ → Grid → Grid
focus_cell i g = record g { focus_idx = i }

-- A click on a cell selects it, or unselects the selected one.
unfoldable pub click_cell : Cell → Grid → Grid
click_cell cell g = record g {
  selected = elim g.selected [
    | none ↦ some cell.user
    | some user ↦ if text_eq cell.user user then none else some cell.user
  ];
}

-- The line under the grid: the bucket, then either "is targeted → ON", or the question
-- "bucket < percentage?" with its answer.
pub data RollLine : Type 0 where
  overridden : ℕ → RollLine
  compared : (bucket : ℕ) (percentage : ℤ) (yes : Bool) → RollLine

unfoldable pub selected_roll : EvaluableFlag → Cell → RollLine
selected_roll flag cell =
    let t = evaluate (some flag) cell.user in
    if is_targeted t.reason
    then overridden cell.bucket
    else compared cell.bucket flag.rollout_percentage t.on
