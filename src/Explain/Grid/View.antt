-- ===== src/Explain/Grid/View.antt =====
-- What frontend/components/explain/RolloutVisualizer.tsx draws. Texts that carry numbers are
-- constructors that keep them.
use feature_flag_system.Prelude.{
  ◌≡◌, refl, ◌∷◌, [], ℕ, suc, ◌+◌, ◌<◌, ◌≤◌, Text, Bool, true, false, not, List, Option, none, some,
  ℤ, text_eq, if◌then◌else◌, length, ◌==◌, find, is_empty, arith, le_or_lt, inl, inr,
}
use feature_flag_system.Explain.Grid.{
  Cell, CellState, on_rollout, on_targeted, off, Grid, explored, state_of, is_off, on_count,
  is_dirty, RollLine, selected_roll,
}

-- One square, with its label's parts: "user: bucket n, on (targeted), current user".
pub record Square : Type 0 where
  pub user : Text
  pub bucket : ℕ
  pub state : CellState
  pub is_on : Bool
  pub is_targeted : Bool
  pub is_pressed : Bool
  pub is_highlighted : Bool
  pub is_tab_stop : Bool

abbrev pub names_user : Option Text → Text → Bool
names_user none user = false
names_user (some u) user = text_eq user u

abbrev is_targeted_state : CellState → Bool
is_targeted_state on_targeted = true
is_targeted_state on_rollout = false
is_targeted_state off = false

unfoldable pub square : Option Text → Grid → ℕ → Cell → Square
square highlight_user g i cell =
    let state = state_of (explored g) cell in
    record {
      user = cell.user;
      bucket = cell.bucket;
      state = state;
      is_on = not (is_off state);
      is_targeted = is_targeted_state state;
      is_pressed = names_user g.selected cell.user;
      is_highlighted = names_user highlight_user cell.user;
      is_tab_stop = i == g.focus_idx;
    }

unfoldable pub squares_from : Option Text → Grid → ℕ → List Cell → List Square
unfolding square
squares_from highlight_user g i [] = []
squares_from highlight_user g i (c ∷ cells) =
    square highlight_user g i c ∷ squares_from highlight_user g (suc i) cells

-- The legend; its last line is there when a user is highlighted.
pub data Legend : Type 0 where
  in_rollout targeted_overrides legend_off : Legend
  current_user : Text → Legend

unfoldable pub legend : Option Text → List Legend
legend highlight_user = in_rollout ∷ targeted_overrides ∷ legend_off ∷ elim highlight_user [
  | none ↦ []
  | some user ↦ if is_empty user then [] else current_user user ∷ []
]

pub record GridView : Type 0 where
  pub pct : ℤ
  pub on_count : ℕ
  pub cell_count : ℕ
  pub squares : List Square
  pub legend : List Legend
  pub actual_pct : ℤ
  pub has_reset : Bool
  pub roll : Option RollLine

-- `cells.find((c) => c.user === selected)`
unfoldable pub selected_cell : List Cell → Grid → Option Cell
selected_cell cells g = find (λ c. names_user g.selected c.user) cells

unfoldable pub render_grid : Option Text → List Cell → Grid → GridView
unfolding squares_from legend selected_cell
render_grid highlight_user cells g = record {
  pct = g.pct;
  on_count = on_count (explored g) cells;
  cell_count = length cells;
  squares = squares_from highlight_user g 0 cells;
  legend = legend highlight_user;
  actual_pct = g.flag.rollout_percentage;
  has_reset = is_dirty g;
  roll = elim (selected_cell cells g) [
    | none ↦ none
    | some c ↦ some (selected_roll (explored g) c)
  ];
}

-- The number of squares that satisfy a test.
abbrev pub count : (Square → Bool) → List Square → ℕ
count test [] = 0
count test (s ∷ squares) = if test s then suc (count test squares) else count test squares

on_count-squares :
    (highlight_user : Option Text) (g : Grid) (i : ℕ) (cells : List Cell)
    → count (λ s. s.is_on) (squares_from highlight_user g i cells) ≡ on_count (explored g) cells
unfolding squares_from square on_count
on_count-squares highlight_user g i [] = refl
on_count-squares highlight_user g i (c ∷ cells) =
    ground (arith, on_count-squares highlight_user g (suc i) cells)

-- No square after the focused one is a tab stop.
no_tab_stop :
    (highlight_user : Option Text) (g : Grid) (i : ℕ) (cells : List Cell)
    → g.focus_idx < i
    → count (λ s. s.is_tab_stop) (squares_from highlight_user g i cells) ≡ 0
unfolding squares_from square
no_tab_stop highlight_user g i [] h = refl
no_tab_stop highlight_user g i (c ∷ cells) h =
    ground (arith, no_tab_stop highlight_user g (suc i) cells (omega (arith, h)))

tab_stop_from :
    (highlight_user : Option Text) (g : Grid) (i : ℕ) (cells : List Cell)
    → i ≤ g.focus_idx
    → g.focus_idx < i + length cells
    → count (λ s. s.is_tab_stop) (squares_from highlight_user g i cells) ≡ 1
unfolding squares_from square
tab_stop_from highlight_user g i [] h l = absurd (omega arith)
tab_stop_from highlight_user g i (c ∷ cells) h l = elim (le_or_lt g.focus_idx i) [
  | inl k ↦ ground (arith, no_tab_stop highlight_user g (suc i) cells (omega (arith, k)))
  | inr k ↦
      ground
        (arith, tab_stop_from highlight_user g (suc i) cells (omega (arith, k)) (omega (arith, l)))
]

-- The caption counts the squares that are drawn as on, and while the focus lies on a cell exactly
-- one square is in the tab order.
pub render_grid-counts :
    (highlight_user : Option Text) (cells : List Cell) (g : Grid)
    → g.focus_idx < length cells
    → (count (λ s. s.is_on) (render_grid highlight_user cells g).squares
        ≡ (render_grid highlight_user cells g).on_count)
      × (count (λ s. s.is_tab_stop) (render_grid highlight_user cells g).squares ≡ 1)
unfolding render_grid
render_grid-counts highlight_user cells g h = (
  on_count-squares highlight_user g 0 cells,
  tab_stop_from highlight_user g 0 cells (omega arith) (omega (arith, h)),
)
