-- ===== src/Explain/Mode.antt =====
-- frontend/components/explain/ExplainProvider.tsx and AdvancedDetails.tsx: the switch between
-- teaching and dense pages, kept in the browser's storage, and the sections that follow it.
pub mod Follows
pub mod View
use feature_flag_system.Prelude.{
  ◌≡◌, refl, ◌∷◌, [], Text, Bool, true, false, not, ◌&&◌, ◌||◌, List, Option, none, some,
  if◌then◌else◌, text_eq, codes,
}

-- The storage can be used or not; a text may be stored under the switch's key.
pub record SwitchStorage : Type 0 where
  pub available : Bool
  pub stored : Option Text

unfoldable pub read_explain : SwitchStorage → Bool
read_explain s =
    if not s.available
    then true
    else elim s.stored [ none ↦ true | some t ↦ not (text_eq t (codes "0")) ]

unfoldable pub write_explain : Bool → SwitchStorage → SwitchStorage
write_explain value s =
    if s.available then record s { stored = some (if value then codes "1" else codes "0") } else s

unfoldable pub toggle_explain : SwitchStorage → SwitchStorage
unfolding read_explain write_explain
toggle_explain s = write_explain (not (read_explain s)) s

-- A section: whether it is open, and the switch as of its last render.
pub record Details : Type 0 where
  pub is_open : Bool
  pub prev_explain : Bool

unfoldable pub mount_details : Bool → Details
mount_details explain = record { is_open = not explain; prev_explain = explain }

abbrev same : Bool → Bool → Bool
same true b = b
same false b = not b

unfoldable pub render_details : Bool → Details → Details
render_details explain d =
    if same explain d.prev_explain
    then d
    else record { is_open = not explain; prev_explain = explain }

unfoldable pub click_details : Details → Details
click_details d = record d { is_open = not d.is_open }

-- A page with one section: the switch is toggled, from this page or another tab, or the section
-- is clicked. Every listener of the switch renders again.
pub data PageAct : Type 0 where
  toggles clicks : PageAct

unfoldable pub page_act : PageAct → SwitchStorage × Details → SwitchStorage × Details
unfolding toggle_explain render_details click_details
page_act toggles (s, d) = let s' = toggle_explain s in (s', render_details (read_explain s') d)
page_act clicks (s, d) = (s, click_details d)

unfoldable pub page_acts : List PageAct → SwitchStorage × Details → SwitchStorage × Details
page_acts [] p = p
page_acts (a ∷ acts) p = page_acts acts (page_act a p)
