-- ===== src/Layout.antt =====
-- frontend/components/layout: the side bar, the top bar and their titles.
pub mod Active
mod Tests
use feature_flag_system.Prelude.{
  ℕ, ◌∷◌, [], ◌++◌, Text, codes, Bool, true, false, not, ◌&&◌, ◌||◌, List, Option, none, some, ◌==◌,
  if◌then◌else◌, text_eq, keep, map,
}

-- `s.startsWith(prefix)`
unfoldable pub starts_with : Text → Text → Bool
starts_with [] s = true
starts_with (a ∷ prefix) [] = false
starts_with (a ∷ prefix) (b ∷ s) = a == b && starts_with prefix s

-- PAGE_TITLES, in the order of its keys.
abbrev pub page_titles : List (Text × Text)
page_titles =
    (codes "/flags", codes "Flags")
    ∷ (codes "/demo", codes "Demo")
    ∷ (codes "/cluster", codes "Cluster")
    ∷ (codes "/health", codes "Health")
    ∷ (codes "/resilience", codes "Resilience")
    ∷ (codes "/learn", codes "Learn")
    ∷ (codes "/playground", codes "Playground")
    ∷ (codes "/glossary", codes "Glossary")
    ∷ []

abbrev first_title : Text → List (Text × Text) → Text
first_title pathname [] = codes "FlagPlane"
first_title pathname ((p, title) ∷ rest) =
    let later = first_title pathname rest in if starts_with p pathname then title else later

unfoldable pub page_title : Text → Text
unfolding starts_with
page_title pathname =
    if text_eq pathname (codes "/")
    then codes "Overview"
    else if starts_with (codes "/flags/new") pathname
    then codes "New flag"
    else if starts_with (codes "/flags/") pathname
    then codes "Flag detail"
    else first_title pathname page_titles

pub record NavItem : Type 0 where
  pub href : Text
  pub label : Text
  pub is_soon : Bool

abbrev item : Text → Text → NavItem
item href label = record { href = href; label = label; is_soon = false }

-- `navItems` and `learnItems`
abbrev pub nav_items : List NavItem
nav_items =
    item (codes "/") (codes "Overview")
    ∷ item (codes "/flags") (codes "Flags")
    ∷ item (codes "/demo") (codes "Demo")
    ∷ item (codes "/cluster") (codes "Cluster")
    ∷ item (codes "/health") (codes "Health")
    ∷ item (codes "/resilience") (codes "Resilience")
    ∷ []

abbrev pub learn_items : List NavItem
learn_items =
    item (codes "/learn") (codes "Learn")
    ∷ item (codes "/playground") (codes "Playground")
    ∷ item (codes "/glossary") (codes "Glossary")
    ∷ []

unfoldable pub is_active : Text → NavItem → Bool
unfolding starts_with
is_active pathname i =
    text_eq pathname i.href
    || not (text_eq i.href (codes "/")) && starts_with (i.href ++ codes "/") pathname

-- What an item is drawn as: a label that leads nowhere, or a link that may be the current page.
pub data NavLink : Type 0 where
  soon : (label : Text) → NavLink
  link : (href label : Text) → (is_current : Bool) → NavLink

unfoldable pub render_item : Text → NavItem → NavLink
unfolding is_active
render_item pathname i =
    if i.is_soon then soon i.label else link i.href i.label (is_active pathname i)

-- The menu that takes the side bar's place on a narrow screen.
abbrev pub mobile_items : List (Text × Text)
mobile_items =
    (codes "/flags", codes "Flags")
    ∷ (codes "/demo", codes "Demo")
    ∷ (codes "/cluster", codes "Cluster")
    ∷ (codes "/health", codes "Health")
    ∷ (codes "/resilience", codes "Resilience")
    ∷ (codes "/learn", codes "Learn")
    ∷ (codes "/playground", codes "Playground")
    ∷ (codes "/glossary", codes "Glossary")
    ∷ []

pub record TopBar : Type 0 where
  pub title : Text
  pub config_version : Option ℕ
  pub is_live : Bool

-- The top bar, from the path, the flags query's version, and whether the query succeeded or failed.
unfoldable pub top_bar : Text → Option ℕ → (is_success is_error : Bool) → TopBar
unfolding page_title
top_bar pathname version is_success is_error = record {
  title = page_title pathname;
  config_version = version;
  is_live = is_success && not is_error;
}
