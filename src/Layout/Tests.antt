-- ===== src/Layout/Tests.antt =====
-- Paths of the dashboard, their titles and the entries that they make current.
use feature_flag_system.Prelude.{◌++◌, codes, length, keep, text_eq, ◌≡◌, refl}
use feature_flag_system.Layout.{is_active, nav_items, learn_items, page_title, starts_with}

-- The detail page of a flag makes one entry current.
current : length (keep (is_active (codes "/flags/7")) (nav_items ++ learn_items)) ≡ 1
unfolding is_active starts_with text_eq
current = refl

titles :
    (page_title (codes "/") ≡ codes "Overview")
    × (page_title (codes "/flags/new") ≡ codes "New flag")
    × (page_title (codes "/flags/7") ≡ codes "Flag detail")
    × (page_title (codes "/flags") ≡ codes "Flags")
    × (page_title (codes "/nowhere") ≡ codes "FlagPlane")
unfolding page_title starts_with text_eq
titles = (refl, refl, refl, refl, refl)
