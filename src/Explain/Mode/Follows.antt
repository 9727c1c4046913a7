-- ===== src/Explain/Mode/Follows.antt =====
-- Sections follow the switch.
use feature_flag_system.Prelude.{◌≡◌, refl, ◌∷◌, [], Bool, true, not, List, text_eq, arith, ap, ◌∙◌}
use feature_flag_system.Explain.Mode.{
  SwitchStorage, Details, read_explain, write_explain, toggle_explain, mount_details,
  render_details, click_details, PageAct, toggles, clicks, page_act, page_acts,
}

-- Flips a Boolean for each toggle.
abbrev pub flipped : List PageAct → Bool → Bool
flipped [] b = b
flipped (toggles ∷ acts) b = flipped acts (not b)
flipped (clicks ∷ acts) b = flipped acts b

read-toggle :
    (s : SwitchStorage)
    → s.available ≡ true
    → (read_explain (toggle_explain s) ≡ not (read_explain s))
      × ((toggle_explain s).available ≡ true)
unfolding toggle_explain write_explain read_explain text_eq
read-toggle s h = ground arith

toggle_details :
    (s : SwitchStorage) (d : Details)
    → s.available ≡ true
    → d.prev_explain ≡ read_explain s
    → let e = render_details (read_explain (toggle_explain s)) d in
      (e.prev_explain ≡ read_explain (toggle_explain s)) × (e.is_open ≡ read_explain s)
unfolding render_details
toggle_details s d h k = ground (arith, read-toggle s h)

-- What a page is after any acts: the switch, the section's copy of it, and the storage.
abbrev Tracks : List PageAct → SwitchStorage → SwitchStorage × Details → Type 0
Tracks acts s p =
    (read_explain p.0 ≡ flipped acts (read_explain s))
    × (p.1.prev_explain ≡ read_explain p.0)
    × (p.0.available ≡ true)

page_acts-Tracks :
    (acts : List PageAct) (s : SwitchStorage) (d : Details)
    → s.available ≡ true
    → d.prev_explain ≡ read_explain s
    → Tracks acts s (page_acts acts (s, d))
unfolding page_acts page_act click_details
page_acts-Tracks [] s d h k = (refl, k, h)
page_acts-Tracks (toggles ∷ acts) s d h k =
    let t = toggle_explain s in
    let rest =
      page_acts-Tracks acts t (render_details (read_explain t) d) (read-toggle s h).1
        (toggle_details s d h k).0 in
    (rest.0 ∙ ap (flipped acts) (read-toggle s h).0, rest.1, rest.2)
page_acts-Tracks (clicks ∷ acts) s d h k = page_acts-Tracks acts s (click_details d) h k

-- Where storage can be used, after any clicks and toggles the switch reads as its first value
-- flipped once for each toggle, and one toggle more leaves the section open exactly when the
-- switch is then off, whatever was clicked before.
pub details_follow :
    (acts : List PageAct) (s : SwitchStorage)
    → s.available ≡ true
    → let p = page_acts acts (s, mount_details (read_explain s)) in
      let q = page_act toggles p in
      (read_explain p.0 ≡ flipped acts (read_explain s)) × (q.1.is_open ≡ read_explain p.0)
unfolding page_acts page_act mount_details render_details click_details
details_follow acts s h =
    let t = page_acts-Tracks acts s (mount_details (read_explain s)) h refl in
    (t.0, (toggle_details _ (page_acts acts (s, mount_details (read_explain s))).1 t.2 t.1).1)
