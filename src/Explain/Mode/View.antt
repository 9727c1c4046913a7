-- ===== src/Explain/Mode/View.antt =====
-- What the switch of frontend/components/explain/ExplainToggle.tsx shows, and what follows it:
-- AdvancedDetails.tsx and GuideCallout.tsx. `C` is what the page puts inside.
use feature_flag_system.Prelude.{
  ◌≡◌, Text, codes, Bool, not, ◌++◌, Option, none, some, if◌then◌else◌, is_empty, is_none, arith,
}
use feature_flag_system.Explain.Mode.{SwitchStorage, Details, read_explain, mount_details}

-- ExplainToggle; `is_lit` is the colour of its icon, its word and its track.
pub record ToggleView : Type 0 where
  pub is_checked : Bool
  pub is_lit : Bool
  pub tip : Text

unfoldable pub explain_toggle : Bool → ToggleView
explain_toggle explain = record {
  is_checked = explain;
  is_lit = explain;
  tip =
      if explain
      then (codes "Explain is on — guide notes shown, dense detail tucked away. "
          ++ codes "Click for the pro view.")
      else codes "Explain is off — pro view. "
        ++ codes "Click to bring back the guided explanations.";
}

-- AdvancedDetails
pub record DetailsView (C : Type 0) : Type 0 where
  pub label : Text
  pub is_expanded : Bool
  pub content : Option C

-- GuideCallout
pub record Callout (C : Type 0) : Type 0 where
  pub title : Option Text
  pub content : C

-- `title && …`: an empty title is not drawn.
abbrev shown_title : Option Text → Option Text
shown_title none = none
shown_title (some t) = if is_empty t then none else some t

module _ {C : Type 0} where
  unfoldable pub render_section : Option Text → C → Details → DetailsView C
  render_section label children d = record {
    label = elim label [ none ↦ codes "Advanced details" | some l ↦ l ];
    is_expanded = d.is_open;
    content = if d.is_open then some children else none;
  }

  unfoldable pub guide_callout : Bool → Option Text → C → Option (Callout C)
  guide_callout explain title children =
      if explain then some (record { title = shown_title title; content = children }) else none

  -- The words of a page stand in one of the two: while a section has not been clicked, the note is
  -- there exactly when the section's content is not.
  pub content-is_none :
      (s : SwitchStorage) (label title : Option Text) (note children : C)
      → let explain = read_explain s in
        is_none (render_section label children (mount_details explain)).content
        ≡ not (is_none (guide_callout explain title note))
  unfolding render_section guide_callout mount_details
  content-is_none s label title note children = ground arith
