-- ===== src/Learn/Tests.antt =====
-- A term that is drawn as a link, and one that is not in the glossary.
use feature_flag_system.Prelude.{◌≡◌, refl, codes, Text, none, some, get, set, text_eq}
use feature_flag_system.Learn.Glossary.{render_term, glossary_by_id, from_entries}

abbrev rollout_tip : Text
rollout_tip =
    codes "Turn a feature on for a fixed share of users — the same people each time, no flicker."

known :
    render_term (codes "rollout") (some (codes "25%"))
    ≡ record { label = codes "25%"; link = some (codes "/glossary#rollout", rollout_tip) }
unfolding render_term glossary_by_id from_entries get set text_eq
known = refl

unknown : (render_term (codes "roll-out") none).link ≡ none
unfolding render_term glossary_by_id from_entries get set text_eq
unknown = refl
