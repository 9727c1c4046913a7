-- ===== src/Learn/Glossary.antt =====
-- The lookup of frontend/lib/glossary.ts, and what frontend/app/glossary/page.tsx and
-- frontend/components/explain/Term.tsx draw of it. The names that every JavaScript object inherits,
-- such as `constructor`, are not counted among the keys of GLOSSARY_BY_ID.
use feature_flag_system.Prelude.{
  ◌∷◌, [], ◌++◌, Text, codes, List, Option, none, some, Dict, get, set, map,
}
use feature_flag_system.Learn.Entries.{GlossaryEntry, glossary}

-- `Object.fromEntries(entries.map((e) => [e.id, e]))`: a later entry takes the place of an earlier
-- one with its id.
unfoldable pub from_entries : Dict GlossaryEntry → List GlossaryEntry → Dict GlossaryEntry
from_entries d [] = d
from_entries d (e ∷ entries) = from_entries (set e.id e d) entries

unfoldable pub glossary_by_id : Dict GlossaryEntry
unfolding from_entries
glossary_by_id = from_entries [] glossary

-- One entry of the page; `anchor` is the `id` of its element.
pub record GlossaryItem : Type 0 where
  pub anchor : Text
  pub term : Text
  pub definition : Text
  pub analogy : Text

abbrev pub item_of : GlossaryEntry → GlossaryItem
item_of e = record { anchor = e.id; term = e.term; definition = e.definition; analogy = e.analogy }

unfoldable pub glossary_page : List GlossaryItem
glossary_page = map item_of glossary

-- Term: a text, and for a known name a link with a tooltip.
pub record TermView : Type 0 where
  pub label : Text
  pub link : Option (Text × Text)

abbrev term_label : Option Text → Option GlossaryEntry → Text → Text
term_label (some children) entry name = children
term_label none (some e) name = e.term
term_label none none name = name

abbrev pub glossary_href : Text → Text
glossary_href id = codes "/glossary#" ++ id

abbrev pub link_of : Option GlossaryEntry → Option (Text × Text)
link_of none = none
link_of (some e) = some (glossary_href e.id, e.short)

unfoldable pub render_term : Text → Option Text → TermView
unfolding glossary_by_id
render_term name children =
    let entry = get name glossary_by_id in
    record { label = term_label children entry name; link = link_of entry }
