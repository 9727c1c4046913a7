-- ===== src/Learn/Links.antt =====
-- The links of frontend/components/explain/Term.tsx and frontend/app/learn/page.tsx lead somewhere.
use feature_flag_system.Prelude.{
  ◌≡◌, refl, ◌∷◌, [], ◌++◌, Text, Bool, true, false, List, Option, none, some, text_eq, map, ◌||◌,
  ◌&&◌, ◌⊎◌, inl, inr, All, text_eq_iff, subst, Dict, get, set, get-set, arith, ap,
}
use feature_flag_system.Layout.{NavItem, nav_items, learn_items}
use feature_flag_system.Learn.Entries.{GlossaryEntry, glossary}
use feature_flag_system.Learn.Glossary.{
  from_entries, glossary_by_id, GlossaryItem, link_of, item_of, glossary_page, render_term,
  glossary_href,
}
use feature_flag_system.Learn.Chapters.{ChapterCard, chapter_card, learn_page}

-- Some entry of a list has this identifier.
abbrev is_listed : Text → List GlossaryEntry → Bool
is_listed id [] = false
is_listed id (e ∷ entries) = text_eq e.id id || is_listed id entries

-- A link leads to an element of the glossary page.
abbrev leads_to : Text → List GlossaryItem → Bool
leads_to href [] = false
leads_to href (i ∷ items) = text_eq (glossary_href i.anchor) href || leads_to href items

abbrev pub leads : Text → Bool
leads href = leads_to href glossary_page

-- A link leads to a page of the navigation.
abbrev is_page : Text → List NavItem → Bool
is_page href [] = false
is_page href (i ∷ items) = text_eq i.href href || is_page href items

abbrev is_screen : Text → Bool
is_screen href = is_page href (nav_items ++ learn_items)

-- What a card shows of its term: the analogy and a link that leads somewhere, or neither.
abbrev is_explained : Option Text → Option Text → Bool
is_explained none none = true
is_explained (some like) (some href) = leads href
is_explained none (some href) = false
is_explained (some like) none = false

abbrev pub arrives : ChapterCard → Bool
arrives c = is_screen c.href && is_explained c.like c.definition_href

from_entries-listed :
    (name : Text) (d : Dict GlossaryEntry) (entries : List GlossaryEntry) (e : GlossaryEntry)
    → get name (from_entries d entries) ≡ some e
    → (get name d ≡ some e) ⊎ (is_listed e.id entries ≡ true)
unfolding from_entries
from_entries-listed name d [] e h = inl h
from_entries-listed name d (x ∷ entries) e h = ground (
  arith,
  from_entries-listed name (set x.id x d) entries e h,
  get-set x.id name x d,
  text_eq_iff x.id e.id,
)

abbrev href_text : Option (Text × Text) → Text
href_text none = []
href_text (some (href, tip)) = href

href_of :
    (e : GlossaryEntry) (href tip : Text)
    → link_of (some e) ≡ some (href, tip)
    → glossary_href e.id ≡ href
href_of e href tip k = ap (λ l. href_text l) k

chapters_arrive : All (λ c. arrives c ≡ true) learn_page
unfolding learn_page glossary_page chapter_card get set text_eq glossary_by_id from_entries
chapters_arrive = (refl, (refl, (refl, (refl, (refl, (refl, (refl, (refl, tt))))))))

listed-leads :
    (id : Text) (entries : List GlossaryEntry)
    → is_listed id entries ≡ true
    → leads_to (glossary_href id) (map item_of entries) ≡ true
listed-leads id [] h = h
listed-leads id (e ∷ entries) h = ground (
  arith,
  text_eq_iff e.id id,
  text_eq_iff (glossary_href e.id) (glossary_href id),
  listed-leads id entries,
)

linked-leads :
    (name : Text) (entries : List GlossaryEntry) (e : Option GlossaryEntry) (href tip : Text)
    → get name (from_entries [] entries) ≡ e
    → link_of e ≡ some (href, tip)
    → leads_to href (map item_of entries) ≡ true
unfolding get
linked-leads name entries none href tip h k = absurd (cc)
linked-leads name entries (some e) href tip h k = elim (from_entries-listed name [] entries e h) [
  | inl c ↦ absurd (cc)
  | inr l ↦
      subst (λ t. leads_to t (map item_of entries) ≡ true) (href_of e href tip k)
        (listed-leads e.id entries l)
]

-- Whatever the name that a term is given: where it is drawn as a link, the link leads to an element
-- of the glossary page; and every chapter leads to a page of the navigation, and shows the analogy
-- and a link that leads to its definition, or neither.
pub leads-render_term :
    (name : Text) (children : Option Text) (href tip : Text)
    → (render_term name children).link ≡ some (href, tip)
    → (leads href ≡ true) × All (λ c. arrives c ≡ true) learn_page
unfolding render_term glossary_by_id glossary_page learn_page chapter_card get set text_eq
leads-render_term name children href tip h =
    (linked-leads name glossary (get name glossary_by_id) href tip refl h, chapters_arrive)
