-- ===== src/Layout/Active.antt =====
-- At most one entry of the side bar is the current page.
use feature_flag_system.Prelude.{
  ◌∷◌, [], ◌++◌, Text, codes, Bool, true, false, not, ◌&&◌, ◌||◌, List, ◌≡◌, refl, arith, ◌==◌,
  ==_iff, text_eq, text_eq_iff, if◌then◌else◌, subst, every, includes, All, All-imp, ◌≤◌, drop,
  keep, length, map, inl, inr, Bool-cases,
}
use feature_flag_system.Layout.{NavItem, is_active, starts_with, nav_items, learn_items}

-- The path up to its next slash.
segment : Text → Text
segment [] = []
segment (c ∷ s) = let rest = segment s in if c == b'/' then [] else c ∷ rest

-- An address of the side bar: a slash and a word without one.
abbrev pub IsWord : Text → Type 0
IsWord w = every (λ c. not (c == b'/')) w ≡ true

segment-word : (w : Text) → IsWord w → segment w ≡ w
unfolding segment
segment-word [] h = refl
segment-word (c ∷ w) h = ground (arith, segment-word w)

segment-starts : (w s : Text) → IsWord w → starts_with (w ++ codes "/") s ≡ true → segment s ≡ w
unfolding segment starts_with
segment-starts [] [] h e = refl
segment-starts [] (c ∷ s) h e = ground arith
segment-starts (c ∷ w) [] h e = absurd (cc e)
segment-starts (c ∷ w) (d ∷ s) h e = ground (arith, ==_iff c d, segment-starts w s)

abbrev word_of : NavItem → Text
word_of i = drop 1 i.href

-- The entry of an address, with its slash.
abbrev pub IsAddress : NavItem → Type 0
IsAddress i = (i.href ≡ b'/' ∷ word_of i) × IsWord (word_of i)

active_word :
    (path w : Text)
    → IsWord w
    → (text_eq path (b'/' ∷ w)
        || not (text_eq (b'/' ∷ w) (codes "/")) && starts_with ((b'/' ∷ w) ++ codes "/") path)
      ≡ true
    → segment (drop 1 path) ≡ w
unfolding starts_with text_eq segment
active_word [] w h e = absurd (ground arith)
active_word (c ∷ path) w h e =
    ground (arith, text_eq_iff path w, segment-word w h, segment-starts w path h, ==_iff c b'/')

-- The word of an entry that is current is the first segment of the path.
active-segment :
    (path : Text) (i : NavItem)
    → IsAddress i
    → is_active path i ≡ true
    → segment (drop 1 path) ≡ word_of i
unfolding is_active
active-segment path i h e = active_word path (word_of i) h.1 (
    subst
      (λ a.
        (text_eq path a || not (text_eq a (codes "/")) && starts_with (a ++ codes "/") path) ≡ true)
      h.0 e)

-- No two of the texts are equal.
abbrev all_apart : List Text → Bool
all_apart [] = true
all_apart (w ∷ ws) = not (includes ws w) && all_apart ws

keep-none :
    {A : Type 0} (p : A → Bool) (f : A → Text) (w : Text) (xs : List A)
    → All (λ x. (p x ≡ true) → w ≡ f x) xs
    → includes (map f xs) w ≡ false
    → length (keep p xs) ≡ 0
unfolding includes
keep-none p f w [] h a = refl
keep-none p f w (x ∷ xs) h a = elim (Bool-cases (p x)) [
  | inl hit ↦ let same = h.0 hit in absurd (ground (arith, text_eq_iff (f x) w))
  | inr miss ↦ ground (arith, keep-none p f w xs h.1)
]

-- Entries that are all kept for one text are at most one.
keep-one :
    {A : Type 0} (p : A → Bool) (f : A → Text) (w : Text) (xs : List A)
    → All (λ x. (p x ≡ true) → w ≡ f x) xs
    → all_apart (map f xs) ≡ true
    → length (keep p xs) ≤ 1
keep-one p f w [] h a = omega arith
keep-one p f w (x ∷ xs) h a = elim (Bool-cases (p x)) [
  | inl hit ↦
      let same = h.0 hit in
      let others : includes (map f xs) w ≡ false = ground arith in
      ground (arith, keep-none p f w xs h.1 others)
  | inr miss ↦ ground (arith, keep-one p f w xs h.1)
]

abbrev entries : List NavItem
entries = nav_items ++ learn_items

entries-IsAddress : All IsAddress entries
entries-IsAddress = (
  (refl, refl),
  (
    (refl, refl),
    (
      (refl, refl),
      (
        (refl, refl),
        ((refl, refl), ((refl, refl), ((refl, refl), ((refl, refl), ((refl, refl), tt))))),
      ),
    ),
  ),
)

-- Whatever the path, at most one entry of the side bar is drawn as the current page.
pub one_current : (path : Text) → length (keep (is_active path) (nav_items ++ learn_items)) ≤ 1
unfolding includes text_eq
one_current path =
    keep-one (is_active path) word_of (segment (drop 1 path)) entries
      (All-imp IsAddress (λ i. (is_active path i ≡ true) → segment (drop 1 path) ≡ word_of i)
        (λ i h e. active-segment path i h e) entries entries-IsAddress)
      refl
