-- ===== src/Id3Tag/StyleIndex.antt =====
-- `find_style` is an index into the table.
use netdj.Prelude.{
  ℕ, zero, suc, ◌+◌, ◌≡◌, refl, Bool, true, ◌&&◌, Option, none, some, List, [], ◌∷◌, Text, get_or,
  length, ◌==◌, arith,
}
use native.Mathlib.Nat.{zero-add}
use netdj.Id3Tag.Styles.{Style, id3_styles}
use netdj.Id3Tag.{unknown_style, search_styles, find_style}

-- The names before the row without one, in order.
pub names : List Style → List Text
names [] = []
names (s ∷ rest) = elim s.name [ none ↦ [] | some name ↦ name ∷ names rest ]

-- The rows carry the numbers from `k` on.
numbered : ℕ → List Style → Bool
numbered k [] = true
numbered k (s ∷ rest) = elim s.name [
  | none ↦ true
  | some name ↦ (s.styleid == k) && numbered (k + 1) rest
]

search-row :
    (s : Style) (rest : List Style) (k i : ℕ) (o : Option Text)
    → s.name ≡ o
    → numbered k (s ∷ rest) ≡ true
    → ((i : ℕ)
        → numbered (k + 1) rest ≡ true
        → search_styles rest (k + 1 + i) ≡ get_or (names rest) i unknown_style)
    → search_styles (s ∷ rest) (k + i) ≡ get_or (names (s ∷ rest)) i unknown_style
unfolding search_styles numbered names
search-row s rest k i none e h ih = rw e
search-row s rest k zero (some name) e h ih = rw e (ground (arith))
search-row s rest k (suc i) (some name) e h ih =
    let same : k + 1 + i ≡ k + suc i = omega arith in rw e (ground (arith, rw same at (ih i)))

search-names :
    (table : List Style) (k i : ℕ)
    → numbered k table ≡ true
    → search_styles table (k + i) ≡ get_or (names table) i unknown_style
unfolding search_styles numbered names
search-names [] k i h = refl
search-names (s ∷ rest) k i h =
    search-row s rest k i s.name refl h (λ j. search-names rest (k + 1) j)

table_numbered : numbered 0 id3_styles ≡ true
unfolding numbered id3_styles
table_numbered = refl

-- A style byte is the index of its name in the table of 145 names; any other is the unknown style.
pub find_style_lem :
    (styleid : ℕ)
    → (find_style styleid ≡ get_or (names id3_styles) styleid unknown_style)
      × (length (names id3_styles) ≡ 145)
unfolding find_style names id3_styles
find_style_lem styleid = (rw zero-add at (search-names id3_styles 0 styleid table_numbered), refl)
