-- ===== src/Legacy/File/Paths.antt =====
-- The parts of a file's path.
use netdj.Prelude.{
  ℕ, suc, ◌≡◌, ◌≢◌, refl, ap, none, some, [], ◌∷◌, ◌++◌, Text, take, drop, All, ◌==◌, arith, inl,
  inr, Option-cases, Bool-cases,
}
use netdj.Legacy.Text.{find_last_of, before_index, behind_index}
use netdj.Legacy.File.{File, get_dirname, get_filename}

-- A text without the character.
abbrev pub Without : ℕ → Text → Type 0
Without c = All (λ d. d ≢ c)

find_last_of-none : (c : ℕ) (s : Text) → find_last_of c s ≡ none → Without c s
unfolding find_last_of
find_last_of-none c [] e = tt
find_last_of-none c (d ∷ s) e = elim (Option-cases (find_last_of c s)) [
  | inl n ↦ (ground arith, find_last_of-none c s n)
  | inr (i, k) ↦ cc
]

find_last_of-some :
    (c i : ℕ) (s : Text)
    → find_last_of c s ≡ some i
    → (take i s ++ c ∷ drop (suc i) s ≡ s) × Without c (drop (suc i) s)
unfolding find_last_of
find_last_of-some c i [] e = cc
find_last_of-some c i (d ∷ s) e = elim (Option-cases (find_last_of c s)) [
  | inr (j, k) ↦
      let ih = find_last_of-some c j s k in
      let same : i ≡ suc j = cc in rw same (ap (λ (l : Text). d ∷ l) ih.0, ih.1)
  | inl n ↦ elim (Bool-cases (d == c)) [
    | inl t ↦
        let same : i ≡ 0 = cc in
        let here : d ≡ c = ground arith in rw (same, here) (refl, find_last_of-none c s n)
    | inr f ↦ cc
  ]
]

-- The directory's name, a slash and the file's name are the path, for every path with a slash in it,
-- and the file's name has none.
pub get_dirname-get_filename :
    (f : File) (i : ℕ)
    → find_last_of b'/' f.name ≡ some i
    → (get_dirname f ++ b'/' ∷ get_filename f ≡ f.name) × Without b'/' (get_filename f)
unfolding get_dirname get_filename before_index behind_index
get_dirname-get_filename f i e = rw e (find_last_of-some b'/' i f.name e)
