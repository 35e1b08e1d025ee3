-- ===== src/Legacy/Regex.antt =====
-- `MyRegex` of netdj/src/MyRegex.cc over the regexec of the C library, and what it means for the loops
-- that call it (netdj/src/HTTP.cc). A regular expression is given as its text.
pub mod Loops
use netdj.Prelude.{
  ℕ, zero, suc, ◌+◌, ◌-◌, ◌≤◌, ◌<◌, ◌≡◌, refl, sym, ap, ◌∙◌, Bool, true, false, Option, none, some,
  List, [], ◌∷◌, Text, length, take, drop, ◌==◌, if◌then◌else◌, Bool-cases, inl, inr, arith,
}
use netdj.Legacy.Http.{Exec}

-- `pmatch`, as regexec fills it: where the whole match ends, and the start and the end of each
-- parenthesis, `none` for one that took no part.
pub record Found : Type 0 where
  pub ends : ℕ
  pub parts : List (Option (ℕ × ℕ))

abbrev pub RegExec : Type 0
RegExec = Text → Text → Option Found

-- MAX_MATCH, less the whole match
abbrev max_parts : ℕ
max_parts = 19

-- The loop over `pmatch`: it stops at the first parenthesis that took no part.
unfoldable pub push_parts : ℕ → List (Option (ℕ × ℕ)) → Text → List Text
push_parts zero parts str = []
push_parts (suc n) [] str = []
push_parts (suc n) (none ∷ parts) str = []
push_parts (suc n) (some (so, eo) ∷ parts) str =
    take (eo - so) (drop so str) ∷ push_parts n parts str

-- Match(str, res): what it returns and what it appends to `res`
unfoldable pub match_regex : RegExec → Text → Text → ℕ × List Text
unfolding push_parts
match_regex regexec reg str = elim (regexec reg str) [
  | none ↦ (0, [])
  | some found ↦ (found.ends, push_parts max_parts found.parts str)
]

-- A caller takes a result of 0 for no match.
abbrev acted : ℕ × List Text → Option (ℕ × List Text)
acted r = if r.0 == 0 then none else some r

unfoldable pub exec_of : RegExec → Exec
exec_of regexec reg str = acted (match_regex regexec reg str)

-- A match ends within the text.
abbrev pub EndsWithin : RegExec → Type 0
EndsWithin regexec =
    (reg str : Text) (found : Found) → regexec reg str ≡ some found → found.ends ≤ length str

positive : (m n : ℕ) (gs ps : List Text) → acted (m, gs) ≡ some (n, ps) → (0 < n) × (n ≡ m)
positive m n gs ps h = ground arith

found_ends :
    (o : Option Found) (str : Text) (n : ℕ) (parts : List Text)
    → ((found : Found) → o ≡ some found → found.ends ≤ length str)
    → acted (elim o [
      | none ↦ (0, [])
      | some found ↦ (found.ends, push_parts max_parts found.parts str)
    ])
      ≡ some (n, parts)
    → (0 < n) × (n ≤ length str)
found_ends none str n parts law h = cc
found_ends (some found) str n parts law h =
    let (a, b) = positive found.ends n (push_parts max_parts found.parts str) parts h in
    let c = law found refl in (a, omega arith)

-- A match that a caller acts on takes something of the text, and no more than there is.
pub exec_of-ends :
    (regexec : RegExec) (reg str : Text) (n : ℕ) (parts : List Text)
    → EndsWithin regexec
    → exec_of regexec reg str ≡ some (n, parts)
    → (0 < n) × (n ≤ length str)
unfolding exec_of match_regex
exec_of-ends regexec reg str n parts law h =
    found_ends (regexec reg str) str n parts (law reg str) h
