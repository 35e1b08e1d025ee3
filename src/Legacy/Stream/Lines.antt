-- ===== src/Legacy/Stream/Lines.antt =====
-- What `getline` gives of a text that is written in lines.
use netdj.Prelude.{
  ℕ, zero, suc, ◌-◌, ◌≤◌, ◌<◌, ◌≡◌, refl, true, false, List, [], ◌∷◌, ◌++◌, Text, is_empty, length,
  arith, append_assoc,
}
use netdj.Legacy.Stream.{Input, opened, get_line, getline}
use netdj.Legacy.File.Paths.{Without}

-- The text of lines, each with a newline behind it.
unfoldable pub unlines : List Text → Text
unlines [] = []
unlines (l ∷ ls) = l ++ (10 ∷ unlines ls)

pub unlines-cons :
    (l : Text) (ls : List Text) (last : Text)
    → unlines (l ∷ ls) ++ last ≡ l ++ (10 ∷ (unlines ls ++ last))
unfolding unlines
unlines-cons l ls last = append_assoc l (10 ∷ unlines ls) last

-- A line that fits into a buffer of the size.
abbrev pub Fits : ℕ → Text → Type 0
Fits size l = Without 10 l × (length l < size)

get_line-line :
    (room : ℕ) (l rest : Text)
    → Without 10 l
    → length l ≤ room
    → get_line room (l ++ (10 ∷ rest)) ≡ record { text = l; input = opened rest }
unfolding get_line
get_line-line zero [] rest n h = refl
get_line-line (suc room) [] rest n h = refl
get_line-line zero (c ∷ l) rest n h = absurd (omega arith)
get_line-line (suc room) (c ∷ l) rest (n, ns) h =
    ground (arith, get_line-line room l rest ns (omega arith))

get_line-last :
    (room : ℕ) (l : Text)
    → Without 10 l
    → length l ≤ room
    → get_line room l ≡ record { text = l; input = record { rest = []; eof = true; fail = false } }
unfolding get_line
get_line-last room [] n h = refl
get_line-last zero (c ∷ l) n h = absurd (omega arith)
get_line-last (suc room) (c ∷ l) (n, ns) h = ground (arith, get_line-last room l ns (omega arith))

get_line-long :
    (room : ℕ) (l rest : Text)
    → Without 10 l
    → room < length l
    → ((get_line room (l ++ rest)).input.fail ≡ true)
      × ((get_line room (l ++ rest)).input.eof ≡ false)
unfolding get_line
get_line-long room [] rest n h = absurd (omega arith)
get_line-long zero (c ∷ l) rest (n, ns) h = ground arith
get_line-long (suc room) (c ∷ l) rest (n, ns) h =
    let more = get_line-long room l rest ns (omega arith) in ground (arith, more.0, more.1)

is_empty-line : (l rest : Text) → is_empty (l ++ (10 ∷ rest)) ≡ false
is_empty-line [] rest = refl
is_empty-line (c ∷ l) rest = refl

pub getline-line :
    (size : ℕ) (l rest : Text)
    → Fits size l
    → getline size (opened (l ++ (10 ∷ rest))) ≡ record { text = l; input = opened rest }
unfolding getline
getline-line size l rest (n, h) =
    rw (get_line-line (size - 1) l rest n (omega arith), is_empty-line l rest) refl

pub getline-last :
    (size : ℕ) (l : Text)
    → Fits size l
    → getline size (opened l)
      ≡ record { text = l; input = record { rest = []; eof = true; fail = is_empty l } }
unfolding getline
getline-last size l (n, h) = rw (get_line-last (size - 1) l n (omega arith)) refl

pub getline-long :
    (size : ℕ) (l rest : Text)
    → Without 10 l
    → 0 < size
    → size ≤ length l
    → ((getline size (opened (l ++ rest))).input.fail ≡ true)
      × ((getline size (opened (l ++ rest))).input.eof ≡ false)
unfolding getline
getline-long size l rest n p h =
    let more = get_line-long (size - 1) l rest n (omega arith) in (rw more.0 refl, more.1)

pub getline-bad :
    (size : ℕ) (i : Input)
    → i.fail ≡ true
    → ((getline size i).input.fail ≡ true) × ((getline size i).input.eof ≡ i.eof)
unfolding getline
getline-bad size i h = ground arith
