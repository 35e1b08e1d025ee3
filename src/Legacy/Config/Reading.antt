-- ===== src/Legacy/Config/Reading.antt =====
-- The loop over the lines of the configuration file.
use netdj.Prelude.{
  ℕ, zero, suc, ◌+◌, ◌≤◌, ◌≡◌, refl, ap, ◌∙◌, true, false, none, some, List, [], ◌∷◌, ◌++◌, Text,
  length, All, arith,
}
use netdj.Legacy.Http.{Exec}
use netdj.Legacy.File.Paths.{Without}
use netdj.Legacy.Stream.{Input, Line, opened, getline}
use netdj.Legacy.Stream.Lines.{
  unlines, unlines-cons, Fits, getline-line, getline-last, getline-long, getline-bad,
}
use netdj.Legacy.Config.{Values, line_size, use_line, read_lines}

-- The values behind some lines.
unfoldable pub use_lines : Exec → List Text → Values → Values
use_lines exec [] m = m
use_lines exec (l ∷ ls) m = use_lines exec ls (use_line exec l m)

read_lines-good :
    (exec : Exec) (fuel : ℕ) (i : Input) (m : Values)
    → i.eof ≡ false
    → read_lines exec (suc fuel) i m
      ≡ read_lines exec fuel
          (getline line_size i).input
          (use_line exec (getline line_size i).text m)
unfolding read_lines
read_lines-good exec fuel i m e = ground (arith, e)

read_lines-one :
    (exec : Exec) (fuel : ℕ) (s : Text) (m : Values)
    → read_lines exec (suc fuel) (opened s) m
      ≡ read_lines exec fuel
          (getline line_size (opened s)).input
          (use_line exec (getline line_size (opened s)).text m)
unfolding read_lines
read_lines-one exec fuel s m = refl

-- A step past one line that fits.
read_lines-line :
    (exec : Exec) (fuel : ℕ) (l rest : Text) (m : Values)
    → Fits line_size l
    → read_lines exec (suc fuel) (opened (l ++ (10 ∷ rest))) m
      ≡ read_lines exec fuel (opened rest) (use_line exec l m)
read_lines-line exec fuel l rest m h =
    read_lines-one exec fuel (l ++ (10 ∷ rest)) m
    ∙ ap (λ (line : Line). read_lines exec fuel line.input (use_line exec line.text m))
        (getline-line line_size l rest h)

-- A file of lines that each fit into the buffer, the last one without a newline and perhaps empty:
-- with two steps more than there are lines, the loop ends, having used each line once and in order.
pub read_lines-use_lines :
    (exec : Exec) (fuel : ℕ) (ls : List Text) (last : Text) (m : Values)
    → All (Fits line_size) ls
    → Fits line_size last
    → length ls + 2 ≤ fuel
    → read_lines exec fuel (opened (unlines ls ++ last)) m
      ≡ some (use_line exec last (use_lines exec ls m))
unfolding read_lines unlines
read_lines-use_lines exec (suc zero) ls last m h k f = absurd (omega arith)
read_lines-use_lines exec zero ls last m h k f = absurd (omega arith)
read_lines-use_lines exec (suc (suc fuel)) [] last m h k f =
    read_lines-one exec (suc fuel) last m
    ∙ ap (λ (line : Line). read_lines exec (suc fuel) line.input (use_line exec line.text m))
        (getline-last line_size last k)
    ∙ (unfold read_lines use_lines in refl)
read_lines-use_lines exec (suc (suc fuel)) (l ∷ ls) last m (h, hs) k f =
    ap (λ s. read_lines exec (suc (suc fuel)) (opened s) m) (unlines-cons l ls last)
    ∙ read_lines-line exec (suc fuel) l (unlines ls ++ last) m h
    ∙ read_lines-use_lines exec (suc fuel) ls last (use_line exec l m) hs k (omega arith)
    ∙ (unfold use_lines in refl)

-- Once the stream has failed before its end the loop never ends.
read_lines-failed :
    (exec : Exec) (fuel : ℕ) (i : Input) (m : Values)
    → i.fail ≡ true
    → i.eof ≡ false
    → read_lines exec fuel i m ≡ none
read_lines-failed exec zero i m f e = unfold read_lines in refl
read_lines-failed exec (suc fuel) i m f e =
    let bad = getline-bad line_size i f in
    let line = getline line_size i in
    read_lines-good exec fuel i m e
    ∙ read_lines-failed exec fuel line.input (use_line exec line.text m) bad.0 (bad.1 ∙ e)

-- A file with a line of 255 characters or more, behind lines that fit: the loop does not end, however
-- many steps it is given.
pub read_lines-long :
    (exec : Exec) (fuel : ℕ) (ls : List Text) (long rest : Text) (m : Values)
    → All (Fits line_size) ls
    → Without 10 long
    → line_size ≤ length long
    → read_lines exec fuel (opened (unlines ls ++ (long ++ rest))) m ≡ none
unfolding unlines
read_lines-long exec zero ls long rest m h n b = unfold read_lines in refl
read_lines-long exec (suc fuel) [] long rest m h n b =
    let first = getline-long line_size long rest n (omega arith) b in
    let line = getline line_size (opened (long ++ rest)) in
    read_lines-one exec fuel (long ++ rest) m
    ∙ read_lines-failed exec fuel line.input (use_line exec line.text m) first.0 first.1
read_lines-long exec (suc fuel) (l ∷ ls) long rest m (h, hs) n b =
    ap (λ s. read_lines exec (suc fuel) (opened s) m) (unlines-cons l ls (long ++ rest))
    ∙ read_lines-line exec fuel l (unlines ls ++ (long ++ rest)) m h
    ∙ read_lines-long exec fuel ls long rest (use_line exec l m) hs n b
