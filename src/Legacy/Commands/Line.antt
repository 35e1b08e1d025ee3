-- ===== src/Legacy/Commands/Line.antt =====
-- How `execute_line` takes a line apart.
use netdj.Prelude.{ℕ, zero, suc, ◌≡◌, ◌≢◌, refl, [], ◌∷◌, ◌++◌, Text, arith}
use netdj.Legacy.File.Paths.{Without}
use netdj.Legacy.Commands.Words.{
  before_blank, behind_blank, skip_blanks, strip_end, strip_arg, split_line,
}

-- Blanks.
abbrev pub blanks : ℕ → Text
blanks zero = []
blanks (suc n) = b' ' ∷ blanks n

before_blank-word : (w s : Text) → Without b' ' w → before_blank (w ++ (b' ' ∷ s)) ≡ w
unfolding before_blank
before_blank-word [] s h = refl
before_blank-word (c ∷ w) s (n, h) = ground (arith, before_blank-word w s h)

behind_blank-word : (w s : Text) → Without b' ' w → behind_blank (w ++ (b' ' ∷ s)) ≡ s
unfolding behind_blank
behind_blank-word [] s h = refl
behind_blank-word (c ∷ w) s (n, h) = ground (arith, behind_blank-word w s h)

skip_blanks-blanks : (n c : ℕ) (s : Text) → c ≢ b' ' → skip_blanks (blanks n ++ (c ∷ s)) ≡ c ∷ s
unfolding skip_blanks
skip_blanks-blanks zero c s h = ground arith
skip_blanks-blanks (suc n) c s h = skip_blanks-blanks n c s h

strip_end-blanks : (n : ℕ) → strip_end (blanks n) ≡ []
unfolding strip_end
strip_end-blanks zero = refl
strip_end-blanks (suc n) = rw (strip_end-blanks n) refl

-- A text that is empty or whose last character is no blank.
abbrev pub EndsWell : Text → Type 0
EndsWell [] = Unit
EndsWell (c ∷ []) = c ≢ b' '
EndsWell (c ∷ d ∷ s) = EndsWell (d ∷ s)

strip_end-text : (s : Text) (n : ℕ) → EndsWell s → strip_end (s ++ blanks n) ≡ s
unfolding strip_end
strip_end-text [] n h = strip_end-blanks n
strip_end-text (c ∷ []) n h = rw (strip_end-blanks n) (ground arith)
strip_end-text (c ∷ d ∷ s) n h = rw (strip_end-text (d ∷ s) n h) (ground arith)

tail_ends : (c : ℕ) (s : Text) → EndsWell (c ∷ s) → EndsWell s
tail_ends c [] h = tt
tail_ends c (d ∷ s) h = h

-- A line of a command without blanks, at least one blank, an argument that begins and ends with
-- something else, and any number of blanks: `execute_line` finds this command and this argument.
pub split_line-parts :
    (command arg : Text) (c n m : ℕ)
    → Without b' ' command
    → c ≢ b' '
    → EndsWell (c ∷ arg)
    → split_line (command ++ (b' ' ∷ (blanks n ++ (c ∷ (arg ++ blanks m))))) ≡ (command, c ∷ arg)
unfolding split_line strip_arg
split_line-parts command arg c n m w h e =
    let rest : Text = blanks n ++ (c ∷ (arg ++ blanks m)) in
    rw
      (
        before_blank-word command rest w,
        behind_blank-word command rest w,
        skip_blanks-blanks n c (arg ++ blanks m) h,
        strip_end-text arg m (tail_ends c arg e),
      )
      refl
