-- ===== src/Legacy/Commands/Words.antt =====
-- How `execute_line` of netdj/src/main.cc takes a line apart.
use netdj.Prelude.{◌&&◌, [], ◌∷◌, Text, is_empty, ◌==◌, if◌then◌else◌}

-- The command up to the first blank, and the rest without the blanks before and
-- behind it, whose first character always stays
unfoldable pub before_blank : Text → Text
before_blank [] = []
before_blank (c ∷ s) = if c == b' ' then [] else c ∷ before_blank s

unfoldable pub behind_blank : Text → Text
behind_blank [] = []
behind_blank (c ∷ s) = let more = behind_blank s in if c == b' ' then s else more

unfoldable pub skip_blanks : Text → Text
skip_blanks [] = []
skip_blanks (c ∷ s) = let more = skip_blanks s in if c == b' ' then more else c ∷ s

unfoldable pub strip_end : Text → Text
strip_end [] = []
strip_end (c ∷ s) = let rest = strip_end s in if c == b' ' && is_empty rest then [] else c ∷ rest

unfoldable pub strip_arg : Text → Text
unfolding strip_end
strip_arg [] = []
strip_arg (c ∷ s) = c ∷ strip_end s

unfoldable pub split_line : Text → Text × Text
unfolding strip_arg
split_line line = (before_blank line, strip_arg (skip_blanks (behind_blank line)))
