-- ===== src/Legacy/Commands/Printed.antt =====
-- What the commands of netdj/src/main.cc print of themselves and of the lists.
use netdj.Prelude.{
  ℕ, zero, suc, ◌-◌, Option, none, some, List, [], ◌∷◌, ◌++◌, map, Text, codes, length,
}
use netdj.Legacy.Text.{decimal}
use netdj.Legacy.File.{get_filename}
use netdj.Legacy.Directory.{Directory, get_entries}

-- setw(n)
spaces : ℕ → Text
spaces zero = []
spaces (suc n) = b' ' ∷ spaces n

pad : ℕ → Text → Text
unfolding spaces
pad n s = spaces (n - length s) ++ s

-- a line of com_help
unfoldable pub help_line : Text → Text → Text
unfolding pad
help_line name doc = codes "  " ++ (pad 10 name ++ (codes "   " ++ doc))

-- the lines of com_list and com_lists
unfoldable pub list_lines : Option Directory → List Text
list_lines none = []
list_lines (some d) =
    (codes "  [" ++ (d.shname ++ codes "]:"))
    ∷ map (λ f. codes "    " ++ get_filename f) (get_entries 10 d)

unfoldable pub lists_lines : List Directory → List ℕ → List Text
unfolding pad
lists_lines (d ∷ ds) (n ∷ ns) =
    (pad 7 (decimal n) ++ (codes "  " ++ (d.descr ++ (codes " [" ++ (d.shname ++ codes "]")))))
    ∷ lists_lines ds ns
lists_lines ds ns = []
