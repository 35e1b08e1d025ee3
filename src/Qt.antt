-- ===== src/Qt.antt =====
-- What the program uses of QString beyond comparing and appending, as an interface: Qt is not part
-- of the repository. The laws that a theorem needs are its hypotheses.
use netdj.Prelude.{ℕ, ◌≡◌, Option, Text}
use netdj.Prelude.Int.{ℤ}

pub record QtText : Type 0 where
  -- s.section(sep, first, last); `none` is the default, up to the end
  pub section : ℕ → ℕ → Option ℕ → Text → Text
  -- s.stripWhiteSpace()
  pub strip : Text → Text
  -- s.toInt(): 0 where the text is no number
  pub to_int : Text → ℤ
  -- s.setNum(n)
  pub set_num : ℤ → Text

-- `toInt` reads back what `setNum` writes.
abbrev pub ReadsBack : QtText → ℤ → Type 0
ReadsBack qt n = qt.to_int (qt.set_num n) ≡ n
