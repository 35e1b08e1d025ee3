-- ===== src/Legacy/Stream.antt =====
-- `ifstream` as netdj/src uses it: `open`, `is_open`, `eof` and `getline` into a buffer.
pub mod Lines
use netdj.Prelude.{
  ℕ, zero, suc, ◌-◌, Bool, true, false, ◌||◌, List, [], ◌∷◌, Text, is_empty, ◌==◌, if◌then◌else◌,
}

pub record Input : Type 0 where
  pub rest : Text
  pub eof : Bool
  pub fail : Bool

abbrev pub opened : Text → Input
opened s = record { rest = s; eof = false; fail = false }

pub record Line : Type 0 where
  pub text : Text
  pub input : Input

-- Up to `room` characters and the newline behind them. Where more characters come before the newline
-- the stream fails and they stay in it.
unfoldable pub get_line : ℕ → Text → Line
get_line room [] = record { text = []; input = record { rest = []; eof = true; fail = false } }
get_line zero (c ∷ s) = record {
  text = [];
  input = if c == 10 then opened s else record { rest = c ∷ s; eof = false; fail = true };
}
get_line (suc room) (c ∷ s) =
    let more = get_line room s in
    if c == 10 then record { text = []; input = opened s } else record more { text = c ∷ more.text }

-- getline(line, size): a stream that is not good fails, as one does that has nothing left.
unfoldable pub getline : ℕ → Input → Line
unfolding get_line
getline size i =
    let line = get_line (size - 1) i.rest in
    if i.eof || i.fail
    then record { text = []; input = record i { fail = true } }
    else record line { input = record line.input { fail = line.input.fail || is_empty i.rest } }
