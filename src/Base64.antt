-- ===== src/Base64.antt =====
-- `base64_decode`: netdj2/engine/util.cpp, and the same text in netdj/src/util.cc.
-- The two arrays of the C++ function are local and never cleared, so a run starts from a memory
-- that is an argument here: any two functions. A byte at index 128 or above reads outside of the
-- arrays through a negative `char`; the memory functions stand for that too. What the memory holds
-- is taken as a number below 128, as a negative value would make `bits <<= 6` undefined.
pub mod Encode
pub mod RoundTrip
pub mod Shape
use netdj.Prelude.{
  ℕ, zero, suc, ◌+◌, ◌*◌, ◌/◌, ◌%◌, ◌^◌, Bool, ◌||◌, List, [], ◌∷◌, ◌++◌, Text, codes, ◌==◌,
  if◌then◌else◌,
}

-- `inalphabet` and `decoder`
pub record Tables : Type 0 where
  pub inalphabet : ℕ → ℕ
  pub decoder : ℕ → ℕ

-- the 64 symbols, and the NUL that ends the literal and that `sizeof` counts
abbrev pub alphabet : Text
alphabet = codes "ABCDEFGHIJKLMNOPQRSTUVWXYZabcdefghijklmnopqrstuvwxyz0123456789+/" ++ 0 ∷ []

write : ℕ → ℕ → Tables → Tables
write c i t = record {
  inalphabet = λ k. if k == c then 1 else t.inalphabet k;
  decoder = λ k. if k == c then i else t.decoder k;
}

-- The `for` loop counts down, so the entries of the tail are written first.
fill : ℕ → Text → Tables → Tables
unfolding write
fill i [] t = t
fill i (c ∷ cs) t = write c i (fill (i + 1) cs t)

pub record Decoder : Type 0 where
  pub bits : ℕ
  pub char_count : ℕ
  pub res : Text

abbrev pub start : Decoder
start = record { bits = 0; char_count = 0; res = [] }

-- the byte that `res +=` appends
abbrev pub byte : ℕ → ℕ
byte n = n % 256

-- the loop's condition, and its `break`
pub stops : ℕ → Bool
stops c = c == 0 || c == b'='

-- `bits += decoder[*ch]; char_count++` and the test on `char_count`
pub accept : ℕ → Decoder → Decoder
accept v d =
    let bits = d.bits + v in
    if d.char_count + 1 == 4
    then record {
      bits = 0;
      char_count = 0;
      res = d.res ++ (byte (bits / 2 ^ 16) ∷ byte (bits / 2 ^ 8) ∷ byte bits ∷ []);
    }
    else record d { bits = bits * 2 ^ 6; char_count = d.char_count + 1 }

pub step : Tables → ℕ → Decoder → Decoder
unfolding accept
step t c d = if t.inalphabet c == 0 then d else accept (t.decoder c) d

pub loop : Tables → Text → Decoder → Decoder
unfolding stops step
loop t [] d = d
loop t (c ∷ cs) d = let rest = loop t cs (step t c d) in if stops c then d else rest

-- the `switch` behind the loop
pub finish : Decoder → Text
finish d =
    if d.char_count == 2
    then d.res ++ byte (d.bits / 2 ^ 10) ∷ []
    else if d.char_count == 3
    then d.res ++ (byte (d.bits / 2 ^ 16) ∷ byte (d.bits / 2 ^ 8) ∷ [])
    else d.res

-- The arrays as they are when the loop over the text begins.
pub tables : Tables → Tables
unfolding fill
tables memory = fill 0 alphabet memory

unfoldable pub base64_decode : Tables → Text → Text
unfolding tables loop finish
base64_decode memory s = finish (loop (tables memory) s start)
