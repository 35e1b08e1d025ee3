-- ===== src/Base64/Shape.antt =====
-- What bounds the decoded text, where decoding stops, and what the uninitialised tables do.
use netdj.Prelude.{
  Bool-cases, if◌then◌else◌, inl, inr, ℕ, ◌+◌, ◌*◌, ◌≤◌, ◌<◌, ◌≡◌, ◌≢◌, refl, ap, ◌∙◌, Bool, false,
  ◌||◌, [], ◌∷◌, ◌++◌, Text, length, length-append, ◌==◌, arith,
}
use netdj.Base64.{
  Tables, Decoder, alphabet, start, stops, accept, step, loop, finish, fill, tables, base64_decode,
}
use netdj.Base64.Encode.{symbol}
use netdj.Base64.RoundTrip.{loop-symbol}

loop_cut : (t : Tables) (s rest : Text) (d : Decoder) → loop t (s ++ b'=' ∷ rest) d ≡ loop t s d
unfolding loop
loop_cut t [] rest d = refl
loop_cut t (c ∷ s) rest d = ground (arith, loop_cut t s rest (step t c d))

-- What follows the first `=` is never looked at.
pub base64_decode_padding :
    (m : Tables) (s rest : Text) → base64_decode m (s ++ b'=' ∷ rest) ≡ base64_decode m s
unfolding base64_decode
base64_decode_padding m s rest = rw loop_cut

-- The bytes so far, at three for each four symbols; `n` symbols were read before.
abbrev Fits : ℕ → Decoder → Type 0
Fits n d = (4 * length d.res + 3 * d.char_count ≤ 3 * n) × (d.char_count < 4)

step-Fits : (t : Tables) (c n : ℕ) (d : Decoder) → Fits n d → Fits (n + 1) (step t c d)
unfolding step accept
step-Fits t c n d h = grind (arith, length-append)

loop-Fits :
    (t : Tables) (s : Text) (n : ℕ) (d : Decoder) → Fits n d → Fits (n + length s) (loop t s d)
unfolding loop
loop-Fits t [] n d h = ground arith
loop-Fits t (c ∷ s) n d h = ground (arith, step-Fits t c n d h, loop-Fits t s (n + 1) (step t c d))

finish-le : (n : ℕ) (d : Decoder) → Fits n d → 4 * length (finish d) ≤ 3 * n
unfolding finish
finish-le n d h = grind (arith, length-append)

-- The decoded text has at most three bytes for each four characters, whatever the memory holds.
pub length-base64_decode-le :
    (m : Tables) (s : Text) → 4 * length (base64_decode m s) ≤ 3 * length s
unfolding base64_decode
length-base64_decode-le m s =
    omega (arith, finish-le (length s) (loop (tables m) s start), loop-Fits (tables m) s 0 start)

abbrev contains : ℕ → Text → Bool
contains c [] = false
contains c (d ∷ s) = (d == c) || contains c s

-- Filling the tables leaves the entries of all other characters as they were.
fill_other :
    (c i : ℕ) (s : Text) (t : Tables)
    → contains c s ≡ false
    → ((fill i s t).inalphabet c ≡ t.inalphabet c) × ((fill i s t).decoder c ≡ t.decoder c)
unfolding fill
fill_other c i [] t h = (refl, refl)
fill_other c i (d ∷ s) t h = ground (arith, fill_other c (i + 1) s t)

abbrev pub IsForeign : ℕ → Type 0
IsForeign c = (contains c alphabet ≡ false) × (c ≢ b'=')

foreign_ne_zero : (c : ℕ) → contains c alphabet ≡ false → c ≢ 0
foreign_ne_zero c h e = cc (rw e at h)

stops_foreign : (c : ℕ) → IsForeign c → stops c ≡ false
unfolding stops
stops_foreign c f = ground (arith, foreign_ne_zero c f.0, f.1)

inalphabet_foreign : (c : ℕ) (m : Tables) → IsForeign c → (tables m).inalphabet c ≡ m.inalphabet c
unfolding tables
inalphabet_foreign c m f = (fill_other c 0 alphabet m f.0).0

-- One round of the loop at a foreign character, by what the table holds for it.
loop_foreign :
    (m : Tables) (c : ℕ) (rest : Text) (d : Decoder)
    → IsForeign c
    → (m.inalphabet c ≡ 0 → loop (tables m) (c ∷ rest) d ≡ loop (tables m) rest d)
      × (m.inalphabet c ≢ 0
          → loop (tables m) (c ∷ rest) d ≡ loop (tables m) rest (accept ((tables m).decoder c) d))
unfolding loop step
loop_foreign m c rest d f = (
  λ z. ground (arith, stops_foreign c f, inalphabet_foreign c m f),
  λ z. ground (arith, stops_foreign c f, inalphabet_foreign c m f),
)

loop_skip :
    (m : Tables) (c : ℕ) (s rest : Text) (d : Decoder)
    → IsForeign c
    → m.inalphabet c ≡ 0
    → loop (tables m) (s ++ c ∷ rest) d ≡ loop (tables m) (s ++ rest) d
unfolding loop
loop_skip m c [] rest d f z = (loop_foreign m c rest d f).0 z
loop_skip m c (x ∷ s) rest d f z = ground (arith, loop_skip m c s rest (step (tables m) x d) f z)

-- A character outside of the alphabet is skipped where the uninitialised table happens to hold 0.
base64_decode_skip :
    (m : Tables) (c : ℕ) (s rest : Text)
    → IsForeign c
    → m.inalphabet c ≡ 0
    → base64_decode m (s ++ c ∷ rest) ≡ base64_decode m (s ++ rest)
unfolding base64_decode
base64_decode_skip m c s rest f z = rw (loop_skip m c s rest start f z)

-- The result for a character outside of the alphabet hangs on memory that was never written: with
-- one symbol behind it nothing is decoded where the table holds 0, and one byte where it does not.
pub base64_decode_uninitialised :
    (m : Tables) (c v : ℕ)
    → IsForeign c
    → v < 64
    → length (base64_decode m (c ∷ symbol v ∷ [])) ≡ (if m.inalphabet c == 0 then 0 else 1)
unfolding base64_decode loop accept finish
base64_decode_uninitialised m c v f h = elim (Bool-cases (m.inalphabet c == 0)) [
  | inl z ↦ rw z (
      ap (λ d. length (finish d))
        ((loop_foreign m c (symbol v ∷ []) start f).0 (ground arith) ∙ loop-symbol m v [] start h))
  | inr z ↦ rw z (
      ap (λ d. length (finish d))
        ((loop_foreign m c (symbol v ∷ []) start f).1 (ground arith)
          ∙ loop-symbol m v [] (accept ((tables m).decoder c) start) h))
]
