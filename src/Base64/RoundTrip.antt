-- ===== src/Base64/RoundTrip.antt =====
-- Decoding is a left inverse of the RFC encoder, whatever the uninitialised memory holds.
use netdj.Prelude.{
  ℕ, zero, suc, ◌+◌, ◌*◌, ◌/◌, ◌%◌, ◌^◌, ◌<◌, ◌≡◌, refl, ◌∙◌, ap, Bool, true, not, ◌&&◌, [], ◌∷◌,
  ◌++◌, Text, All, ◌==◌, arith, append_assoc, append-nil,
}
use netdj.Base64.{Tables, Decoder, start, stops, accept, step, loop, finish, tables, base64_decode}
use netdj.Base64.Encode.{symbol, encode}

-- The symbols that a test holds of, from the last one down.
holds_of : (ℕ → Bool) → ℕ → Bool
holds_of test zero = true
holds_of test (suc last) = holds_of test last && test last

holds_of-lt :
    (test : ℕ → Bool) (count v : ℕ) → v < count → holds_of test count ≡ true → test v ≡ true
unfolding holds_of
holds_of-lt test zero v below h = absurd (omega arith)
holds_of-lt test (suc last) v below h = ground (arith, holds_of-lt test last v)

-- Each symbol passes the stop test, is in the alphabet, and has its index for a value.
abbrev symbol_good : Tables → ℕ → Bool
symbol_good m v =
    not (stops (symbol v))
    && not ((tables m).inalphabet (symbol v) == 0)
    && (tables m).decoder (symbol v) == v

symbols_good : (m : Tables) → holds_of (symbol_good m) 64 ≡ true
unfolding holds_of stops tables symbol
symbols_good m = refl

symbol_lem : (m : Tables) (v : ℕ) → v < 64 → symbol_good m v ≡ true
symbol_lem m v h = holds_of-lt (symbol_good m) 64 v h (symbols_good m)

pub loop-symbol :
    (m : Tables) (v : ℕ) (s : Text) (d : Decoder)
    → v < 64
    → loop (tables m) (symbol v ∷ s) d ≡ loop (tables m) s (accept v d)
unfolding loop step
loop-symbol m v s d h = ground (arith, symbol_lem m v h)

-- Bytes that a group of symbols stands for, and the way back.
abbrev pub IsBytes : Text → Type 0
IsBytes = All (λ b. b < 256)

-- Four symbols, at any values, append the three bytes of their 24 bits.
accept_four :
    (a b c : ℕ) (r : Text)
    → a < 256
    → b < 256
    → c < 256
    → accept (c % 64) (
        accept
          (b % 16 * 4 + c / 64)
          (accept (a % 4 * 16 + b / 16) (accept (a / 4) (record start { res = r }))))
      ≡ record start { res = r ++ (a ∷ b ∷ c ∷ []) }
unfolding accept
accept_four a b c r ha hb hc =
    let n =
      (((0 + a / 4) * 2 ^ 6 + (a % 4 * 16 + b / 16)) * 2 ^ 6 + (b % 16 * 4 + c / 64)) * 2 ^ 6
      + c % 64 in
    let hi : n / 2 ^ 16 % 256 ≡ a = omega arith in
    let mid : n / 2 ^ 8 % 256 ≡ b = omega arith in
    let lo : n % 256 ≡ c = omega arith in rw (hi, mid, lo)

loop-group :
    (m : Tables) (a b c : ℕ) (s r : Text)
    → a < 256
    → b < 256
    → c < 256
    → loop (tables m) (encode (a ∷ b ∷ c ∷ s)) (record start { res = r })
      ≡ loop (tables m) (encode s) (record start { res = r ++ (a ∷ b ∷ c ∷ []) })
unfolding encode
loop-group m a b c s r ha hb hc = rw (
  loop-symbol m (a / 4) _ _ (omega arith),
  loop-symbol m (a % 4 * 16 + b / 16) _ _ (omega arith),
  loop-symbol m (b % 16 * 4 + c / 64) _ _ (omega arith),
  loop-symbol m (c % 64) _ _ (omega arith),
  accept_four a b c r ha hb hc,
)

loop-pad : (t : Tables) (s : Text) (d : Decoder) → loop t (b'=' ∷ s) d ≡ d
unfolding loop
loop-pad t s d = refl

loop-encode :
    (m : Tables) (s r : Text)
    → IsBytes s
    → finish (loop (tables m) (encode s) (record start { res = r })) ≡ r ++ s
unfolding encode finish
loop-encode m [] r h = unfold loop in simp append-nil
loop-encode m (a ∷ []) r h =
    rw
      (
        loop-symbol m (a / 4) _ _ (omega arith),
        loop-symbol m (a % 4 * 16) _ _ (omega arith),
        loop-pad,
      )
      (unfold accept in
        let e : ((0 + a / 4) * 64 + a % 4 * 16) * 64 / 1024 % 256 ≡ a = omega arith in
        ap (λ x. r ++ x ∷ []) e)
loop-encode m (a ∷ b ∷ []) r h =
    rw
      (
        loop-symbol m (a / 4) _ _ (omega arith),
        loop-symbol m (a % 4 * 16 + b / 16) _ _ (omega arith),
        loop-symbol m (b % 16 * 4) _ _ (omega arith),
        loop-pad,
      )
      (unfold accept in
        let n = (((0 + a / 4) * 64 + (a % 4 * 16 + b / 16)) * 64 + b % 16 * 4) * 64 in
        let e : n / 65536 % 256 ≡ a = omega arith in
        let f : n / 256 % 256 ≡ b = omega arith in rw (e, f))
loop-encode m (a ∷ b ∷ c ∷ s) r h =
    rw (loop-group m a b c s r h.0 h.1.0 h.1.1.0)
      (loop-encode m s (r ++ (a ∷ b ∷ c ∷ [])) h.1.1.1 ∙ append_assoc r (a ∷ b ∷ c ∷ []) s)

-- For every sequence of bytes and whatever the uninitialised tables held, decoding the RFC 4648
-- encoding of the bytes returns them.
pub base64_decode-encode : (m : Tables) (s : Text) → IsBytes s → base64_decode m (encode s) ≡ s
unfolding base64_decode
base64_decode-encode m s h = loop-encode m s [] h
