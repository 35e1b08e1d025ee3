-- ===== src/Legacy/Text.antt =====
-- What netdj/src uses of `std::string`, `std::map` and `sprintf`.
use netdj.Prelude.{
  ℕ, zero, suc, ◌+◌, ◌-◌, ◌*◌, ◌/◌, ◌%◌, ◌≡◌, refl, Bool, true, false, ◌&&◌, ◌||◌, Option, none,
  some, List, [], ◌∷◌, ◌++◌, Text, text_eq, text_eq_iff, lookup, take, drop, ltb, leb, ◌==◌,
  if◌then◌else◌, arith,
}
use netdj.Prelude.Int.{ℤ, pos, negsuc}

-- s.find_last_of(c); `none` is npos
unfoldable pub find_last_of : ℕ → Text → Option ℕ
find_last_of c [] = none
find_last_of c (d ∷ s) = elim (find_last_of c s) [
  | some i ↦ some (suc i)
  | none ↦ if d == c then some 0 else none
]

-- s.substr(0, n) and s.substr(n + 1) at such an index; npos + 1 is 0.
unfoldable pub before_index : Option ℕ → Text → Text
before_index none s = s
before_index (some i) s = take i s

unfoldable pub behind_index : Option ℕ → Text → Text
behind_index none s = s
behind_index (some i) s = drop (suc i) s

-- s.find(c) as what is before the character and behind it
unfoldable pub split_first : ℕ → Text → Option (Text × Text)
split_first c [] = none
split_first c (d ∷ s) = elim (split_first c s) [
  | some p ↦ if d == c then some ([], s) else some (d ∷ p.0, p.1)
  | none ↦ if d == c then some ([], s) else none
]

abbrev pub to_lower : ℕ → ℕ
to_lower c = if leb 65 c && leb c 90 then c + 32 else c

-- `s[s.size() - 1] != '/'`, then `s += '/'`
unfoldable pub with_slash : Text → Text
with_slash [] = b'/' ∷ []
with_slash (c ∷ []) = if c == b'/' then c ∷ [] else c ∷ b'/' ∷ []
with_slash (c ∷ d ∷ s) = c ∷ with_slash (d ∷ s)

-- "%d" of a number below 10 ^ 20
unfoldable pub decimal_digits : ℕ → ℕ → Text → Text
decimal_digits zero n tail = tail
decimal_digits (suc k) n tail =
    let digit = 48 + n % 10 in
    let more = decimal_digits k (n / 10) (digit ∷ tail) in if leb n 9 then digit ∷ tail else more

unfoldable pub decimal : ℕ → Text
unfolding decimal_digits
decimal n = decimal_digits 20 n []

-- the order of `std::string`
unfoldable pub text_lt : Text → Text → Bool
text_lt s [] = false
text_lt [] (d ∷ t) = true
text_lt (c ∷ s) (d ∷ t) = let rest = text_lt s t in if c == d then rest else ltb c d

-- m[k] = v, on the pairs of a `std::map` in the order of its keys; `lookup` is m.find(k).
module _ {ℓ} {V : Type ℓ} where
  unfoldable pub put : Text → V → List (Text × V) → List (Text × V)
  put k v [] = (k, v) ∷ []
  put k v ((j, w) ∷ m) =
      let later = (j, w) ∷ put k v m in
      if text_eq j k then (k, v) ∷ m else if text_lt k j then (k, v) ∷ (j, w) ∷ m else later

  pub lookup-put :
      (k j : Text) (v : V) (m : List (Text × V))
      → lookup j (put k v m) ≡ (if text_eq k j then some v else lookup j m)
  unfolding lookup put
  lookup-put k j v [] = refl
  lookup-put k j v ((i, w) ∷ m) =
      ground (arith, text_eq_iff k j, text_eq_iff i k, text_eq_iff i j, lookup-put k j v m)

-- atoi, for a value that an `int` holds: blanks, a sign, digits
unfoldable pub digits_value : ℕ → Text → ℕ
digits_value n [] = n
digits_value n (c ∷ s) =
    let more = digits_value (n * 10 + (c - 48)) s in if leb 48 c && leb c 57 then more else n

signed : Text → ℤ
unfolding digits_value
signed [] = pos 0
signed (c ∷ s) =
    if c == b'-'
    then elim (digits_value 0 s) [ zero ↦ pos 0 | suc n ↦ negsuc n ]
    else if c == b'+'
    then pos (digits_value 0 s)
    else pos (digits_value 0 (c ∷ s))

unfoldable pub atoi : Text → ℤ
unfolding signed
atoi [] = pos 0
atoi (c ∷ s) =
    let rest = atoi s in if c == 32 || (leb 9 c && leb c 13) then rest else signed (c ∷ s)

abbrev pub flat : List Text → Text
flat [] = []
flat (t ∷ ts) = t ++ flat ts
