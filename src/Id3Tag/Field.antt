-- ===== src/Id3Tag/Field.antt =====
-- What `read_field` computes, as functions of the bytes alone, and that it never reads outside.
use netdj.Prelude.{
  ℕ, zero, suc, ◌+◌, ◌-◌, ◌≤◌, ◌<◌, ◌≡◌, refl, sym, ap, ◌∙◌, Bool, true, not, ◌&&◌, ◌||◌, some, [],
  ◌∷◌, ◌++◌, Text, length, length-append, get_elem?, take, drop, is_empty, ◌==◌, arith,
  if◌then◌else◌, subst, Bool-cases, inl, inr,
}
use native.Mathlib.Nat.{zero-add, suc-add, add-zero}
use netdj.Id3Tag.{scan, trim, read_field}

unfoldable pub up_to_nul : Text → Text
up_to_nul [] = []
up_to_nul (b ∷ s) = if b == 0 then [] else b ∷ up_to_nul s

abbrev pub is_blank : ℕ → Bool
is_blank b = b == 0 || b == b' '

unfoldable pub strip_right : Text → Text
strip_right [] = []
strip_right (b ∷ s) = let r = strip_right s in if is_empty r && is_blank b then [] else b ∷ r

-- The bytes of a field up to the first NUL, without the blanks at their end.
unfoldable pub field : Text → Text
unfolding up_to_nul strip_right
field s = strip_right (up_to_nul s)

drop-cons :
    (i : ℕ) (s : Text)
    → i < length s
    → (b : ℕ) × (get_elem? s i ≡ some b) × (drop i s ≡ b ∷ drop (suc i) s)
drop-cons i [] h = absurd (omega arith)
drop-cons zero (b ∷ s) h = (b, refl, refl)
drop-cons (suc i) (b ∷ s) h = drop-cons i s (omega arith)

scan-step :
    (buf rest : Text) (off n j b : ℕ)
    → get_elem? buf (off + j) ≡ some b
    → drop (off + j) buf ≡ b ∷ rest
    → scan buf off n (j + 1) ≡ some (j + 1 + length (up_to_nul (take n rest)))
    → scan buf off (suc n) j ≡ some (j + length (up_to_nul (take (suc n) (drop (off + j) buf))))
unfolding scan up_to_nul
scan-step buf rest off n j b e d ih = rw (e, d, ih) (ground arith)

scan_lem :
    (buf : Text) (off n j : ℕ)
    → off + j + n < length buf
    → scan buf off n j ≡ some (j + length (up_to_nul (take n (drop (off + j) buf))))
scan_lem buf off zero j h =
    let (b, e, _) = drop-cons (off + j) buf (omega arith) in
    unfold scan up_to_nul in rw e (ground arith)
scan_lem buf off (suc n) j h =
    let (b, e, d) = drop-cons (off + j) buf (omega arith) in
    let same : off + (j + 1) ≡ suc (off + j) = omega arith in
    scan-step buf (drop (suc (off + j)) buf) off n j b e d (
      subst (λ k. scan buf off n (j + 1) ≡ some (j + 1 + length (up_to_nul (take n (drop k buf)))))
        same (scan_lem buf off n (j + 1) (omega arith)))

strip_right-snoc :
    (s : Text) (b : ℕ)
    → strip_right (s ++ b ∷ []) ≡ (if is_blank b then strip_right s else s ++ b ∷ [])
unfolding strip_right
strip_right-snoc [] b = ground arith
strip_right-snoc (c ∷ s) b = elim (Bool-cases (is_blank b)) [
  | inl e ↦ rw (strip_right-snoc s b, e)
  | inr e ↦ rw (strip_right-snoc s b, e) (cons_kept s c)
]
  where
    cons_kept :
        (s : Text) (c : ℕ)
        → (if is_empty (s ++ b ∷ []) && is_blank c then [] else c ∷ (s ++ b ∷ []))
          ≡ c ∷ (s ++ b ∷ [])
    cons_kept [] c = refl
    cons_kept (x ∷ s) c = refl

take-snoc :
    (j : ℕ) (s : Text) (b : ℕ) → get_elem? s j ≡ some b → take (suc j) s ≡ take j s ++ b ∷ []
take-snoc j [] b h = cc
take-snoc zero (c ∷ s) b h = ground arith
take-snoc (suc j) (c ∷ s) b h = ap (◌∷◌ c) (take-snoc j s b h)

get_elem?-drop : (off j : ℕ) (s : Text) → get_elem? (drop off s) j ≡ get_elem? s (off + j)
get_elem?-drop zero j s = rw zero-add
get_elem?-drop (suc off) j [] = refl
get_elem?-drop (suc off) j (c ∷ s) = rw suc-add (get_elem?-drop off j s)

pub length-take_le : (j : ℕ) (s : Text) → j ≤ length s → length (take j s) ≡ j
length-take_le zero s h = refl
length-take_le (suc j) [] h = absurd (omega arith)
length-take_le (suc j) (c ∷ s) h = omega (arith, length-take_le j s (omega arith))

pub length-drop : (i : ℕ) (s : Text) → length (drop i s) ≡ length s - i
length-drop zero s = omega arith
length-drop (suc i) [] = omega arith
length-drop (suc i) (c ∷ s) = omega (arith, length-drop i s)

trim-step :
    (buf : Text) (off j b : ℕ)
    → length (take j (drop off buf)) ≡ j
    → get_elem? buf (off + j) ≡ some b
    → trim buf off j ≡ some (length (strip_right (take j (drop off buf))))
    → trim buf off (suc j) ≡ some (length (strip_right (take (suc j) (drop off buf))))
unfolding trim
trim-step buf off j b l e ih =
    rw (take-snoc j (drop off buf) b (get_elem?-drop off j buf ∙ e), strip_right-snoc, e, ih)
      (ground (arith, length-append (take j (drop off buf)) (b ∷ [])))

trim_lem :
    (buf : Text) (off j : ℕ)
    → off + j ≤ length buf
    → trim buf off j ≡ some (length (strip_right (take j (drop off buf))))
trim_lem buf off zero h = unfold trim strip_right in refl
trim_lem buf off (suc j) h =
    let (b, e, _) = drop-cons (off + j) buf (omega arith) in
    trim-step buf off j b (length-take_le j (drop off buf) (omega (arith, length-drop off buf))) e
      (trim_lem buf off j (omega arith))

take-strip_right : (s : Text) → take (length (strip_right s)) s ≡ strip_right s
unfolding strip_right
take-strip_right [] = refl
take-strip_right (c ∷ s) = ground (arith, take-strip_right s)

up_to_nul-prefix :
    (n : ℕ) (s : Text) → take (length (up_to_nul (take n s))) s ≡ up_to_nul (take n s)
unfolding up_to_nul
up_to_nul-prefix zero s = refl
up_to_nul-prefix (suc n) [] = refl
up_to_nul-prefix (suc n) (c ∷ s) = ground (arith, up_to_nul-prefix n s)

length-up_to_nul-le : (n : ℕ) (s : Text) → length (up_to_nul (take n s)) ≤ n
unfolding up_to_nul
length-up_to_nul-le zero s = omega arith
length-up_to_nul-le (suc n) [] = omega arith
length-up_to_nul-le (suc n) (c ∷ s) = ground (arith, length-up_to_nul-le n s)

length-up_to_nul_self : (s : Text) → length (up_to_nul s) ≤ length s
unfolding up_to_nul
length-up_to_nul_self [] = omega arith
length-up_to_nul_self (c ∷ s) = ground (arith, length-up_to_nul_self s)

length-strip_right-le : (s : Text) → length (strip_right s) ≤ length s
unfolding strip_right
length-strip_right-le [] = omega arith
length-strip_right-le (c ∷ s) = ground (arith, length-strip_right-le s)

take-take : (i j : ℕ) (s : Text) → i ≤ j → take i (take j s) ≡ take i s
take-take zero j s h = refl
take-take (suc i) zero s h = absurd (omega arith)
take-take (suc i) (suc j) [] h = refl
take-take (suc i) (suc j) (c ∷ s) h = ap (◌∷◌ c) (take-take i j s (omega arith))

-- What follows is about one field: its bytes are `raw`, and `up` those before the first NUL.
take_field :
    (n : ℕ) (s up : Text)
    → take (length up) s ≡ up
    → take (length (strip_right up)) s ≡ strip_right up
take_field n s up e =
    sym (take-take (length (strip_right up)) (length up) s (length-strip_right-le up))
    ∙ rw e (take-strip_right up)

-- Where one byte follows the field, reading it stays inside of the buffer and gives the field's
-- bytes up to the first NUL without the blanks at their end.
pub read_field_lem :
    (buf : Text) (off maxsize : ℕ)
    → off + maxsize < length buf
    → read_field buf off maxsize ≡ some (field (take maxsize (drop off buf)))
unfolding read_field field
read_field_lem buf off maxsize h =
    let rest = drop off buf in
    let up = up_to_nul (take maxsize rest) in
    let fits : off + length up ≤ length buf = omega (arith, length-up_to_nul-le maxsize rest) in
    rw
      (
        scan_lem buf off maxsize 0 (omega arith),
        add-zero,
        zero-add,
        trim_lem buf off (length up) fits,
        up_to_nul-prefix maxsize rest,
      )
      (ap some (take_field maxsize rest up (up_to_nul-prefix maxsize rest)))

-- The shape of a field: no NUL, no blank at its end.
abbrev pub no_nul : Text → Bool
no_nul [] = true
no_nul (c ∷ s) = not (c == 0) && no_nul s

abbrev pub ends_plain : Text → Bool
ends_plain [] = true
ends_plain (c ∷ []) = not (is_blank c)
ends_plain (c ∷ d ∷ s) = ends_plain (d ∷ s)

no_nul-up_to_nul : (s : Text) → no_nul (up_to_nul s) ≡ true
unfolding up_to_nul
no_nul-up_to_nul [] = refl
no_nul-up_to_nul (c ∷ s) = ground (arith, no_nul-up_to_nul s)

no_nul-strip_right : (s : Text) → no_nul s ≡ true → no_nul (strip_right s) ≡ true
unfolding strip_right
no_nul-strip_right [] h = refl
no_nul-strip_right (c ∷ s) h = ground (arith, no_nul-strip_right s)

ends_plain-cons :
    (c : ℕ) (r : Text)
    → ends_plain r ≡ true
    → ends_plain (if is_empty r && is_blank c then [] else c ∷ r) ≡ true
ends_plain-cons c [] h = ground arith
ends_plain-cons c (d ∷ r) h = h

ends_plain-strip_right : (s : Text) → ends_plain (strip_right s) ≡ true
unfolding strip_right
ends_plain-strip_right [] = refl
ends_plain-strip_right (c ∷ s) = ends_plain-cons c (strip_right s) (ends_plain-strip_right s)

-- A field has no NUL in it, no blank at its end and at most the bytes that it was read from.
field_shape :
    (s : Text)
    → (no_nul (field s) ≡ true) × (ends_plain (field s) ≡ true) × (length (field s) ≤ length s)
unfolding field
field_shape s = (
  no_nul-strip_right (up_to_nul s) (no_nul-up_to_nul s),
  ends_plain-strip_right (up_to_nul s),
  omega (arith, length-strip_right-le (up_to_nul s), length-up_to_nul_self s),
)
