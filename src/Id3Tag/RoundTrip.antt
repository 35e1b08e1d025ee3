-- ===== src/Id3Tag/RoundTrip.antt =====
-- Reading back a tag that was written behind the audio data, and that no read leaves `id3buf`.
use netdj.Prelude.{
  ℕ, zero, suc, ◌+◌, ◌-◌, ◌≤◌, ◌<◌, ◌≡◌, refl, ap, ◌≢◌, true, false, some, [], ◌∷◌, ◌++◌, Text,
  codes, length, length-append, get_elem?, take, drop, text_eq, ltb, arith, append_assoc, ◌∙◌,
  Option, none, text_eq_refl, Bool-cases, inl, inr,
}
use netdj.Id3Tag.{Tags, loaded, fault, find_style, read_field, read_tags, init_from_file, of_read}
use netdj.Id3Tag.Field.{
  up_to_nul, strip_right, field, is_blank, no_nul, ends_plain, length-drop, read_field_lem,
}

abbrev pub replicate : ℕ → ℕ → Text
replicate zero p = []
replicate (suc n) p = p ∷ replicate n p

length-replicate : (n p : ℕ) → length (replicate n p) ≡ n
length-replicate zero p = refl
length-replicate (suc n) p = ap suc (length-replicate n p)

-- A text in a field of `n` bytes, filled up with NULs or with spaces.
abbrev pub pad : ℕ → ℕ → Text → Text
pad p n s = s ++ replicate (n - length s) p

-- A text that a field of `n` bytes can hold.
pub record Fits (n : ℕ) (s : Text) : Type 0 where
  pub short : length s ≤ n
  pub clean : no_nul s ≡ true
  pub plain : ends_plain s ≡ true

field-replicate : (p n : ℕ) → is_blank p ≡ true → strip_right (up_to_nul (replicate n p)) ≡ []
unfolding up_to_nul strip_right
field-replicate p zero h = refl
field-replicate p (suc n) h = ground (arith, field-replicate p n h)

field-append :
    (p n : ℕ) (s : Text)
    → is_blank p ≡ true
    → no_nul s ≡ true
    → ends_plain s ≡ true
    → field (s ++ replicate n p) ≡ s
unfolding field up_to_nul strip_right
field-append p n [] h c e = field-replicate p n h
field-append p n (x ∷ []) h c e = ground (arith, field-replicate p n h)
field-append p n (x ∷ y ∷ s) h c e = ground (arith, field-append p n (y ∷ s) h)

length-pad : (p n : ℕ) (s : Text) → length s ≤ n → length (pad p n s) ≡ n
length-pad p n s h =
    omega (arith, length-append s (replicate (n - length s) p), length-replicate (n - length s) p)

take-append : (s t : Text) (n : ℕ) → length s ≡ n → take n (s ++ t) ≡ s
take-append [] t zero h = refl
take-append [] t (suc n) h = absurd (omega arith)
take-append (c ∷ s) t zero h = absurd (omega arith)
take-append (c ∷ s) t (suc n) h = ap (◌∷◌ c) (take-append s t n (omega arith))

drop-append : (s t : Text) (n : ℕ) → length s ≡ n → drop n (s ++ t) ≡ t
drop-append [] t zero h = refl
drop-append [] t (suc n) h = absurd (omega arith)
drop-append (c ∷ s) t zero h = absurd (omega arith)
drop-append (c ∷ s) t (suc n) h = drop-append s t n (omega arith)

-- One padded field, `block`, between what is before it and what follows.
read_field-pad :
    (p n off : ℕ) (before s after : Text)
    → is_blank p ≡ true
    → Fits n s
    → length before ≡ off
    → 0 < length after
    → read_field (before ++ (pad p n s ++ after)) off n ≡ some s
read_field-pad p n off before s after h f l a =
    let block = pad p n s in
    let width : length block ≡ n = length-pad p n s f.short in
    let total : length (before ++ (block ++ after)) ≡ off + n + length after =
      omega (arith, length-append before (block ++ after), length-append block after) in
    rw
      (
        read_field_lem (before ++ (block ++ after)) off n (omega arith),
        drop-append before (block ++ after) off l,
        take-append block after n width,
      )
      (ap some (field-append p (n - length s) s h f.clean f.plain))

pub record FitsTag (t : Tags) : Type 0 where
  pub title : Fits 30 t.title
  pub artist : Fits 30 t.artist
  pub album : Fits 30 t.album
  pub year : Fits 4 t.year
  pub note : Fits 30 t.note

-- The 128 bytes of a tag, each text filled up to its field's width.
unfoldable pub write_tag : ℕ → Tags → ℕ → Text
write_tag p t styleid =
    codes "TAG"
    ++ (pad p 30 t.title
        ++ (pad p 30 t.artist
            ++ (pad p 30 t.album ++ (pad p 4 t.year ++ (pad p 30 t.note ++ styleid ∷ [])))))

read_tags-parts :
    (buf : Text) (t : Tags) (styleid : ℕ)
    → read_field buf 3 30 ≡ some t.title
    → read_field buf 33 30 ≡ some t.artist
    → read_field buf 63 30 ≡ some t.album
    → read_field buf 93 4 ≡ some t.year
    → read_field buf 97 30 ≡ some t.note
    → get_elem? buf 127 ≡ some styleid
    → read_tags buf ≡ some (record t { style = find_style styleid })
unfolding read_tags
read_tags-parts buf t styleid e1 e2 e3 e4 e5 e6 = rw (e1, e2, e3, e4, e5, e6)

get_elem?-append : (s : Text) (x n : ℕ) → length s ≡ n → get_elem? (s ++ x ∷ []) n ≡ some x
get_elem?-append [] x zero h = refl
get_elem?-append [] x (suc n) h = absurd (omega arith)
get_elem?-append (c ∷ s) x zero h = absurd (omega arith)
get_elem?-append (c ∷ s) x (suc n) h = get_elem?-append s x n (omega arith)

-- The fields behind a header `m` of three bytes, each block shut but for its width.
module _ (p : ℕ) (t : Tags) (styleid : ℕ) (blank : is_blank p ≡ true) (f : FitsTag t) where
  read_blocks :
      (m b1 b2 b3 b4 b5 : Text)
      → length m ≡ 3
      → b1 ≡ pad p 30 t.title
      → b2 ≡ pad p 30 t.artist
      → b3 ≡ pad p 30 t.album
      → b4 ≡ pad p 4 t.year
      → b5 ≡ pad p 30 t.note
      → read_tags (m ++ (b1 ++ (b2 ++ (b3 ++ (b4 ++ (b5 ++ styleid ∷ []))))))
        ≡ some (record t { style = find_style styleid })
  read_blocks m b1 b2 b3 b4 b5 h e1 e2 e3 e4 e5 =
      let w1 : length b1 ≡ 30 = rw e1 (length-pad p 30 t.title f.title.short) in
      let w2 : length b2 ≡ 30 = rw e2 (length-pad p 30 t.artist f.artist.short) in
      let w3 : length b3 ≡ 30 = rw e3 (length-pad p 30 t.album f.album.short) in
      let w4 : length b4 ≡ 4 = rw e4 (length-pad p 4 t.year f.year.short) in
      let w5 : length b5 ≡ 30 = rw e5 (length-pad p 30 t.note f.note.short) in
      let m1 = m ++ b1 in
      let m2 = m1 ++ b2 in
      let m3 = m2 ++ b3 in
      let m4 = m3 ++ b4 in
      let l1 : length m1 ≡ 33 = omega (arith, length-append m b1) in
      let l2 : length m2 ≡ 63 = omega (arith, length-append m1 b2) in
      let l3 : length m3 ≡ 93 = omega (arith, length-append m2 b3) in
      let l4 : length m4 ≡ 97 = omega (arith, length-append m3 b4) in
      let r5 = b5 ++ styleid ∷ [] in
      let r4 = b4 ++ r5 in
      let r3 = b3 ++ r4 in
      let r2 = b2 ++ r3 in
      let p5 : 0 < length r5 = omega (arith, length-append b5 (styleid ∷ [])) in
      let p4 : 0 < length r4 = omega (arith, length-append b4 r5) in
      let p3 : 0 < length r3 = omega (arith, length-append b3 r4) in
      let p2 : 0 < length r2 = omega (arith, length-append b2 r3) in
      let q1 = append_assoc m b1 r2 in
      let q2 = append_assoc m1 b2 r3 ∙ q1 in
      let q3 = append_assoc m2 b3 r4 ∙ q2 in
      let q4 = append_assoc m3 b4 r5 ∙ q3 in
      let q5 = append_assoc m4 b5 (styleid ∷ []) ∙ q4 in
      let l5 : length (m4 ++ b5) ≡ 127 = omega (arith, length-append m4 b5) in
      read_tags-parts _ t styleid (rw e1 (read_field-pad p 30 3 m t.title r2 blank f.title h p2))
        (rw (← q1, e2) (read_field-pad p 30 33 m1 t.artist r3 blank f.artist l1 p3))
        (rw (← q2, e3) (read_field-pad p 30 63 m2 t.album r4 blank f.album l2 p4))
        (rw (← q3, e4) (read_field-pad p 4 93 m3 t.year r5 blank f.year l3 p5))
        (rw (← q4, e5)
          (read_field-pad p 30 97 m4 t.note (styleid ∷ []) blank f.note l4 (omega arith)))
        (rw (← q5) (get_elem?-append (m4 ++ b5) styleid 127 l5))

length-write_tag :
    (p : ℕ) (t : Tags) (styleid : ℕ) → FitsTag t → length (write_tag p t styleid) ≡ 128
unfolding write_tag
length-write_tag p t styleid f =
    let r5 = pad p 30 t.note ++ styleid ∷ [] in
    let r4 = pad p 4 t.year ++ r5 in
    let r3 = pad p 30 t.album ++ r4 in
    let r2 = pad p 30 t.artist ++ r3 in
    omega (
      arith,
      length-append (pad p 30 t.title) r2,
      length-append (pad p 30 t.artist) r3,
      length-append (pad p 30 t.album) r4,
      length-append (pad p 4 t.year) r5,
      length-append (pad p 30 t.note) (styleid ∷ []),
      length-pad p 30 t.title f.title.short,
      length-pad p 30 t.artist f.artist.short,
      length-pad p 30 t.album f.album.short,
      length-pad p 4 t.year f.year.short,
      length-pad p 30 t.note f.note.short,
    )

read_tags-write_tag :
    (p : ℕ) (t : Tags) (styleid : ℕ)
    → is_blank p ≡ true
    → FitsTag t
    → read_tags (write_tag p t styleid) ≡ some (record t { style = find_style styleid })
unfolding write_tag
read_tags-write_tag p t styleid blank f =
    read_blocks p t styleid blank f (codes "TAG") _ _ _ _ _ refl refl refl refl refl refl

init-cases :
    (file buf : Text)
    → 128 ≤ length file
    → drop (length file - 128) file ≡ buf
    → take 3 buf ≡ codes "TAG"
    → init_from_file (some file) ≡ of_read (read_tags buf)
unfolding init_from_file
init-cases file buf long e tag =
    let b : ltb (length file) 128 ≡ false = ground arith in
    rw (b, e, tag, text_eq_refl (codes "TAG"))

-- A tag whose texts fit their fields, filled up with NULs or with spaces and written behind any
-- audio data, is read back unchanged, with the name of its style byte.
pub init_from_file-write_tag :
    (p : ℕ) (audio : Text) (t : Tags) (styleid : ℕ)
    → is_blank p ≡ true
    → FitsTag t
    → init_from_file (some (audio ++ write_tag p t styleid))
      ≡ loaded (record t { style = find_style styleid })
init_from_file-write_tag p audio t styleid blank f =
    let tag = write_tag p t styleid in
    let w : length tag ≡ 128 = length-write_tag p t styleid f in
    let whole : length (audio ++ tag) ≡ length audio + length tag = length-append audio tag in
    let at : length audio ≡ length (audio ++ tag) - 128 = omega arith in
    init-cases (audio ++ tag) tag (omega arith) (drop-append audio tag _ at)
      (unfold write_tag in refl)
    ∙ unfold of_read in rw (read_tags-write_tag p t styleid blank f)

get_elem?-total : (s : Text) (i : ℕ) → i < length s → (b : ℕ) × (get_elem? s i ≡ some b)
get_elem?-total [] i h = absurd (omega arith)
get_elem?-total (c ∷ s) zero h = (c, refl)
get_elem?-total (c ∷ s) (suc i) h = get_elem?-total s i (omega arith)

read_tags-total : (buf : Text) → length buf ≡ 128 → (t : Tags) × (read_tags buf ≡ some t)
read_tags-total buf h =
    let at = λ (off n : ℕ) (fits : off + n < length buf). read_field_lem buf off n fits in
    let (styleid, e) = get_elem?-total buf 127 (omega arith) in
    let found = λ (off n : ℕ). field (take n (drop off buf)) in
    let t : Tags = record {
      title = found 3 30;
      artist = found 33 30;
      album = found 63 30;
      year = found 93 4;
      note = found 97 30;
      style = [];
    } in
    (
      record t { style = find_style styleid },
      read_tags-parts buf t styleid (at 3 30 (omega arith)) (at 33 30 (omega arith))
          (at 63 30 (omega arith)) (at 93 4 (omega arith)) (at 97 30 (omega arith)) e,
    )

of_read-ne-fault : (o : Option Tags) (t : Tags) → o ≡ some t → of_read o ≢ fault
unfolding of_read
of_read-ne-fault none t h e = cc
of_read-ne-fault (some u) t h e = cc

-- No file, however short or damaged, makes the code read outside of its buffer.
pub init_from_file-ne-fault : (file : Option Text) → init_from_file file ≢ fault
unfolding init_from_file
init_from_file-ne-fault none = λ e. cc
init_from_file-ne-fault (some file) =
    let buf = drop (length file - 128) file in
    elim (Bool-cases (ltb (length file) 128)) [
      | inl short ↦ rw short (λ e. cc)
      | inr long ↦
          let whole : length buf ≡ 128 = ground (arith, length-drop (length file - 128) file) in
          let (t, e) = read_tags-total buf whole in
          let ok = of_read-ne-fault (read_tags buf) t e in
          elim (Bool-cases (text_eq (take 3 buf) (codes "TAG"))) [
            | inl tag ↦ rw (long, tag) ok
            | inr other ↦ rw (long, other) (λ e. cc)
          ]
    ]
