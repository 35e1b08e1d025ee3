-- ===== src/Id3Tag.antt =====
-- ID3 version 1 tags: `ID3Tag` of netdj/src/ID3Tag.cc and ID3Tag.h. A file is its bytes, `none` where
-- it cannot be opened. A read outside of `id3buf` is a fault, `none`.
pub mod Styles
pub mod StyleIndex
pub mod Field
pub mod RoundTrip
use netdj.Prelude.{
  ℕ, zero, suc, ◌+◌, ◌-◌, Bool, true, false, ◌&&◌, ◌||◌, Option, none, some, List, [], ◌∷◌, Text,
  codes, length, get_elem?, take, drop, text_eq, ltb, ◌==◌, if◌then◌else◌, ◌>>=◌,
}
use Styles.{Style, id3_styles}

-- `tags[0]` to `tags[5]`
pub record Tags : Type 0 where
  pub title : Text
  pub artist : Text
  pub album : Text
  pub year : Text
  pub note : Text
  pub style : Text

abbrev pub unknown_style : Text
unknown_style = codes "Unknown Style"

-- the loop of `find_style`; the row with no name ends it
search_styles : List Style → ℕ → Text
search_styles [] styleid = unknown_style
search_styles (s ∷ rest) styleid = elim s.name [
  | none ↦ unknown_style
  | some name ↦ if s.styleid == styleid then name else search_styles rest styleid
]

pub find_style : ℕ → Text
unfolding search_styles
find_style = search_styles id3_styles

-- `for (j = 0; id3buf[off + j] && j < maxsize[i]; ++j)`, with `n` rounds left of `maxsize[i]`
scan : Text → ℕ → ℕ → ℕ → Option ℕ
scan id3buf off zero j = do _ ← get_elem? id3buf (off + j); some j
scan id3buf off (suc n) j =
    let rest = scan id3buf off n (j + 1) in
    do b ← get_elem? id3buf (off + j); if b == 0 then some j else rest

-- `while (j && (id3buf[off + j - 1] == '\0' || id3buf[off + j - 1] == ' ')) --j`
trim : Text → ℕ → ℕ → Option ℕ
trim id3buf off zero = some 0
trim id3buf off (suc j) =
    let rest = trim id3buf off j in
    do b ← get_elem? id3buf (off + j); if b == 0 || b == b' ' then rest else some (suc j)

-- one round of the loop over `tags`: the text that `assign` stores
pub read_field : Text → ℕ → ℕ → Option Text
unfolding scan trim
read_field id3buf off maxsize = do
  j ← scan id3buf off maxsize 0
  j' ← trim id3buf off j
  some (take j' (drop off id3buf))

-- the five rounds and the style; `off` starts at 3 and grows by `maxsize[i]`
pub read_tags : Text → Option Tags
unfolding read_field find_style
read_tags id3buf = do
  title ← read_field id3buf 3 30
  artist ← read_field id3buf 33 30
  album ← read_field id3buf 63 30
  year ← read_field id3buf 93 4
  note ← read_field id3buf 97 30
  styleid ← get_elem? id3buf 127
  some (record {
    title = title;
    artist = artist;
    album = album;
    year = year;
    note = note;
    style = find_style styleid;
  })

-- What `InitFromFile` returns: `true` with the new tags, or `false` and the tags stay.
pub data Init : Type 0 where
  loaded : Tags → Init
  not_loaded : Init
  fault : Init

of_read : Option Tags → Init
of_read none = fault
of_read (some t) = loaded t

-- A file of less than 128 bytes makes the second `fseek` fail, and `fread` finds the end.
pub init_from_file : Option Text → Init
unfolding of_read read_tags
init_from_file none = not_loaded
init_from_file (some file) =
    if ltb (length file) 128
    then not_loaded
    else let id3buf = drop (length file - 128) file in
      if text_eq (take 3 id3buf) (codes "TAG") then of_read (read_tags id3buf) else not_loaded
