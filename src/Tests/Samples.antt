-- ===== src/Tests/Samples.antt =====
-- Concrete instances of the interfaces, and data, for the tests.
use netdj.Prelude.{
  ℕ, zero, suc, ◌+◌, ◌*◌, ◌-◌, ◌/◌, ◌%◌, Bool, true, false, Option, none, some, List, [], ◌∷◌, ◌++◌,
  Text, codes, take, drop, leb, ◌==◌, if◌then◌else◌,
}
use netdj.Prelude.Int.{ℤ, pos, negsuc}
use netdj.Base64.{Tables}
use netdj.Collections.{World}
use netdj.Qt.{QtText}
use netdj.Song.{Song}
use netdj.SongInfo.{SongInfo, unknown}
use netdj.Songlist.{Songlist, plain}
use netdj.Songlist.Dir.{FileInfo, missing}
use netdj.Xml.{Dom}

-- the parts of a text between the separators
abbrev pub split_at : ℕ → Text → Text → List Text
split_at sep [] part = part ∷ []
split_at sep (c ∷ s) part =
    let ended = split_at sep s [] in
    let longer = split_at sep s (part ++ c ∷ []) in if c == sep then part ∷ ended else longer

abbrev pub join : ℕ → List Text → Text
join sep [] = []
join sep (s ∷ []) = s
join sep (s ∷ t ∷ rest) = s ++ sep ∷ join sep (t ∷ rest)

abbrev pub section_of : ℕ → ℕ → Option ℕ → Text → Text
section_of sep first none s = join sep (drop first (split_at sep s []))
section_of sep first (some last) s =
    join sep (take (last + 1 - first) (drop first (split_at sep s [])))

abbrev pub strip_left : Text → Text
strip_left [] = []
strip_left (c ∷ s) = let rest = strip_left s in if c == b' ' then rest else c ∷ s

abbrev pub digits : Text → ℕ → Option ℕ
digits [] n = some n
digits (c ∷ s) n =
    let more = digits s (n * 10 + (c - 48)) in
    if leb 48 c then (if leb c 57 then more else none) else none

abbrev pub signed : (ℕ → ℤ) → Option ℕ → ℤ
signed f none = pos 0
signed f (some n) = f n

abbrev pub negative : ℕ → ℤ
negative zero = pos 0
negative (suc n) = negsuc n

abbrev pub int_of : Text → ℤ
int_of [] = pos 0
int_of (c ∷ s) = if c == b'-' then signed negative (digits s 0) else signed pos (digits (c ∷ s) 0)

-- The decimal digits, with the number of rounds.
abbrev pub decimal : ℕ → ℕ → Text → Text
decimal zero n tail = tail
decimal (suc k) n tail =
    let more = decimal k (n / 10) ((48 + n % 10) ∷ tail) in
    if leb n 9 then (48 + n % 10) ∷ tail else more

abbrev pub text_of : ℤ → Text
text_of (pos n) = decimal 20 n []
text_of (negsuc n) = b'-' ∷ decimal 20 (n + 1) []

abbrev pub plain_text : QtText
plain_text = record { section = section_of; strip = strip_left; to_int = int_of; set_num = text_of }

-- Elements as the texts that a writer would print, in a simple form.
abbrev pub text_dom : Dom Text
text_dom = record {
  element = λ name. name;
  text_node = λ s. s;
  set_attribute = λ x name value. x ++ (codes " " ++ (name ++ (codes "=" ++ value)));
  set_number = λ x name n. x ++ (codes " " ++ (name ++ (codes "=" ++ decimal 20 n [])));
  append_child = λ x child. x ++ (codes "(" ++ (child ++ codes ")"));
  num = λ n. decimal 20 n [];
  to_text = λ x. x;
}

abbrev pub clear_memory : Tables
clear_memory = record { inalphabet = λ k. 0; decoder = λ k. 0 }

abbrev pub no_info : SongInfo
no_info = record {
  description = [];
  artist = [];
  album = [];
  title = [];
  genre = [];
  track = 0;
  year = 0;
  size = 0;
  owner = [];
  length = 0;
  media_type = unknown;
}

abbrev pub untagged : Text → SongInfo
untagged filename = no_info

abbrev pub new_song : Text → ℕ → Song
new_song name n = record { filename = name; unid = n; delete_after_play = false }

abbrev pub two_songs : List Song
two_songs = new_song (codes "a.mp3") 1 ∷ new_song (codes "b.mp3") 2 ∷ []

abbrev pub list_of : Text → Bool → List Song → Songlist
list_of name is_q ss = record {
  identifier = name;
  description = name;
  next_unid = 2;
  songs = ss;
  is_queue = is_q;
  kind = plain;
}

abbrev pub cleared : ℕ → Bool
cleared unid = false

abbrev pub empty_world : World
empty_world = record {
  directory = λ d. missing;
  file = λ f. record { last_modified = 0; lines = none };
  fuel = 10;
  memory = cleared;
}

abbrev pub regular : Text → ℕ → FileInfo
regular name date = record {
  path = name;
  is_sym_link = false;
  last_modified = date;
  lstat_ctime = some date;
}

abbrev pub broken_link : FileInfo
broken_link = record { path = codes "x"; is_sym_link = true; last_modified = 7; lstat_ctime = none }
