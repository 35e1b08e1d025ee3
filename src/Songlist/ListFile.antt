-- ===== src/Songlist/ListFile.antt =====
-- `Collection_Songlist_File::Update` of netdj2/engine/Collection_Songlist_File.cpp. The file is an
-- argument: its date, 0 where there is none, and its lines, `none` where it cannot be read.
use netdj.Prelude.{
  ℕ, Bool, true, Option, none, some, List, [], ◌∷◌, ◌++◌, Text, codes, leb, ◌==◌, if◌then◌else◌,
}
use netdj.Outcome.{Outcome, returns, throws, std_exception}
use netdj.Song.{Song, song_file}
use netdj.Songlist.{Songlist, list_file, get_new_unid}

pub record SongFileList : Type 0 where
  pub last_modified : ℕ
  pub lines : Option (List Text)

-- `line.isEmpty() || line[0] == '#'`
unfoldable pub is_skipped : Text → Bool
is_skipped [] = true
is_skipped (c ∷ s) = c == b'#'

-- the loop over the lines: the new counter and `newlist`
unfoldable pub read_lines : (ℕ → Bool) → List Text → ℕ → List Song → ℕ × List Song
unfolding is_skipped
read_lines memory [] next newlist = (next, newlist)
read_lines memory (line ∷ rest) next newlist =
    let unid = get_new_unid next in
    let taken = read_lines memory rest unid (newlist ++ song_file memory line unid ∷ []) in
    let skipped = read_lines memory rest next newlist in if is_skipped line then skipped else taken

abbrev pub no_file : Text → Text
no_file f = codes "Could not open file '" ++ (f ++ codes "' for reading!")

-- `mFiledate` is set before the file is opened, and stays set when that fails.
read_file : (ℕ → Bool) → Option (List Text) → Text → ℕ → Songlist → Songlist × Outcome (Unit {0})
read_file memory none filename date c =
    (record c { kind = list_file filename date }, throws (std_exception (no_file filename)))
read_file memory (some lines) filename date c =
    let read = read_lines memory lines c.next_unid [] in
    (record c { kind = list_file filename date; next_unid = read.0; songs = read.1 }, returns tt)

-- Update(), on the fields of the class
unfoldable pub update_list_file :
    (ℕ → Bool) → SongFileList → Text → ℕ → Songlist → Songlist × Outcome (Unit {0})
unfolding read_file
update_list_file memory file filename filedate c =
    if leb file.last_modified filedate
    then (c, returns tt)
    else read_file memory file.lines filename file.last_modified c
