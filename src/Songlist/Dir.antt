-- ===== src/Songlist/Dir.antt =====
-- `Collection_Songlist_Dir::Update` of netdj2/engine/Collection_Songlist_Dir.cpp. What the directory
-- holds comes from QDir, in QDir's order: it is an argument.
-- Times are seconds, 0 for the null time of a new QDateTime.
use netdj.Prelude.{
  ℕ, zero, suc, ◌+◌, Bool, not, ◌||◌, Option, none, some, List, [], ◌∷◌, ◌++◌, Text, codes, leb,
  if◌then◌else◌,
}
use netdj.Outcome.{Outcome, returns, throws, faults, spins, std_exception}
use netdj.Song.{Song, song_file, set_delete_after_play}
use netdj.Songlist.{Songlist, dir, get_new_unid}

-- What the code asks of a QFileInfo, and what `lstat` says of it: `none` where the call fails.
pub record FileInfo : Type 0 where
  pub path : Text
  pub is_sym_link : Bool
  pub last_modified : ℕ
  pub lstat_ctime : Option ℕ

-- What QDir finds: no directory, one for which `entryInfoList` returns a null pointer, or its entries
pub data Listing : Type 0 where
  missing unreadable : Listing
  holds : List FileInfo → Listing

-- `fDate`; `none` where the loop goes on by `continue`
unfoldable pub file_date : FileInfo → Option ℕ
file_date fi = if fi.is_sym_link then fi.lstat_ctime else some fi.last_modified

-- what the loop changes: `mLastTimeStamp`, `mNextUNID`, `mSonglist` and `newlist`
pub record Scan : Type 0 where
  pub stamp : ℕ
  pub next_unid : ℕ
  pub songs : List Song
  pub newlist : List Song

-- the body of the `if` on the date
unfoldable pub take_file : (ℕ → Bool) → Bool → Bool → FileInfo → ℕ → Scan → Scan
take_file memory is_queue delete_after fi date s =
    let unid = get_new_unid s.next_unid in
    let newsong = set_delete_after_play delete_after (song_file memory fi.path unid) in
    if is_queue
    then record s { stamp = date; next_unid = unid; songs = s.songs ++ newsong ∷ [] }
    else record s { stamp = date; next_unid = unid; newlist = s.newlist ++ newsong ∷ [] }

unfoldable pub visit : (ℕ → Bool) → Bool → Bool → FileInfo → ℕ → Scan → Scan
unfolding take_file
visit memory is_queue delete_after fi date s =
    if leb s.stamp date || not is_queue then take_file memory is_queue delete_after fi date s else s

-- The `while` loop. After a failed `lstat` the iterator stays where it is.
unfoldable pub scan : ℕ → (ℕ → Bool) → Bool → Bool → List FileInfo → Scan → Option Scan
scan fuel memory is_queue delete_after [] s = some s
scan zero memory is_queue delete_after (fi ∷ rest) s = none
scan (suc fuel) memory is_queue delete_after (fi ∷ rest) s = elim (file_date fi) [
  | none ↦ scan fuel memory is_queue delete_after (fi ∷ rest) s
  | some date ↦
      scan fuel memory is_queue delete_after rest (visit memory is_queue delete_after fi date s)
]

-- behind the loop: one second more, and the swap
finish : Text → Bool → Songlist → Option Scan → Songlist × Outcome (Unit {0})
finish directory delete_after c none = (c, spins)
finish directory delete_after c (some s) = (
  record c {
    next_unid = s.next_unid;
    songs = if c.is_queue then s.songs else s.newlist;
    kind = dir directory (s.stamp + 1) delete_after;
  },
  returns tt,
)

abbrev pub no_directory : Text → Text
no_directory d = codes "Could not open directory '" ++ (d ++ codes "'!")

-- Update(), on the fields of the class. The null pointer is used at once, by the iterator.
unfoldable pub update_dir :
    ℕ → (ℕ → Bool) → Listing → Text → ℕ → Bool → Songlist → Songlist × Outcome (Unit {0})
unfolding finish
update_dir fuel memory missing directory stamp delete_after c =
    (c, throws (std_exception (no_directory directory)))
update_dir fuel memory unreadable directory stamp delete_after c = (c, faults)
update_dir fuel memory (holds files) directory stamp delete_after c =
    finish directory delete_after c (
      scan fuel memory c.is_queue delete_after files
        (record { stamp = stamp; next_unid = c.next_unid; songs = c.songs; newlist = [] }))
