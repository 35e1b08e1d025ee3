-- ===== src/Songlist.antt =====
-- The song lists of netdj2/engine: `CollectionBase`, `Collection_Songlist` and its two subclasses.
-- The classes are one record with a constructor of `Kind` for each class. The mutex of each list
-- serialises its operations, which are atomic here.
pub mod Dir
pub mod ListFile
pub mod Queue
pub mod DirUpdate
pub mod DirOrder
pub mod FileUpdate
use netdj.Prelude.{
  ℕ, ◌+◌, ◌%◌, ◌^◌, Bool, true, false, Option, none, some, List, [], ◌∷◌, ◌++◌, Text, codes, length,
  get_elem?, if◌then◌else◌,
}
use netdj.Outcome.{Outcome, returns, throws, faults, Exception, empty_collection}
use netdj.Rand.{get_rand}
use netdj.Song.{Song}

-- the fields that each subclass adds
pub data Kind : Type 0 where
  plain : Kind
  dir : (directory : Text) (last_time_stamp : ℕ) (delete_after_play : Bool) → Kind
  list_file : (filename : Text) (filedate : ℕ) → Kind

pub record Songlist : Type 0 where
  pub identifier : Text
  pub description : Text
  pub next_unid : ℕ
  pub songs : List Song
  pub is_queue : Bool
  pub kind : Kind

-- Collection_Songlist(aId, aDescr, aIsQ)
unfoldable pub make : Text → Text → Bool → Kind → Songlist
make id descr is_q kind = record {
  identifier = id;
  description = descr;
  next_unid = 0;
  songs = [];
  is_queue = is_q;
  kind = kind;
}

-- `++mNextUNID` on a u_int32_t: the new counter, which is the result too
unfoldable pub get_new_unid : ℕ → ℕ
get_new_unid next = (next + 1) % 2 ^ 32

-- int Size() const
unfoldable pub size : Songlist → ℕ
size c = length c.songs

abbrev pub is_empty_text : Text
is_empty_text = codes "Cannot get a song, collection is empty"

-- `mSonglist[i]`: `deque::operator[]` checks nothing
unfoldable pub at : List Song → ℕ → Outcome Song
at songs i = elim (get_elem? songs i) [ none ↦ faults | some s ↦ returns s ]

-- ISong* GetNextSong(), on a list that is known; `rand` is what the C library's generator gives
unfoldable pub next_of : ℕ → List Song → Songlist → Songlist × Outcome Song
next_of rand [] c = (c, throws (empty_collection is_empty_text))
next_of rand (s ∷ rest) c =
    if c.is_queue
    then (record c { songs = rest }, returns s)
    else (c, at (s ∷ rest) (get_rand (length (s ∷ rest)) rand))

unfoldable pub get_next_song : ℕ → Songlist → Songlist × Outcome Song
unfolding next_of at
get_next_song rand c = next_of rand c.songs c

-- GetSong(aPos)
unfoldable pub get_song : ℕ → Songlist → Outcome Song
unfolding at
get_song pos c = at c.songs pos

-- AddSong(aSng), which takes no lock
unfoldable pub add_song : Song → Songlist → Songlist × Bool
add_song s c = (record c { songs = c.songs ++ s ∷ [] }, true)
