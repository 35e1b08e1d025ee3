-- ===== src/Legacy/State.antt =====
-- `savestate` and `loadstate` of netdj/src/main.cc: the time stamp of the cache in the state file.
use netdj.Prelude.{
  ℕ, ◌-◌, ◌<◌, ◌≡◌, refl, Bool, true, false, Option, none, some, List, ◌∷◌, Text, is_empty, arith,
  ltb, leb, ◌&&◌, if◌then◌else◌,
}
use netdj.Legacy.File.{Disk, File, Stat, get_ctime}
use netdj.Legacy.Directory.{
  is_mp3, Directory, Run, returns, ◌>>=◌, get_next_timestamp, set_last_update,
}
use netdj.Legacy.Directory.Entries.{is_new}

-- The state file as the number in it: `none` where it is not there.
abbrev pub StateFile : Type 0
StateFile = Option ℕ

-- savestate(): whether the file can be opened and written. Errors are not fatal.
unfoldable pub save_state : Disk → Bool → Directory → StateFile → Run StateFile
save_state disk can_write cache file =
    get_next_timestamp disk cache >>= (λ upd. returns (if can_write then some upd else file))

-- loadstate(), for a time behind 0, of which -1 would be left
unfoldable pub load_state : StateFile → Directory → Directory
load_state none cache = cache
load_state (some upd) cache = set_last_update (upd - 1) cache

ltb-pred : (a b : ℕ) → 0 < a → ltb (a - 1) b && true ≡ leb a b
ltb-pred a b h = ground arith

-- A cache that is not empty when the program quits, with a first song that has a date: a new cache
-- that loads what was saved of it holds for new, among all MP3 files there are, those that are not
-- older than that first song.
pub load_state-save_state :
    (disk : Disk) (old new : Directory) (first : File) (rest : List File) (path : Text) (s : Stat)
    → old.files ≡ first ∷ rest
    → 0 < get_ctime disk first
    → disk.stat path ≡ some s
    → s.is_directory ≡ false
    → is_empty path ≡ false
    → is_mp3 path ≡ returns true
    → (file : StateFile) × (save_state disk true old none ≡ returns file)
      × (is_new disk (load_state file new).last_update path ≡ leb (get_ctime disk first) s.ctime)
unfolding save_state load_state get_next_timestamp set_last_update is_new
load_state-save_state disk old new first rest path s e p k n m mp3 = (
  some (get_ctime disk first),
  rw e refl,
  rw (k, n, m, mp3) (ltb-pred (get_ctime disk first) s.ctime p),
)
