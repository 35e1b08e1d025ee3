-- ===== src/Legacy/File.antt =====
-- `File` of netdj/src/File.cc. What `stat`, the tag of a file and the user's name are comes from a
-- disk; the calls that change the disk are answered by it and are reported by their results.
pub mod Paths
use netdj.Prelude.{
  ℕ, suc, Bool, true, false, not, ◌&&◌, Option, none, some, List, [], ◌∷◌, ◌++◌, Text, is_empty,
  ltb, if◌then◌else◌,
}
use netdj.Id3Tag.{Tags, Init, loaded, not_loaded, fault, init_from_file}
use netdj.Legacy.Text.{find_last_of, before_index, behind_index}

-- struct stat, as far as it is used
pub record Stat : Type 0 where
  pub ctime : ℕ
  pub mtime : ℕ
  pub size : ℕ
  pub uid : ℕ
  pub is_directory : Bool

abbrev pub no_stat : Stat
no_stat = record { ctime = 0; mtime = 0; size = 0; uid = 0; is_directory = false }

pub record Disk : Type 0 where
  pub stat : Text → Option Stat
  pub bytes : Text → Option Text
  pub user_name : ℕ → Option Text
  pub can_unlink : Text → Bool
  pub can_rename : Text → Text → Bool
  pub can_symlink : Text → Text → Bool

pub record File : Type 0 where
  pub id : ℕ
  pub name : Text
  pub valid_id3 : Bool
  pub id3 : Tags
  pub stat_buf : Stat
  pub stat_valid : Bool

-- File(_name). The constructors leave the id, the buffer and its flag as the memory held them.
unfoldable pub new_file : File → Text → File
new_file memory name = record memory {
  name = name;
  valid_id3 = false;
  id3 = record { title = []; artist = []; album = []; year = []; note = []; style = [] };
}

unfoldable pub with_stat : Option Stat → File → File × Bool
with_stat none f = (record f { stat_buf = no_stat; stat_valid = false }, false)
with_stat (some s) f =
    if s.is_directory
    then (record f { stat_buf = no_stat; stat_valid = false }, false)
    else (record f { stat_buf = s; stat_valid = true }, true)

-- bool update_stat() const
unfoldable pub update_stat : Disk → File → File × Bool
unfolding with_stat
update_stat disk f = with_stat (if is_empty f.name then none else disk.stat f.name) f

-- void check_stat() const
unfoldable pub check_stat : Disk → File → File
unfolding update_stat
check_stat disk f = if f.stat_valid then f else (update_stat disk f).0

abbrev pub set_id : ℕ → File → File
set_id i f = record f { id = i }

unfoldable pub exists : Disk → File → File × Bool
unfolding update_stat
exists disk f = update_stat disk f

-- GetMtime(), GetCtime() and GetSize()
unfoldable pub get_mtime : Disk → File → ℕ
unfolding check_stat
get_mtime disk f = (check_stat disk f).stat_buf.mtime

unfoldable pub get_ctime : Disk → File → ℕ
unfolding check_stat
get_ctime disk f = (check_stat disk f).stat_buf.ctime

unfoldable pub get_size : Disk → File → ℕ
unfolding check_stat
get_size disk f = (check_stat disk f).stat_buf.size

-- bool SetName(_name)
unfoldable pub set_name : Disk → Text → File → File × Bool
unfolding update_stat
set_name disk name f = update_stat disk (record f { name = name })

unfoldable pub get_dirname : File → Text
get_dirname f = before_index (find_last_of b'/' f.name) f.name

unfoldable pub get_filename : File → Text
get_filename f = behind_index (find_last_of b'/' f.name) f.name

unfoldable pub get_filename_no_type : File → Text
unfolding get_filename
get_filename_no_type f = let s = get_filename f in before_index (find_last_of b'.' s) s

unfoldable pub read_tag : Init → File → File
read_tag (loaded t) f = record f { valid_id3 = true; id3 = t }
read_tag not_loaded f = record f { valid_id3 = true }
read_tag fault f = record f { valid_id3 = true }

-- bool GetID3Info(_id3): the tag is in the result's field, and it is always valid.
unfoldable pub get_id3_info : Disk → File → File
unfolding read_tag
get_id3_info disk f = if f.valid_id3 then f else read_tag (init_from_file (disk.bytes f.name)) f

-- bool Delete()
unfoldable pub delete : Disk → File → Bool
delete disk f = disk.can_unlink f.name

-- bool Rename(newpath)
unfoldable pub rename : Disk → Text → File → File × Bool
rename disk newpath f =
    if disk.can_rename f.name newpath then (record f { name = newpath }, true) else (f, false)

-- bool Symlink(linkname) const
unfoldable pub symlink : Disk → Text → File → Bool
symlink disk linkname f = disk.can_symlink f.name linkname

-- string GetOwner()
unfoldable pub get_owner : Disk → File → Text
unfolding check_stat
get_owner disk f = elim (disk.user_name (check_stat disk f).stat_buf.uid) [ none ↦ [] | some n ↦ n ]

-- bool operator<(f2) const
unfoldable pub less : Disk → File → File → Bool
unfolding get_ctime
less disk f f2 = ltb (get_ctime disk f) (get_ctime disk f2)
