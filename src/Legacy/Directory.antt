-- ===== src/Legacy/Directory.antt =====
-- `Directory` of netdj/src/Directory.cc. Each operation holds the lock and is one step. What `readdir`
-- gives, the text of a list file, `std::sort` and the time are arguments.
pub mod Entries
pub mod Update
pub mod Oldest
use netdj.Prelude.{
  ℕ, zero, suc, ◌+◌, ◌-◌, Bool, true, false, not, ◌&&◌, ◌||◌, Option, none, some, List, [], ◌∷◌,
  ◌++◌, Text, codes, text_eq, is_empty, length, take, drop, get_elem?, ltb, ◌==◌, if◌then◌else◌,
}
use netdj.Rand.{get_rand}
use netdj.Legacy.File.{Disk, File, new_file, set_name, get_ctime, set_id, exists}
use netdj.Legacy.Stream.{Input, opened, getline}
use netdj.Legacy.Text.{to_lower, with_slash}

pub record Directory : Type 0 where
  pub shname : Text
  pub descr : Text
  pub dirname : Text
  pub next_file_id : ℕ
  pub last_update : ℕ
  pub files : List File
  pub playlist : Bool
  pub from_file : Bool

-- A call returns, ends the program, throws an exception that nobody catches, or does something
-- undefined.
pub data Run {ℓ} (A : Type ℓ) : Type ℓ where
  returns : A → Run A
  exits : ℕ → Run A
  out_of_range : Run A
  undefined : Run A

infixl 5 ◌>>=◌
abbrev pub ◌>>=◌ {ℓ κ} : {A : Type ℓ} {B : Type κ} → Run A → (A → Run B) → Run B
returns a >>= f = f a
exits n >>= f = exits n
out_of_range >>= f = out_of_range
undefined >>= f = undefined

-- What the directory finds outside.
pub record Outside : Type 0 where
  pub disk : Disk
  pub listing : Text → Option (List Text)
  pub files : Text → Option Text
  pub sort : List File → List File
  pub time : ℕ
  pub memory : File

-- Directory(_shname, _descr, _playlist)
unfoldable pub new_directory : Text → Text → Bool → Directory
new_directory shname descr playlist = record {
  shname = shname;
  descr = descr;
  dirname = [];
  next_file_id = 0;
  last_update = 0;
  files = [];
  playlist = playlist;
  from_file = false;
}

-- The ending of four characters with the second and the third in lower case
unfoldable pub lowered : Text → Text
lowered (a ∷ b ∷ c ∷ rest) = a ∷ to_lower b ∷ to_lower c ∷ rest
lowered other = other

-- `substr(fname.size() - 4)`, which throws for a shorter name, and the test of the ending
unfoldable pub is_mp3 : Text → Run Bool
unfolding lowered
is_mp3 fname =
    if ltb (length fname) 4
    then out_of_range
    else returns (text_eq (lowered (drop (length fname - 4) fname)) (codes ".mp3"))

-- `SetId(nextfileid++)` and `push_back`
unfoldable pub push : File → Directory → Directory
push f d = record d {
  files = d.files ++ set_id d.next_file_id f ∷ [];
  next_file_id = d.next_file_id + 1;
}

abbrev push_if : Bool → File → Directory → Directory
push_if b f d = if b then push f d else d

-- The bodies of the two loops: one name of the directory, and one line of the file.
unfoldable pub load_entry : Disk → File → Text → Directory → Run Directory
unfolding push
load_entry disk memory fname d =
    let set = set_name disk fname memory in
    if set.1 && ltb d.last_update (get_ctime disk set.0)
    then is_mp3 fname >>= (λ mp3. returns (push_if mp3 set.0 d))
    else returns d

unfoldable pub load_line : Disk → File → Text → Directory → Run Directory
unfolding push
load_line disk memory fname d =
    let set = set_name disk fname memory in
    if set.1 then is_mp3 fname >>= (λ mp3. returns (push_if mp3 set.0 d)) else returns d

unfoldable pub load_entries : Disk → File → List Text → Directory → Run Directory
load_entries disk memory [] d = returns d
load_entries disk memory (name ∷ rest) d =
    load_entry disk memory (d.dirname ++ name) d >>= load_entries disk memory rest

unfoldable pub load_lines : Disk → File → List Text → Directory → Run Directory
load_lines disk memory [] d = returns d
load_lines disk memory (line ∷ rest) d =
    load_line disk memory line d >>= load_lines disk memory rest

-- behind the loop over the directory
unfoldable pub sorted : Outside → Directory → Run Directory
sorted o d =
    returns
      (record d { files = if d.playlist then o.sort d.files else d.files; last_update = o.time })

-- The two halves of Update(). A directory that cannot be opened ends the program.
unfoldable pub update_from_dir : Outside → Directory → Run Directory
unfolding sorted
update_from_dir o d = if is_empty d.dirname then returns d else elim (o.listing d.dirname) [
  | none ↦ exits 100
  | some names ↦ load_entries o.disk o.memory names d >>= sorted o
]

-- while (f): what each `getline` leaves in the buffer, also the one that fails
list_lines : ℕ → Input → List Text
list_lines zero i = []
list_lines (suc fuel) i =
    let line = getline 4096 i in
    let more = list_lines fuel line.input in line.text ∷ (if line.input.fail then [] else more)

unfoldable pub update_from_file : Outside → Directory → Run Directory
unfolding list_lines
update_from_file o d =
    let date = get_ctime o.disk (set_name o.disk d.dirname o.memory).0 in
    if d.last_update == 0 || ltb d.last_update date
    then elim (o.files d.dirname) [
      | none ↦ returns (record d { last_update = date; files = [] })
      | some s ↦
          load_lines o.disk o.memory (list_lines (length s + 2) (opened s))
            (record d { last_update = date; files = [] })
    ]
    else returns d

-- void Update()
unfoldable pub update : Outside → Directory → Run Directory
update o d =
    let file = update_from_file o d in
    let dir = update_from_dir o d in if d.from_file then file else dir

-- SetDirname(_dirname, _fromfile): `dirname[dirname.size() - 1]` of an empty name lies outside.
unfoldable pub set_dirname : Text → Bool → Directory → Run Directory
set_dirname [] false d = undefined
set_dirname (c ∷ s) false d = returns (record d { dirname = with_slash (c ∷ s); from_file = false })
set_dirname name true d = returns (record d { dirname = name; from_file = true })

unfoldable pub set_last_update : ℕ → Directory → Directory
set_last_update t d = record d { last_update = t }

-- `list.front()` of an empty list is undefined.
next_timestamp : Disk → List File → Run ℕ
next_timestamp disk [] = undefined
next_timestamp disk (f ∷ rest) = returns (get_ctime disk f)

-- time_t GetNextTimestamp() const
unfoldable pub get_next_timestamp : Disk → Directory → Run ℕ
unfolding next_timestamp
get_next_timestamp disk d = next_timestamp disk d.files

is_empty_list : List File → Bool
is_empty_list [] = true
is_empty_list (f ∷ rest) = false

-- bool Empty()
unfoldable pub empty : Outside → Directory → Run (Directory × Bool)
unfolding is_empty_list
empty o d = update o d >>= (λ d'. returns (d', is_empty_list d'.files))

-- `list[get_rand(list.size())]`
random_of : ℕ → Directory → Run (Directory × Option File)
random_of rand d = elim (get_elem? d.files (get_rand (length d.files) rand)) [
  | none ↦ undefined
  | some f ↦ returns (d, some f)
]

-- behind `Update`, on the list as it is
unfoldable pub choose : ℕ → List File → Directory → Run (Directory × Option File)
unfolding random_of
choose rand [] d = returns (d, none)
choose rand (f ∷ rest) d =
    if d.playlist then returns (record d { files = rest }, some f) else random_of rand d

-- bool GetSong(fobj): `none` for `false`
unfoldable pub get_song : Outside → ℕ → Directory → Run (Directory × Option File)
get_song o rand d = update o d >>= (λ d'. choose rand d'.files d')

-- void AddSong(str)
unfoldable pub add_song : Outside → Text → Directory → Directory
unfolding push
add_song o str d = let found = exists o.disk (new_file o.memory str) in push_if found.1 found.0 d

-- int GetSize()
unfoldable pub get_size : Outside → Directory → Run (Directory × ℕ)
get_size o d = update o d >>= (λ d'. returns (d', length d'.files))

-- int GetEntries(vect, max) const: the entries; their number is what it returns
unfoldable pub get_entries : ℕ → Directory → List File
get_entries max d = if d.playlist then take max d.files else []
