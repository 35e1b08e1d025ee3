-- ===== src/Legacy/CurrentSong.antt =====
-- `TCurrentSong` of netdj/src/main.cc. The object is static, so its flags start as false. What is
-- deleted is reported: the name, and whether the deletion was tried with success.
use netdj.Prelude.{
  ◌≡◌, refl, ap, ◌∙◌, Bool, true, false, List, [], ◌∷◌, ◌++◌, append_assoc, Text, if◌then◌else◌,
}
use netdj.Legacy.File.{Disk, File, new_file, rename}

pub record CurrentSong : Type 0 where
  pub curr_delete : Bool
  pub curr_file : File
  pub prev_file : File
  pub prev_delete : Bool

abbrev pub new_current_song : File → CurrentSong
new_current_song memory = record {
  curr_delete = false;
  curr_file = new_file memory [];
  prev_file = new_file memory [];
  prev_delete = false;
}

-- InternalSet(fil, del): the files that it tries to delete
unfoldable pub internal_set : File → Bool → CurrentSong → CurrentSong × List Text
internal_set fil del c = (
  record {
    curr_delete = del;
    curr_file = fil;
    prev_file = c.curr_file;
    prev_delete = c.curr_delete;
  },
  if c.prev_delete then c.prev_file.name ∷ [] else [],
)

-- Set(fil, del), Clear() and Get()
unfoldable pub set : File → Bool → CurrentSong → CurrentSong × List Text
unfolding internal_set
set fil del c = internal_set fil del c

unfoldable pub clear : File → CurrentSong → CurrentSong × List Text
unfolding internal_set
clear memory c = internal_set (new_file memory []) false c

abbrev pub get : CurrentSong → File
get c = c.curr_file

with_name : Bool → File × Bool → CurrentSong → CurrentSong × Bool
with_name del (f, true) c = (record c { curr_file = f; curr_delete = del }, true)
with_name del (f, false) c = (record c { curr_file = f }, false)

-- RenameCurrent(newpath, del)
unfoldable pub rename_current : Disk → Text → Bool → CurrentSong → CurrentSong × Bool
unfolding with_name
rename_current disk newpath del c = with_name del (rename disk newpath c.curr_file) c

-- `Set` called for each of some songs, with all that was deleted.
unfoldable pub set_songs : List (File × Bool) → CurrentSong → CurrentSong × List Text
set_songs [] c = (c, [])
set_songs ((f, del) ∷ rest) c =
    let now = set f del c in let later = set_songs rest now.0 in (later.0, now.1 ++ later.1)

-- The names of the songs to be deleted.
unfoldable pub doomed : List (File × Bool) → List Text
doomed [] = []
doomed ((f, del) ∷ rest) = let more = doomed rest in if del then f.name ∷ more else more

abbrev pub pending : CurrentSong → List (File × Bool)
pending c = (c.prev_file, c.prev_delete) ∷ (c.curr_file, c.curr_delete) ∷ []

doomed-cons :
    (f : File) (b : Bool) (songs : List (File × Bool))
    → (if b then f.name ∷ [] else []) ++ doomed songs ≡ doomed ((f, b) ∷ songs)
unfolding doomed
doomed-cons f true songs = refl
doomed-cons f false songs = refl

-- Over any sequence of songs each file that is to be deleted is deleted once, in the order in which
-- they were played, except those of the song that plays and the one before, which are still to come.
pub set_songs-doomed :
    (songs : List (File × Bool)) (c : CurrentSong)
    → (set_songs songs c).1 ++ doomed (pending (set_songs songs c).0) ≡ doomed (pending c ++ songs)
unfolding set_songs set internal_set
set_songs-doomed [] c = refl
set_songs-doomed ((f, del) ∷ rest) c =
    let now = set f del c in
    append_assoc now.1 (set_songs rest now.0).1 (doomed (pending (set_songs rest now.0).0))
    ∙ ap (λ l. now.1 ++ l) (set_songs-doomed rest now.0)
    ∙ doomed-cons c.prev_file c.prev_delete ((c.curr_file, c.curr_delete) ∷ (f, del) ∷ rest)
