-- ===== src/Tests/Disks.antt =====
-- Two files on a disk, a sort by date, and a regular expression for two texts, for the tests of the
-- first version.
use mathlib.Core.List.{Perm}
use mathlib.Core.List.Perm
use netdj.Prelude.{
  ℕ, zero, suc, ◌≤◌, ◌≡◌, Bool, true, false, not, ◌&&◌, ◌==◌, none, some, List, [], ◌∷◌, Text,
  codes, text_eq, All, leb, if◌then◌else◌, arith, Bool-cases, inl, inr,
}
use netdj.Legacy.File.{Disk, File, Stat, get_ctime, no_stat}
use netdj.Legacy.Directory.{Directory, Outside, new_directory}
use netdj.Legacy.Directory.Oldest.{Rising}
use netdj.Legacy.File.Paths.{Without}
use netdj.Legacy.Http.{Exec}

abbrev pub memory_file : File
memory_file = record {
  id = 7;
  name = [];
  valid_id3 = false;
  id3 = record { title = []; artist = []; album = []; year = []; note = []; style = [] };
  stat_buf = no_stat;
  stat_valid = false;
}

abbrev pub stat_at : ℕ → Stat
stat_at t = record { ctime = t; mtime = t; size = 3; uid = 0; is_directory = false }

abbrev pub disk : Disk
disk = record {
  stat = λ p.
      if text_eq p (codes "q/a.mp3")
      then some (stat_at 20)
      else if text_eq p (codes "q/b.MP3")
      then some (stat_at 10)
      else none;
  bytes = λ p. none;
  user_name = λ u. some (codes "dj");
  can_unlink = λ p. true;
  can_rename = λ p q. true;
  can_symlink = λ p q. true;
}

module _ (d : Disk) where
  abbrev pub insert_file : File → List File → List File
  insert_file f [] = f ∷ []
  insert_file f (g ∷ l) =
      let more = g ∷ insert_file f l in
      if leb (get_ctime d f) (get_ctime d g) then f ∷ g ∷ l else more

  abbrev pub sort_files : List File → List File
  sort_files [] = []
  sort_files (f ∷ l) = insert_file f (sort_files l)

  insert_file-Perm : (f : File) (l : List File) → Perm (insert_file f l) (f ∷ l)
  insert_file-Perm f [] = Perm.refl (f ∷ [])
  insert_file-Perm f (g ∷ l) = either (leb (get_ctime d f) (get_ctime d g)) (insert_file-Perm f l)
    where
      either :
          (b : Bool)
          → Perm (insert_file f l) (f ∷ l)
          → Perm (if b then f ∷ g ∷ l else g ∷ insert_file f l) (f ∷ g ∷ l)
      either true r = Perm.refl (f ∷ g ∷ l)
      either false r = Perm.trans (Perm.cons g r) (Perm.swap f g l)

  pub sort_files-Perm : (l : List File) → Perm (sort_files l) l
  sort_files-Perm [] = Perm.refl []
  sort_files-Perm (f ∷ l) =
      Perm.trans (insert_file-Perm f (sort_files l)) (Perm.cons f (sort_files-Perm l))

  AtLeast : ℕ → List File → Type 0
  AtLeast n = All (λ g. n ≤ get_ctime d g)

  insert_file-AtLeast :
      (n : ℕ) (f : File) (l : List File)
      → n ≤ get_ctime d f
      → AtLeast n l
      → AtLeast n (insert_file f l)
  unfolding AtLeast
  insert_file-AtLeast n f [] h k = (h, tt)
  insert_file-AtLeast n f (g ∷ l) h (k, ks) =
      either (leb (get_ctime d f) (get_ctime d g)) (insert_file-AtLeast n f l h ks)
    where
      either :
          (b : Bool)
          → AtLeast n (insert_file f l)
          → AtLeast n (if b then f ∷ g ∷ l else g ∷ insert_file f l)
      either true r = (h, (k, ks))
      either false r = (k, r)

  AtLeast-le : (n m : ℕ) (l : List File) → n ≤ m → AtLeast m l → AtLeast n l
  unfolding AtLeast
  AtLeast-le n m [] h k = tt
  AtLeast-le n m (g ∷ l) h (k, ks) = (omega arith, AtLeast-le n m l h ks)

  insert_file-Rising : (f : File) (l : List File) → Rising d l → Rising d (insert_file f l)
  unfolding AtLeast
  insert_file-Rising f [] r = (tt, tt)
  insert_file-Rising f (g ∷ l) (k, r) = elim (Bool-cases (leb (get_ctime d f) (get_ctime d g))) [
    | inl e ↦ either (insert_file-Rising f l r) true e
    | inr e ↦ either (insert_file-Rising f l r) false e
  ]
    where
      either :
          Rising d (insert_file f l)
          → (b : Bool) → leb (get_ctime d f) (get_ctime d g) ≡ b
          → Rising d (insert_file f (g ∷ l))
      either i true e =
          let h : get_ctime d f ≤ get_ctime d g = ground (arith, e) in
          rw e ((h, AtLeast-le (get_ctime d f) (get_ctime d g) l h k), (k, r))
      either i false e =
          let h : get_ctime d g ≤ get_ctime d f = ground (arith, e) in
          rw e (insert_file-AtLeast (get_ctime d g) f l h k, i)

  pub sort_files-Rising : (l : List File) → Rising d (sort_files l)
  sort_files-Rising [] = tt
  sort_files-Rising (f ∷ l) = insert_file-Rising f (sort_files l) (sort_files-Rising l)

abbrev pub outside : Outside
outside = record {
  disk = disk;
  listing = λ p. if text_eq p (codes "q/") then some (codes "a.mp3" ∷ codes "b.MP3" ∷ []) else none;
  files = λ p. none;
  sort = sort_files disk;
  time = 30;
  memory = memory_file;
}

abbrev pub queue : Directory
queue = record (new_directory (codes "cache") (codes "Cache-dir") true) { dirname = codes "q/" }

-- What the regular expressions make of three lines and of a login.
abbrev pub exec : Exec
exec reg s =
    if text_eq s (codes "PLAYER_LOG=1")
    then some (12, codes "PLAYER_LOG" ∷ codes "1" ∷ [])
    else if text_eq s (codes "dj:100:pw")
    then some (9, codes "dj" ∷ codes "100" ∷ codes "pw" ∷ [])
    else if text_eq s (codes "dj:pw")
    then some (5, codes "dj" ∷ codes "pw" ∷ [])
    else none

abbrev pub repeat : ℕ → ℕ → Text
repeat zero c = []
repeat (suc n) c = c ∷ repeat n c

-- Texts without a character, by evaluation.
abbrev pub no_char : ℕ → Text → Bool
no_char c [] = true
no_char c (d ∷ s) = not (d == c) && no_char c s

pub no_char_sound : (c : ℕ) (s : Text) → no_char c s ≡ true → Without c s
no_char_sound c [] e = tt
no_char_sound c (d ∷ s) e = (ground arith, no_char_sound c s (ground arith))
