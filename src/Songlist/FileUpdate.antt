-- ===== src/Songlist/FileUpdate.antt =====
-- `Update` of a list that is read from a file: its songs are the lines of the file.
use netdj.Prelude.{
  ℕ, ◌<◌, ◌≡◌, refl, ◌∙◌, Bool, true, false, Option, none, some, List, [], ◌∷◌, ◌++◌, map, leb,
  arith, if◌then◌else◌, Text, append_assoc, append-nil, Bool-cases, inl, inr, map-append, All,
  All-append,
}
use netdj.Outcome.{returns, throws, std_exception}
use netdj.Song.{Song, song_file}
use netdj.Songlist.{Songlist, list_file, get_new_unid}
use netdj.Songlist.ListFile.{is_skipped, read_lines, update_list_file, no_file}

-- The lines that name songs, in order.
pub entries : List Text → List Text
entries [] = []
entries (line ∷ rest) = let more = entries rest in if is_skipped line then more else line ∷ more

names-read_lines :
    (memory : ℕ → Bool) (lines : List Text) (next : ℕ) (newlist : List Song)
    → map (λ s. s.filename) (read_lines memory lines next newlist).1
      ≡ map (λ s. s.filename) newlist ++ entries lines
unfolding read_lines entries song_file
names-read_lines memory [] next newlist = rw append-nil
names-read_lines memory (line ∷ rest) next newlist =
    let unid = get_new_unid next in
    let new = song_file memory line unid in
    elim (Bool-cases (is_skipped line)) [
      | inl e ↦ rw e (names-read_lines memory rest next newlist)
      | inr e ↦ rw e (
          names-read_lines memory rest unid (newlist ++ new ∷ [])
          ∙ rw (map-append (λ (s : Song). s.filename) newlist (new ∷ []))
              (append_assoc (map (λ s. s.filename) newlist) (line ∷ []) (entries rest)))
    ]

-- A file that is newer than the one read last and can be read replaces the songs by its lines, but
-- for the empty ones and the comments; the file's date is remembered.
pub update_list_file_replaces :
    (memory : ℕ → Bool) (date filedate : ℕ) (lines : List Text) (filename : Text) (c : Songlist)
    → filedate < date
    → let u =
        update_list_file memory
          (record { last_modified = date; lines = some lines })
          filename
          filedate
          c in
      (map (λ s. s.filename) u.0.songs ≡ entries lines)
      × (u.0.kind ≡ list_file filename date)
      × (u.1 ≡ returns tt)
unfolding update_list_file
update_list_file_replaces memory date filedate lines filename c h =
    let new : leb date filedate ≡ false = ground arith in
    rw new (unfold update_list_file in (names-read_lines memory lines c.next_unid [], refl, refl))

flags-read_lines :
    (memory : ℕ → Bool) (lines : List Text) (next : ℕ) (newlist : List Song)
    → All (λ s. s.delete_after_play ≡ memory s.unid) newlist
    → All (λ s. s.delete_after_play ≡ memory s.unid) (read_lines memory lines next newlist).1
unfolding read_lines song_file
flags-read_lines memory [] next newlist h = h
flags-read_lines memory (line ∷ rest) next newlist h =
    let unid = get_new_unid next in
    let new = song_file memory line unid in
    elim (Bool-cases (is_skipped line)) [
      | inl e ↦ rw e (flags-read_lines memory rest next newlist h)
      | inr e ↦ rw e (
          flags-read_lines memory rest unid (newlist ++ new ∷ []) (
            All-append (λ (s : Song). s.delete_after_play ≡ memory s.unid) newlist (new ∷ []) h
              (refl, tt)))
    ]

-- After a newer file was read, each song has as the order to delete its file what the memory of its
-- new object happened to hold.
pub update_list_file_unset_flag :
    (memory : ℕ → Bool) (date filedate : ℕ) (lines : List Text) (filename : Text) (c : Songlist)
    → filedate < date
    → All
        (λ s. s.delete_after_play ≡ memory s.unid)
        (update_list_file memory
          (record { last_modified = date; lines = some lines })
          filename
          filedate
          c).0.songs
unfolding update_list_file
update_list_file_unset_flag memory date filedate lines filename c h =
    let new : leb date filedate ≡ false = ground arith in
    rw new (flags-read_lines memory lines c.next_unid [] tt)

-- A newer file that cannot be read makes `Update` throw and keeps the songs, but its date is remembered:
-- the next `Update` at that date returns at once, also when the file can be read by then.
pub update_list_file_forgets_error :
    (memory memory' : ℕ → Bool) (date filedate : ℕ) (lines : Option (List Text)) (filename : Text)
    (c : Songlist)
    → filedate < date
    → let u =
        update_list_file memory
          (record { last_modified = date; lines = none })
          filename
          filedate
          c in
      (u.1 ≡ throws (std_exception (no_file filename)))
      × (u.0 ≡ record c { kind = list_file filename date })
      × (update_list_file memory' (record { last_modified = date; lines = lines }) filename date u.0
          ≡ (u.0, returns tt))
unfolding update_list_file
update_list_file_forgets_error memory memory' date filedate lines filename c h =
    let new : leb date filedate ≡ false = ground arith in
    let old : leb date date ≡ true = ground arith in rw (new, old) (refl, refl, refl)
