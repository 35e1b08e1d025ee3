-- ===== src/Legacy/Directory/Update.antt =====
-- Which files `Update` of a directory gains and which it does not.
use mathlib.Core.List.{Perm}
use mathlib.Core.List.Perm
use netdj.Prelude.{
  ℕ, ◌≤◌, ◌≡◌, refl, ap, subst, Bool, true, false, some, List, [], ◌∷◌, ◌++◌, append-nil, Text,
  is_empty, All, if◌then◌else◌, arith,
}
use netdj.Legacy.File.{Disk, File, Stat}
use netdj.Legacy.Directory.{
  Directory, returns, Outside, load_entries, sorted, update_from_dir, update,
}
use netdj.Legacy.Directory.Entries.{names, is_new, gained, Long, load_entries_lem}

kept :
    (sort : List File → List File) (b : Bool) (l : List File)
    → ((l : List File) → Perm (sort l) l)
    → Perm (names (if b then sort l else l)) (names l)
kept sort true l perm = Perm.map (λ (f : File). f.name) (perm l)
kept sort false l perm = Perm.refl (names l)

update-sorted :
    (o : Outside) (d d' : Directory) (listed : List Text)
    → d.from_file ≡ false
    → is_empty d.dirname ≡ false
    → o.listing d.dirname ≡ some listed
    → load_entries o.disk o.memory listed d ≡ returns d'
    → update o d
      ≡ returns (record d' {
        files = if d'.playlist then o.sort d'.files else d'.files;
        last_update = o.time;
      })
unfolding update update_from_dir sorted
update-sorted o d d' listed from n e loaded = simp (from, n, e, loaded)

-- All that an `Update` does: where the files come from, and what becomes of the other fields.
pub record Updated (o : Outside) (d : Directory) (listed : List Text) (d' : Directory)
    : Type 0 where
  pub rearranged :
      Perm (names d'.files) (names d.files ++ gained o.disk d.last_update d.dirname listed)
  pub is_sorted : (l : List File) × (d'.files ≡ (if d.playlist then o.sort l else l))
  pub same_list : d'.playlist ≡ d.playlist
  pub time : d'.last_update ≡ o.time

pub update-Updated :
    (o : Outside) (d : Directory) (listed : List Text)
    → ((l : List File) → Perm (o.sort l) l)
    → d.from_file ≡ false
    → is_empty d.dirname ≡ false
    → o.listing d.dirname ≡ some listed
    → Long d.dirname listed
    → (d' : Directory) × (update o d ≡ returns d') × Updated o d listed d'
update-Updated o d listed perm from n e long =
    let (d', loaded, files, list) =
      load_entries_lem o.disk o.memory listed d.dirname d.last_update d refl refl long in
    (
      record d' { files = if d'.playlist then o.sort d'.files else d'.files; last_update = o.time },
      update-sorted o d d' listed from n e loaded,
      record {
        rearranged =
            subst (Perm (names (if d'.playlist then o.sort d'.files else d'.files))) files
              (kept o.sort d'.playlist d'.files perm);
        is_sorted = (d'.files, ap (λ b. if b then o.sort d'.files else d'.files) list);
        same_list = list;
        time = refl;
      },
    )

-- `Update` of a list that is a directory keeps its files and gains exactly the new ones, if
-- `std::sort` rearranges them: those which exist, are no directories, have changed after the last
-- update and end as an MP3. The time of the update is remembered.
pub update-gained :
    (o : Outside) (d : Directory) (listed : List Text)
    → ((l : List File) → Perm (o.sort l) l)
    → d.from_file ≡ false
    → is_empty d.dirname ≡ false
    → o.listing d.dirname ≡ some listed
    → Long d.dirname listed
    → (d' : Directory) × (update o d ≡ returns d')
      × Perm (names d'.files) (names d.files ++ gained o.disk d.last_update d.dirname listed)
      × (d'.last_update ≡ o.time)
update-gained o d listed perm from n e long =
    let (d', done, u) = update-Updated o d listed perm from n e long in
    (d', done, u.rearranged, u.time)

is_new-old :
    (disk : Disk) (since : ℕ) (path : Text) (s : Stat)
    → disk.stat path ≡ some s
    → s.ctime ≤ since
    → is_new disk since path ≡ false
unfolding is_new
is_new-old disk since path s e h = rw e (ground arith)

gained-old :
    (disk : Disk) (since : ℕ) (dirname : Text) (listed : List Text)
    → All (λ n. (s : Stat) × (disk.stat (dirname ++ n) ≡ some s) × (s.ctime ≤ since)) listed
    → gained disk since dirname listed ≡ []
unfolding gained
gained-old disk since dirname [] h = refl
gained-old disk since dirname (n ∷ rest) h =
    rw (is_new-old disk since (dirname ++ n) h.0.0 h.0.1 h.0.2)
      (gained-old disk since dirname rest h.1)

-- A file that has changed in the second of the last update, or before, is not gained by the next
-- `Update`, also when it was not there at the last: if all files are like that the list stays.
pub update_same_second :
    (o : Outside) (d : Directory) (listed : List Text)
    → ((l : List File) → Perm (o.sort l) l)
    → d.from_file ≡ false
    → is_empty d.dirname ≡ false
    → o.listing d.dirname ≡ some listed
    → Long d.dirname listed
    → All
        (λ n. (s : Stat) × (o.disk.stat (d.dirname ++ n) ≡ some s) × (s.ctime ≤ d.last_update))
        listed
    → (d' : Directory) × (update o d ≡ returns d') × Perm (names d'.files) (names d.files)
update_same_second o d listed perm from n e long old =
    let (d', done, files, time) = update-gained o d listed perm from n e long in
    let nothing : names d.files ++ gained o.disk d.last_update d.dirname listed ≡ names d.files =
      rw (gained-old o.disk d.last_update d.dirname listed old) (append-nil (names d.files)) in
    (d', done, subst (Perm (names d'.files)) nothing files)
