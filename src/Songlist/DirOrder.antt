-- ===== src/Songlist/DirOrder.antt =====
-- Which files of a directory a queue gains, in which order and under which numbers.
use netdj.Prelude.{
  ℕ, ◌+◌, ◌%◌, ◌≤◌, ◌<◌, ◌^◌, ◌≡◌, refl, ◌∙◌, Bool, true, some, List, [], ◌∷◌, ◌++◌, map, length,
  arith, Bool-cases, inl, inr, leb, if◌then◌else◌, Text, append_assoc, append-nil, map-append,
}
use netdj.Song.{Song, song_file, set_delete_after_play}
use netdj.Songlist.{Songlist, get_new_unid, next_of, get_next_song}
use netdj.Songlist.Dir.{FileInfo, holds, Scan, file_date, visit, update_dir}
use netdj.Songlist.DirUpdate.{Dated, dated, visit_all, begin, update_dir-queue}

abbrev pub names : List Song → List Text
names = map (λ s. s.filename)

-- The paths that a queue takes, with the time stamp moving on as files are taken.
taken : ℕ → List Dated → List Text
taken stamp [] = []
taken stamp ((fi, d) ∷ ds) =
    let newer = taken d ds in
    let same = taken stamp ds in if leb stamp d then fi.path ∷ newer else same

module _ (memory : ℕ → Bool) (delete_after : Bool) where
  names-visit :
      (fi : FileInfo) (d : ℕ) (ds : List Dated) (s : Scan)
      → names (visit memory true delete_after fi d s).songs
          ++ taken (visit memory true delete_after fi d s).stamp ds
        ≡ names s.songs ++ taken s.stamp ((fi, d) ∷ ds)
  unfolding visit taken set_delete_after_play song_file
  names-visit fi d ds s = ground (
    arith,
    map-append (λ (x : Song). x.filename) s.songs
        (record {
          filename = fi.path;
          unid = get_new_unid s.next_unid;
          delete_after_play = delete_after;
        }
          ∷ []),
    append_assoc (names s.songs) (fi.path ∷ []) (taken d ds),
  )

  names-visit_all :
      (ds : List Dated) (s : Scan)
      → names (visit_all memory true delete_after ds s).songs ≡ names s.songs ++ taken s.stamp ds
  unfolding visit_all
  names-visit_all [] s = unfold taken in rw append-nil
  names-visit_all ((fi, d) ∷ ds) s =
      names-visit_all ds (visit memory true delete_after fi d s) ∙ names-visit fi d ds s

-- The entries from a time on, and entries in the order of their dates.
pub since : ℕ → List Dated → List Text
since stamp [] = []
since stamp ((fi, d) ∷ ds) =
    let rest = since stamp ds in if leb stamp d then fi.path ∷ rest else rest

abbrev pub Ascending : ℕ → List Dated → Type 0
Ascending t [] = Unit
Ascending t (p ∷ ds) = (t ≤ p.1) × Ascending p.1 ds

-- All of ascending entries from `t` on.
since-all :
    (st u t : ℕ) (ds : List Dated) → st ≤ t → u ≤ t → Ascending t ds → since st ds ≡ since u ds
unfolding since
since-all st u t [] a b h = refl
since-all st u t ((fi, d) ∷ ds) a b h = ground (arith, since-all st u d ds)

taken-since : (t st : ℕ) (ds : List Dated) → Ascending t ds → taken st ds ≡ since st ds
unfolding taken since
taken-since t st [] h = refl
taken-since t st ((fi, d) ∷ ds) h =
    ground (arith, taken-since d d ds, taken-since d st ds, since-all d st d ds)

-- If the entries come in the order of their dates, a queue gains exactly those that are not older
-- than its time stamp, in that order, at its end.
pub update_dir_gains :
    (fuel : ℕ) (memory : ℕ → Bool) (files : List FileInfo) (ds : List Dated) (directory : Text)
    (stamp : ℕ) (delete_after : Bool) (c : Songlist)
    → c.is_queue ≡ true
    → dated files ≡ some ds
    → length files ≤ fuel
    → Ascending 0 ds
    → names (update_dir fuel memory (holds files) directory stamp delete_after c).0.songs
      ≡ names c.songs ++ since stamp ds
update_dir_gains fuel memory files ds directory stamp delete_after c q e f asc = rw (
  update_dir-queue fuel memory files ds directory stamp delete_after c q e f,
  names-visit_all memory delete_after ds (begin stamp c),
  taken-since 0 stamp ds asc,
)

-- Of two files of which the first listed is the newer one, a queue whose time stamp is not after
-- either gains the first and not the second.
pub update_dir_loses_file :
    (fuel : ℕ) (memory : ℕ → Bool) (f g : FileInfo) (df dg : ℕ) (directory : Text) (stamp : ℕ)
    (delete_after : Bool) (c : Songlist)
    → c.is_queue ≡ true
    → file_date f ≡ some df
    → file_date g ≡ some dg
    → stamp ≤ dg
    → dg < df
    → 2 ≤ fuel
    → map
        (λ s. s.filename)
        (update_dir fuel memory (holds (f ∷ g ∷ [])) directory stamp delete_after c).0.songs
      ≡ map (λ s. s.filename) c.songs ++ f.path ∷ []
update_dir_loses_file fuel memory f g df dg directory stamp delete_after c q ef eg le lt fu =
    let both : dated (f ∷ g ∷ []) ≡ some ((f, df) ∷ (g, dg) ∷ []) = unfold dated in rw (ef, eg) in
    rw
      (
        update_dir-queue fuel memory (f ∷ g ∷ []) _ directory stamp delete_after c q both fu,
        names-visit_all memory delete_after ((f, df) ∷ (g, dg) ∷ []) (begin stamp c),
      )
      (unfold taken in ground arith)

-- The songs' numbers rise along the list, up to the list's counter.
abbrev pub Rising : ℕ → List Song → ℕ → Type 0
Rising low [] top = low ≤ top
Rising low (s ∷ ss) top = (low < s.unid) × Rising s.unid ss top

Rising-snoc :
    (low top : ℕ) (ss : List Song) (s : Song)
    → Rising low ss top
    → top < s.unid
    → Rising low (ss ++ s ∷ []) s.unid
Rising-snoc low top [] s h lt = ground arith
Rising-snoc low top (x ∷ ss) s h lt = (h.0, Rising-snoc x.unid top ss s h.1 lt)

module _ (memory : ℕ → Bool) (delete_after : Bool) where
  visit-Rising :
      (fi : FileInfo) (d : ℕ) (s : Scan)
      → Rising 0 s.songs s.next_unid
      → s.next_unid + 1 < 2 ^ 32
      → let t = visit memory true delete_after fi d s in
        Rising 0 t.songs t.next_unid × (t.next_unid ≤ s.next_unid + 1)
  unfolding visit get_new_unid set_delete_after_play song_file
  visit-Rising fi d s h lt =
      let next : (s.next_unid + 1) % 2 ^ 32 ≡ s.next_unid + 1 = omega arith in
      let new : Song = record {
        filename = fi.path;
        unid = s.next_unid + 1;
        delete_after_play = delete_after;
      } in
      elim (Bool-cases (leb s.stamp d)) [
        | inl e ↦ rw (e, next) (Rising-snoc 0 s.next_unid s.songs new h (omega arith), omega arith)
        | inr e ↦ rw e (h, omega arith)
      ]

  visit_all-Rising :
      (ds : List Dated) (s : Scan)
      → Rising 0 s.songs s.next_unid
      → s.next_unid + length ds < 2 ^ 32
      → Rising 0
          (visit_all memory true delete_after ds s).songs
          (visit_all memory true delete_after ds s).next_unid
  unfolding visit_all
  visit_all-Rising [] s h lt = h
  visit_all-Rising ((fi, d) ∷ ds) s h lt =
      let v = visit-Rising fi d s h (omega arith) in
      visit_all-Rising ds (visit memory true delete_after fi d s) v.0 (omega arith)

Rising-lower :
    (low low' top : ℕ) (ss : List Song) → low' ≤ low → Rising low ss top → Rising low' ss top
Rising-lower low low' top [] le h = omega arith
Rising-lower low low' top (s ∷ ss) le h = (omega arith, h.1)

next_of-Rising :
    (rand : ℕ) (ss : List Song) (c : Songlist)
    → c.is_queue ≡ true
    → c.songs ≡ ss
    → Rising 0 ss c.next_unid
    → Rising 0 (next_of rand ss c).0.songs (next_of rand ss c).0.next_unid
unfolding next_of
next_of-Rising rand [] c q e h = rw e h
next_of-Rising rand (s ∷ ss) c q e h = rw q (Rising-lower s.unid 0 c.next_unid ss (omega arith) h.1)

-- The numbers of a queue's songs are different and rise along the queue, up to the last one given.
-- Each `Update` and each `GetNextSong` keeps that, until the 32-bit counter is used up.
pub queue-Rising :
    (fuel rand : ℕ) (memory : ℕ → Bool) (files : List FileInfo) (ds : List Dated) (directory : Text)
    (stamp : ℕ) (delete_after : Bool) (c : Songlist)
    → c.is_queue ≡ true
    → dated files ≡ some ds
    → length files ≤ fuel
    → c.next_unid + length ds < 2 ^ 32
    → Rising 0 c.songs c.next_unid
    → (let u = (update_dir fuel memory (holds files) directory stamp delete_after c).0 in
        Rising 0 u.songs u.next_unid)
      × (let g = (get_next_song rand c).0 in Rising 0 g.songs g.next_unid)
unfolding get_next_song
queue-Rising fuel rand memory files ds directory stamp delete_after c q e f lt h = (
  rw (update_dir-queue fuel memory files ds directory stamp delete_after c q e f)
      (visit_all-Rising memory delete_after ds (begin stamp c) h lt),
  next_of-Rising rand c.songs c q refl h,
)
