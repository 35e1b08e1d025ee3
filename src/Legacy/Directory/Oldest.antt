-- ===== src/Legacy/Directory/Oldest.antt =====
-- A playlist gives its oldest song first.
use mathlib.Core.List.{Perm}
use netdj.Prelude.{
  ℕ, ◌≤◌, ◌≡◌, refl, sym, ap, ◌∙◌, subst, true, false, Option, none, some, List, [], ◌∷◌, ◌++◌,
  Text, is_empty, All, if◌then◌else◌,
}
use netdj.Legacy.File.{Disk, File, get_ctime}
use netdj.Legacy.Directory.{Directory, Run, returns, ◌>>=◌, Outside, choose, get_song}
use netdj.Legacy.Directory.Entries.{names, gained, Long}
use netdj.Legacy.Directory.Update.{update-Updated}

-- In the order of `operator<`.
abbrev pub Rising : Disk → List File → Type 0
Rising disk [] = Unit
Rising disk (f ∷ rest) = All (λ g. get_ctime disk f ≤ get_ctime disk g) rest × Rising disk rest

-- What is taken of a list of names: nothing from an empty list, else one of which the date is least.
abbrev pub Oldest : Disk → List Text → Directory × Option File → Type 0
Oldest disk all (d, none) = (d.files ≡ []) × Perm [] all
Oldest disk all (d, some f) =
    All (λ g. get_ctime disk f ≤ get_ctime disk g) d.files × Perm (f.name ∷ names d.files) all

choose-Oldest :
    (disk : Disk) (rand : ℕ) (files : List File) (d : Directory) (all : List Text)
    → d.files ≡ files
    → d.playlist ≡ true
    → Rising disk files
    → Perm (names files) all
    → (r : Directory × Option File) × (choose rand files d ≡ returns r) × Oldest disk all r
unfolding choose
choose-Oldest disk rand [] d all e p h perm = ((d, none), refl, (e, perm))
choose-Oldest disk rand (f ∷ rest) d all e p h perm =
    ((record d { files = rest }, some f), rw p, (h.0, perm))

-- A playlist that is a directory gives, of the files that it has and those that its `Update` gains, one
-- that has changed first, and keeps the others; it gives none exactly if there are none. `std::sort` is
-- to rearrange a list into the order of the dates.
pub get_song-Oldest :
    (o : Outside) (rand : ℕ) (d : Directory) (listed : List Text)
    → ((l : List File) → Perm (o.sort l) l)
    → ((l : List File) → Rising o.disk (o.sort l))
    → d.from_file ≡ false
    → d.playlist ≡ true
    → is_empty d.dirname ≡ false
    → o.listing d.dirname ≡ some listed
    → Long d.dirname listed
    → (r : Directory × Option File) × (get_song o rand d ≡ returns r)
      × Oldest o.disk (names d.files ++ gained o.disk d.last_update d.dirname listed) r
unfolding get_song
get_song-Oldest o rand d listed perm rising from play n e long =
    let (d', done, u) = update-Updated o d listed perm from n e long in
    let l = u.is_sorted.0 in
    let in_order : d'.files ≡ o.sort l = u.is_sorted.1 ∙ ap (λ b. if b then o.sort l else l) play in
    let (r, chosen, oldest) =
      choose-Oldest o.disk rand d'.files d'
        (names d.files ++ gained o.disk d.last_update d.dirname listed) refl (u.same_list ∙ play)
        (subst (Rising o.disk) (sym in_order) (rising l)) u.rearranged in
    (r, ap (λ (u : Run Directory). u >>= (λ d'. choose rand d'.files d')) done ∙ chosen, oldest)
