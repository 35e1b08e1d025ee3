-- ===== src/Legacy/Directory/Entries.antt =====
-- What the loop over the entries of a directory gains.
use netdj.Prelude.{
  ◌⊎◌, ◌-◌, text_eq, drop, ℕ, ◌≤◌, ◌≡◌, refl, ap, ◌∙◌, Bool, true, false, not, ◌&&◌, none, some,
  List, [], ◌∷◌, ◌++◌, append_assoc, append-nil, map, map-append, Text, codes, is_empty, length,
  All, ltb, if◌then◌else◌, arith, inl, inr, Bool-cases, Option-cases,
}
use netdj.Legacy.File.{Disk, File, Stat, set_name, update_stat, with_stat, get_ctime, set_id}
use netdj.Legacy.Directory.{
  lowered, Directory, returns, exits, out_of_range, undefined, ◌>>=◌, is_mp3, push, load_entry,
  load_entries,
}

abbrev pub names : List File → List Text
names = map (λ f. f.name)

-- There is such a file, which is no directory, has changed after the time, and ends as an MP3.
unfoldable pub is_new : Disk → ℕ → Text → Bool
is_new disk since path =
    not (is_empty path)
    && (elim (disk.stat path) [ none ↦ false | some s ↦ not s.is_directory && ltb since s.ctime ])
    && (elim (is_mp3 path) [
      | returns b ↦ b
      | exits n ↦ false
      | out_of_range ↦ false
      | undefined ↦ false
    ])

-- The new files among the names of a directory, in the order of the names.
unfoldable pub gained : Disk → ℕ → Text → List Text → List Text
gained disk since dirname [] = []
gained disk since dirname (n ∷ rest) =
    let more = gained disk since dirname rest in
    if is_new disk since (dirname ++ n) then (dirname ++ n) ∷ more else more

-- The names are long enough for their last four characters.
abbrev pub Long : Text → List Text → Type 0
Long dirname = All (λ n. 4 ≤ length (dirname ++ n))

is_mp3-long : (path : Text) → 4 ≤ length path → (b : Bool) × (is_mp3 path ≡ returns b)
unfolding is_mp3
is_mp3-long path h = (text_eq (lowered (drop (length path - 4) path)) (codes ".mp3"), ground arith)

record Step (disk : Disk) (since : ℕ) (path : Text) (d d' : Directory) : Type 0 where
  added : names d'.files ≡ names d.files ++ (if is_new disk since path then path ∷ [] else [])
  same_list : d'.playlist ≡ d.playlist
  same_name : d'.dirname ≡ d.dirname
  same_time : d'.last_update ≡ d.last_update

-- What `stat` says of a path is what the name set has and gets.
set_name-none :
    (disk : Disk) (path : Text) (f : File)
    → (disk.stat path ≡ none) ⊎ ((s : Stat) × (disk.stat path ≡ some s) × (s.is_directory ≡ true))
    → (set_name disk path f).1 ≡ false
unfolding set_name update_stat with_stat
set_name-none disk [] f h = refl
set_name-none disk (c ∷ p) f (inl e) = rw e
set_name-none disk (c ∷ p) f (inr (s, e, k)) = rw (e, k)

set_name-some :
    (disk : Disk) (path : Text) (f : File) (s : Stat)
    → is_empty path ≡ false
    → disk.stat path ≡ some s
    → s.is_directory ≡ false
    → set_name disk path f ≡ (record f { name = path; stat_buf = s; stat_valid = true }, true)
unfolding set_name update_stat with_stat
set_name-some disk path f s n e k = rw (n, e, k)

load_entry-none :
    (disk : Disk) (memory : File) (path : Text) (d : Directory)
    → (set_name disk path memory).1 ≡ false
    → load_entry disk memory path d ≡ returns d
unfolding load_entry
load_entry-none disk memory path d e = rw e

load_entry-some :
    (disk : Disk) (memory : File) (path : Text) (d : Directory) (s : Stat) (f : File) (mp3 : Bool)
    → set_name disk path memory ≡ (f, true)
    → get_ctime disk f ≡ s.ctime
    → is_mp3 path ≡ returns mp3
    → load_entry disk memory path d
      ≡ returns (if ltb d.last_update s.ctime && mp3 then push f d else d)
unfolding load_entry
load_entry-some disk memory path d s f mp3 e k m =
    rw (e, k, m) (cases (ltb d.last_update s.ctime) mp3)
  where
    cases :
        (b c : Bool)
        → (if b then returns (if c then push f d else d) else returns d)
          ≡ returns (if b && c then push f d else d)
    cases true c = refl
    cases false c = refl

pushed :
    (disk : Disk) (path : Text) (d : Directory) (f : File) (b : Bool)
    → f.name ≡ path
    → is_new disk d.last_update path ≡ b
    → Step disk d.last_update path d (if b then push f d else d)
unfolding push
pushed disk path d f true e k = record {
  added = rw (k, map-append (λ (g : File). g.name) d.files (set_id d.next_file_id f ∷ []), e);
  same_list = refl;
  same_name = refl;
  same_time = refl;
}
pushed disk path d f false e k = record {
  added = rw (k, append-nil);
  same_list = refl;
  same_name = refl;
  same_time = refl;
}

load_entry_lem :
    (disk : Disk) (memory : File) (path : Text) (d : Directory)
    → 4 ≤ length path
    → (d' : Directory) × (load_entry disk memory path d ≡ returns d')
      × Step disk d.last_update path d d'
unfolding is_new
load_entry_lem disk memory [] d h = absurd (omega arith)
load_entry_lem disk memory (c ∷ p) d h =
    let path : Text = c ∷ p in
    let (mp3, m) = is_mp3-long (c ∷ p) h in
    elim (Option-cases (disk.stat (c ∷ p))) [
      | inl e ↦ (
        d,
        load_entry-none disk memory (c ∷ p) d (set_name-none disk (c ∷ p) memory (inl e)),
        pushed disk (c ∷ p) d (record memory { name = c ∷ p }) false refl (rw e),
      )
      | inr (s, e) ↦ elim (Bool-cases s.is_directory) [
        | inl k ↦ (
          d,
          load_entry-none disk memory (c ∷ p) d (set_name-none disk (c ∷ p) memory (inr (s, e, k))),
          pushed disk (c ∷ p) d (record memory { name = c ∷ p }) false refl (rw (e, k)),
        )
        | inr k ↦ (
          _,
          load_entry-some disk memory (c ∷ p) d s
              (record memory { name = c ∷ p; stat_buf = s; stat_valid = true }) mp3
              (set_name-some disk (c ∷ p) memory s refl e k) (unfold get_ctime in refl) m,
          pushed disk (c ∷ p) d (record memory { name = c ∷ p; stat_buf = s; stat_valid = true })
              (ltb d.last_update s.ctime && mp3) refl (rw (e, k, m)),
        )
      ]
    ]

-- One name more in front.
gained-cons :
    (disk : Disk) (since : ℕ) (dirname n : Text) (rest before : List Text)
    → (before ++ (if is_new disk since (dirname ++ n) then (dirname ++ n) ∷ [] else []))
        ++ gained disk since dirname rest
      ≡ before ++ gained disk since dirname (n ∷ rest)
unfolding gained
gained-cons disk since dirname n rest before =
    elim (Bool-cases (is_new disk since (dirname ++ n))) [
      | inl e ↦ rw e (append_assoc before ((dirname ++ n) ∷ []) (gained disk since dirname rest))
      | inr e ↦ rw (e, append-nil)
    ]

load_entries-cons :
    (disk : Disk) (memory : File) (n : Text) (rest : List Text) (dirname : Text) (d d' : Directory)
    → d.dirname ≡ dirname
    → load_entry disk memory (dirname ++ n) d ≡ returns d'
    → load_entries disk memory (n ∷ rest) d ≡ load_entries disk memory rest d'
unfolding load_entries
load_entries-cons disk memory n rest dirname d d' e one =
    ap (λ (t : Text). load_entry disk memory (t ++ n) d >>= load_entries disk memory rest) e
    ∙ rw one

pub load_entries_lem :
    (disk : Disk) (memory : File) (rest : List Text) (dirname : Text) (since : ℕ) (d : Directory)
    → d.dirname ≡ dirname
    → d.last_update ≡ since
    → Long dirname rest
    → (d' : Directory) × (load_entries disk memory rest d ≡ returns d')
      × (names d'.files ≡ names d.files ++ gained disk since dirname rest)
      × (d'.playlist ≡ d.playlist)
load_entries_lem disk memory [] dirname since d e k h =
    (d, unfold load_entries in refl, unfold gained in rw append-nil, refl)
load_entries_lem disk memory (n ∷ rest) dirname since d e k h =
    let (d', one, step) = load_entry_lem disk memory (dirname ++ n) d h.0 in
    let (d'', more, files, list) =
      load_entries_lem disk memory rest dirname since d' (step.same_name ∙ e) (step.same_time ∙ k)
        h.1 in
    (
      d'',
      load_entries-cons disk memory n rest dirname d d' e one ∙ more,
      files
          ∙ ap (λ l. l ++ gained disk since dirname rest)
              (step.added
                ∙ ap
                    (λ t.
                      names d.files
                      ++ (if is_new disk t (dirname ++ n) then (dirname ++ n) ∷ [] else []))
                    k)
          ∙ gained-cons disk since dirname n rest (names d.files),
      list ∙ step.same_list,
    )
