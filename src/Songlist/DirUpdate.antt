-- ===== src/Songlist/DirUpdate.antt =====
-- `Update` of a directory's list: when it ends, what a queue gains, and that nothing is queued twice.
use netdj.Prelude.{
  ℕ, zero, suc, ◌+◌, ◌≤◌, ◌<◌, ◌≡◌, refl, ap, sym, ◌∙◌, Bool, true, Option, none, some, List, [],
  ◌∷◌, length, arith, Text, inl, inr, All, Option-cases, ◌>>=◌,
}
use netdj.Outcome.{returns, spins}
use netdj.Songlist.{Songlist, dir}
use netdj.Songlist.Dir.{FileInfo, holds, Scan, file_date, visit, scan, update_dir}

abbrev pub Dated : Type 0
Dated = FileInfo × ℕ

-- The entries with their dates; `none` if the date of one cannot be read.
unfoldable pub dated : List FileInfo → Option (List Dated)
dated [] = some []
dated (fi ∷ rest) = do d ← file_date fi; ds ← dated rest; some ((fi, d) ∷ ds)

module _ (memory : ℕ → Bool) (is_queue delete_after : Bool) where
  -- The loop with every date at hand.
  unfoldable pub visit_all : List Dated → Scan → Scan
  visit_all [] s = s
  visit_all ((fi, d) ∷ ds) s = visit_all ds (visit memory is_queue delete_after fi d s)

  scan-none :
      (fuel : ℕ) (files : List FileInfo) (s : Scan)
      → dated files ≡ none
      → scan fuel memory is_queue delete_after files s ≡ none
  unfolding scan dated
  scan-none zero [] s h = cc
  scan-none zero (fi ∷ rest) s h = refl
  scan-none (suc fuel) [] s h = cc
  scan-none (suc fuel) (fi ∷ rest) s h = elim (Option-cases (file_date fi)) [
    | inl e ↦ rw (e, scan) (scan-none fuel (fi ∷ rest) s h)
    | inr (d, e) ↦
        rw (e, scan)
          (scan-none fuel rest (visit memory is_queue delete_after fi d s) (ground arith))
  ]

  scan-some :
      (fuel : ℕ) (files : List FileInfo) (ds : List Dated) (s : Scan)
      → dated files ≡ some ds
      → length files ≤ fuel
      → scan fuel memory is_queue delete_after files s ≡ some (visit_all ds s)
  unfolding scan dated visit_all
  scan-some fuel [] [] s h f = refl
  scan-some fuel [] (x ∷ ds) s h f = cc
  scan-some zero (fi ∷ rest) ds s h f = absurd (omega arith)
  scan-some (suc fuel) (fi ∷ rest) [] s h f = ground arith
  scan-some (suc fuel) (fi ∷ rest) ((gi, g) ∷ ds) s h f = elim (Option-cases (file_date fi)) [
    | inl e ↦ ground arith
    | inr (d, e) ↦
        ground (arith, scan-some fuel rest ds (visit memory is_queue delete_after fi d s))
  ]

-- `Update` of a directory that exists ends within as many rounds as it has entries, if the date of
-- each entry can be read.
pub update_dir-ends :
    (fuel : ℕ) (memory : ℕ → Bool) (files : List FileInfo) (ds : List Dated) (directory : Text)
    (stamp : ℕ) (delete_after : Bool) (c : Songlist)
    → dated files ≡ some ds
    → length files ≤ fuel
    → (update_dir fuel memory (holds files) directory stamp delete_after c).1 ≡ returns tt
unfolding update_dir
update_dir-ends fuel memory files ds directory stamp delete_after c e f =
    let s : Scan = record {
      stamp = stamp;
      next_unid = c.next_unid;
      songs = c.songs;
      newlist = [];
    } in
    rw (scan-some memory c.is_queue delete_after fuel files ds s e f)

-- If the date of one entry cannot be read, `Update` has not ended after any number of rounds.
pub update_dir_spins :
    (fuel : ℕ) (memory : ℕ → Bool) (files : List FileInfo) (directory : Text) (stamp : ℕ)
    (delete_after : Bool) (c : Songlist)
    → dated files ≡ none
    → update_dir fuel memory (holds files) directory stamp delete_after c ≡ (c, spins)
unfolding update_dir
update_dir_spins fuel memory files directory stamp delete_after c h =
    let s : Scan = record {
      stamp = stamp;
      next_unid = c.next_unid;
      songs = c.songs;
      newlist = [];
    } in
    rw (scan-none memory c.is_queue delete_after fuel files s h)

-- No entry's date is after `t`; all are before `t`; in the order of their dates, from `t` on.
abbrev pub Upto : ℕ → List Dated → Type 0
Upto t = All (λ p. p.1 ≤ t)

abbrev pub Before : ℕ → List Dated → Type 0
Before t = All (λ p. p.1 < t)

Upto-mono : (t u : ℕ) (ds : List Dated) → t ≤ u → Upto t ds → Upto u ds
Upto-mono t u [] h b = tt
Upto-mono t u (p ∷ ds) h b = (omega arith, Upto-mono t u ds h b.1)

Upto-Before : (t : ℕ) (ds : List Dated) → Upto t ds → Before (t + 1) ds
Upto-Before t [] h = tt
Upto-Before t (p ∷ ds) h = (omega arith, Upto-Before t ds h.1)

module _ (memory : ℕ → Bool) (delete_after : Bool) where
  -- In a queue the time stamp only grows, and is never behind a file that was looked at.
  visit-stamp :
      (fi : FileInfo) (d : ℕ) (s : Scan)
      → (s.stamp ≤ (visit memory true delete_after fi d s).stamp)
        × (d ≤ (visit memory true delete_after fi d s).stamp)
  unfolding visit
  visit-stamp fi d s = ground arith

  visit_all-stamp :
      (ds : List Dated) (s : Scan)
      → (s.stamp ≤ (visit_all memory true delete_after ds s).stamp)
        × Upto (visit_all memory true delete_after ds s).stamp ds
  unfolding visit_all
  visit_all-stamp [] s = (omega arith, tt)
  visit_all-stamp ((fi, d) ∷ ds) s =
      let t = visit memory true delete_after fi d s in
      let v = visit-stamp fi d s in
      let ih = visit_all-stamp ds t in (omega arith, (omega arith, ih.1))

  -- Files from before the time stamp change nothing.
  visit_all-Before :
      (ds : List Dated) (s : Scan) → Before s.stamp ds → visit_all memory true delete_after ds s ≡ s
  unfolding visit_all
  visit_all-Before [] s h = refl
  visit_all-Before ((fi, d) ∷ ds) s h =
      let same : visit memory true delete_after fi d s ≡ s = unfold visit in ground arith in
      rw same (visit_all-Before ds s h.1)

-- A queue after the loop has left `t` behind.
abbrev pub queued : Songlist → Text → Bool → Scan → Songlist
queued c directory delete_after t = record c {
  next_unid = t.next_unid;
  songs = t.songs;
  kind = dir directory (t.stamp + 1) delete_after;
}

abbrev pub begin : ℕ → Songlist → Scan
begin stamp c = record { stamp = stamp; next_unid = c.next_unid; songs = c.songs; newlist = [] }

pub update_dir-queue :
    (fuel : ℕ) (memory : ℕ → Bool) (files : List FileInfo) (ds : List Dated) (directory : Text)
    (stamp : ℕ) (delete_after : Bool) (c : Songlist)
    → c.is_queue ≡ true
    → dated files ≡ some ds
    → length files ≤ fuel
    → update_dir fuel memory (holds files) directory stamp delete_after c ≡ (
      queued c directory delete_after (visit_all memory true delete_after ds (begin stamp c)),
      returns tt,
    )
unfolding update_dir
update_dir-queue fuel memory files ds directory stamp delete_after c q e f =
    rw (q, scan-some memory true delete_after fuel files ds (begin stamp c) e f) (ground arith)

update_dir-settled :
    (fuel : ℕ) (memory : ℕ → Bool) (files : List FileInfo) (ds : List Dated) (directory : Text)
    (stamp : ℕ) (delete_after : Bool) (c : Songlist)
    → c.is_queue ≡ true
    → dated files ≡ some ds
    → length files ≤ fuel
    → Before stamp ds
    → (update_dir fuel memory (holds files) directory stamp delete_after c).0.songs ≡ c.songs
update_dir-settled fuel memory files ds directory stamp delete_after c q e f b = rw (
  update_dir-queue fuel memory files ds directory stamp delete_after c q e f,
  visit_all-Before memory delete_after ds (begin stamp c) b,
)

-- After an `Update` of a queue that could read all dates, another one with the directory as it was adds
-- no song, whatever the order and the dates of the files.
pub update_dir_twice :
    (fuel : ℕ) (memory memory' : ℕ → Bool) (files : List FileInfo) (ds : List Dated)
    (directory : Text) (stamp stamp' : ℕ) (delete_after : Bool) (c c' : Songlist)
    → c.is_queue ≡ true
    → dated files ≡ some ds
    → length files ≤ fuel
    → (update_dir fuel memory (holds files) directory stamp delete_after c).0 ≡ c'
    → c'.kind ≡ dir directory stamp' delete_after
    → (update_dir fuel memory' (holds files) directory stamp' delete_after c').0.songs ≡ c'.songs
update_dir_twice fuel memory memory' files ds directory stamp stamp' delete_after c c' q e f u k =
    let t = visit_all memory true delete_after ds (begin stamp c) in
    let first = update_dir-queue fuel memory files ds directory stamp delete_after c q e f in
    let same : c' ≡ queued c directory delete_after t = sym u ∙ ap (λ p. p.0) first in
    let kinds : dir directory (t.stamp + 1) delete_after ≡ dir directory stamp' delete_after =
      sym (ap (λ l. l.kind) same) ∙ k in
    let stamps : t.stamp + 1 ≡ stamp' = cc in
    let past = Upto-Before t.stamp ds (visit_all-stamp memory delete_after ds (begin stamp c)).1 in
    update_dir-settled fuel memory' files ds directory stamp' delete_after c'
      (ap (λ l. l.is_queue) same ∙ q) e f (rw stamps at past)
