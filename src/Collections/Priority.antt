-- ===== src/Collections/Priority.antt =====
-- The next song comes from the first collection that has one.
use netdj.Prelude.{
  ℕ, ◌+◌, ◌≡◌, refl, ap, true, false, Option, none, some, List, [], ◌∷◌, ◌++◌, map, length, Text,
  text_eq, arith, All, subst, sym, ◌↔◌,
}
use netdj.Outcome.{
  Outcome, returns, throws, faults, spins, std_exception, empty_collection, server_error,
}
use netdj.Song.{Song}
use netdj.Songlist.{Songlist}
use netdj.Collections.{World, attempt, select, shift, next_song, get_collection}

-- The collection has no song to give: the exception that the loop catches.
abbrev pub GivesNone : Outcome Song → Type 0
GivesNone o = (m : Text) × (o ≡ throws (empty_collection m))

abbrev pub HasNone : World → ℕ → Songlist → Type 0
HasNone w rand c = GivesNone (attempt w rand c).1

-- The song and its place: every collection before it had none and was updated, its own gave it, and
-- those behind it were not touched.
pub record Chosen (w : World) (rand : ℕ) (cols after_cols : List Songlist) (s : Song) (i : ℕ)
    : Type 0 where
  pub before : List Songlist
  pub chosen : Songlist
  pub behind : List Songlist
  pub splits : cols ≡ before ++ chosen ∷ behind
  pub place : length before ≡ i
  pub none_before : All (HasNone w rand) before
  pub gives : (attempt w rand chosen).1 ≡ returns s
  pub result :
      after_cols ≡ map (λ c. (attempt w rand c).0) before ++ (attempt w rand chosen).0 ∷ behind

attempt-cases :
    (w : World) (rand : ℕ) (c : Songlist)
    → (d : Songlist) × (o : Outcome Song) × (attempt w rand c ≡ (d, o))
attempt-cases w rand c = ((attempt w rand c).0, (attempt w rand c).1, refl)

-- One round of the loop, by what the first collection's attempt gave.
next_song-cons :
    (w : World) (rand : ℕ) (c d : Songlist) (o : Outcome Song) (after : List Songlist)
    → attempt w rand c ≡ (d, o)
    → next_song w rand (c ∷ after) ≡ select after (next_song w rand after) (d, o)
unfolding next_song
next_song-cons w rand c d o after e = rw e

shift-some :
    (o : Outcome (Option (Song × ℕ))) (s : Song) (i : ℕ)
    → shift o ≡ returns (some (s, i))
    → (j : ℕ) × (i ≡ j + 1) × (o ≡ returns (some (s, j)))
unfolding shift
shift-some (returns none) s i h = cc
shift-some (returns (some (t, j))) s i h = (j, cc, cc)
shift-some (throws e) s i h = cc
shift-some faults s i h = cc
shift-some spins s i h = cc

Chosen-here :
    (w : World) (rand : ℕ) (c d : Songlist) (after : List Songlist) (t s : Song) (i : ℕ)
    → attempt w rand c ≡ (d, returns t)
    → ◌≡◌ {A = Outcome (Option (Song × ℕ))} (returns (some (t, 0))) (returns (some (s, i)))
    → Chosen w rand (c ∷ after) (d ∷ after) s i
Chosen-here w rand c d after t s i e h = record {
  before = [];
  chosen = c;
  behind = after;
  splits = refl;
  place = cc;
  none_before = tt;
  gives = cc (ap (λ p. p.1) e);
  result = cc (ap (λ p. p.0) e);
}

Chosen-later :
    (w : World) (rand : ℕ) (c d : Songlist) (after after' : List Songlist) (m : Text) (s : Song)
    (j : ℕ)
    → attempt w rand c ≡ (d, throws (empty_collection m))
    → Chosen w rand after after' s j
    → Chosen w rand (c ∷ after) (d ∷ after') s (j + 1)
Chosen-later w rand c d after after' m s j e k = record {
  before = c ∷ k.before;
  chosen = k.chosen;
  behind = k.behind;
  splits = ap (◌∷◌ c) k.splits;
  place = omega (arith, k.place);
  none_before = ((m, ap (λ p. p.1) e), k.none_before);
  gives = k.gives;
  result = rw e (ap (◌∷◌ d) k.result);
}

Chosen-cons :
    (w : World) (rand : ℕ) (c d : Songlist) (o : Outcome Song) (after : List Songlist) (s : Song)
    (i : ℕ)
    → attempt w rand c ≡ (d, o)
    → ((j : ℕ)
        → (next_song w rand after).1 ≡ returns (some (s, j))
        → Chosen w rand after (next_song w rand after).0 s j)
    → (select after (next_song w rand after) (d, o)).1 ≡ returns (some (s, i))
    → Chosen w rand (c ∷ after) (select after (next_song w rand after) (d, o)).0 s i
unfolding select
Chosen-cons w rand c d (returns t) after s i e ih h = Chosen-here w rand c d after t s i e h
Chosen-cons w rand c d (throws (std_exception m)) after s i e ih h = cc
Chosen-cons w rand c d (throws (server_error m)) after s i e ih h = cc
Chosen-cons w rand c d (throws (empty_collection m)) after s i e ih h =
    let (j, p, r) = shift-some (next_song w rand after).1 s i h in
    subst (Chosen w rand (c ∷ after) (d ∷ (next_song w rand after).0) s) (sym p)
      (Chosen-later w rand c d after (next_song w rand after).0 m s j e (ih j r))
Chosen-cons w rand c d faults after s i e ih h = cc
Chosen-cons w rand c d spins after s i e ih h = cc

-- Whenever a song is returned it is the one of the first collection that has one: those before it
-- were updated and had none, and those behind it were left alone.
pub next_song-Chosen :
    (w : World) (rand : ℕ) (cols : List Songlist) (s : Song) (i : ℕ)
    → (next_song w rand cols).1 ≡ returns (some (s, i))
    → Chosen w rand cols (next_song w rand cols).0 s i
next_song-Chosen w rand [] s i h = unfold next_song in cc
next_song-Chosen w rand (c ∷ after) s i h =
    let (d, o, e) = attempt-cases w rand c in
    let step = next_song-cons w rand c d o after e in
    rw step
      (Chosen-cons w rand c d o after s i e (λ j. next_song-Chosen w rand after s j) (rw step at h))

shift-none : (o : Outcome (Option (Song × ℕ))) → shift o ≡ returns none → o ≡ returns none
unfolding shift
shift-none (returns none) h = refl
shift-none (returns (some (t, j))) h = cc
shift-none (throws e) h = cc
shift-none faults h = cc
shift-none spins h = cc

HasNone-cons :
    (w : World) (rand : ℕ) (c d : Songlist) (o : Outcome Song) (after : List Songlist)
    → attempt w rand c ≡ (d, o)
    → (select after (next_song w rand after) (d, o)).1 ≡ returns none
    → HasNone w rand c × ((next_song w rand after).1 ≡ returns none)
unfolding select
HasNone-cons w rand c d (returns t) after e h = cc
HasNone-cons w rand c d (throws (std_exception m)) after e h = cc
HasNone-cons w rand c d (throws (server_error m)) after e h = cc
HasNone-cons w rand c d (throws (empty_collection m)) after e h =
    ((m, ap (λ p. p.1) e), shift-none (next_song w rand after).1 h)
HasNone-cons w rand c d faults after e h = cc
HasNone-cons w rand c d spins after e h = cc

next_song-All :
    (w : World) (rand : ℕ) (cols : List Songlist)
    → (next_song w rand cols).1 ≡ returns none
    → All (HasNone w rand) cols
next_song-All w rand [] h = tt
next_song-All w rand (c ∷ after) h =
    let (d, o, e) = attempt-cases w rand c in
    let both = HasNone-cons w rand c d o after e (rw (next_song-cons w rand c d o after e) at h) in
    (both.0, next_song-All w rand after both.1)

next_song-none :
    (w : World) (rand : ℕ) (cols : List Songlist)
    → All (HasNone w rand) cols
    → (next_song w rand cols).1 ≡ returns none
unfolding select shift
next_song-none w rand [] h = unfold next_song in refl
next_song-none w rand (c ∷ after) h =
    let (m, e) = h.0 in
    let whole : attempt w rand c ≡ ((attempt w rand c).0, throws (empty_collection m)) =
      ap (λ o. ((attempt w rand c).0, o)) e in
    rw (next_song-cons w rand c _ _ after whole) (rw (next_song-none w rand after h.1))

-- `GetNextSong` returns false exactly if every collection, after its update, has no song.
pub next_song-none_iff :
    (w : World) (rand : ℕ) (cols : List Songlist)
    → ((next_song w rand cols).1 ≡ returns none) ↔ All (HasNone w rand) cols
next_song-none_iff w rand cols = (next_song-All w rand cols, next_song-none w rand cols)

-- `GetCollection` finds the first collection of that name, and 0 only if there is none.
get_collection-first :
    (name : Text) (before behind : List Songlist) (c : Songlist)
    → All (λ d. text_eq d.identifier name ≡ false) before
    → (text_eq c.identifier name ≡ true → get_collection name (before ++ c ∷ behind) ≡ some c)
      × (get_collection name before ≡ none)
unfolding get_collection
get_collection-first name [] behind c h = (λ e. rw e, refl)
get_collection-first name (d ∷ before) behind c h =
    let ih = get_collection-first name before behind c h.1 in (λ e. rw h.0 (ih.0 e), rw h.0 ih.1)
