-- ===== src/Legacy/Player/Repeated.antt =====
-- The player and a song that is taken twice.
use netdj.Prelude.{
  ℕ, ◌≡◌, refl, sym, ap, ◌∙◌, Bool, true, false, not, ◌&&◌, ◌||◌, Option, none, some, List, [], ◌∷◌,
  Text, text_eq, text_eq_iff, is_empty, Bool-cases, inl, inr, if◌then◌else◌,
}
use netdj.Legacy.File.{Disk, File, Stat, no_stat, exists, update_stat, with_stat}
use netdj.Legacy.Directory.{Outside}
use netdj.Legacy.CurrentSong.{CurrentSong, get, set, internal_set}
use netdj.Legacy.Program.{Program}
use netdj.Legacy.Player.{Block, Round, stream, delete_it, play, take_song, quiet}

-- The flags are all that streaming changes.
stream-current : (bs : List Block) (p : Program) → (stream bs p).1.current ≡ p.current
unfolding stream
stream-current [] p = refl
stream-current (b ∷ bs) p =
    let now : Program = record p {
      stop_player = p.stop_player || b.stop_set;
      next_song = p.next_song || b.next_set;
    } in
    either (now.stop_player || now.next_song) (is_empty b.bytes || not b.sent) ([], now)
      (b.bytes ∷ (stream bs now).0, (stream bs now).1) p.current refl (stream-current bs now)
  where
    either :
        (x y : Bool) (s t : List Text × Program) (c : CurrentSong)
        → s.1.current ≡ c
        → t.1.current ≡ c
        → (if x then s else if y then s else t).1.current ≡ c
    either true y s t c h k = h
    either false true s t c h k = h
    either false false s t c h k = k

with_stat-name : (s : Option Stat) (f : File) → (with_stat s f).0.name ≡ f.name
unfolding with_stat
with_stat-name none f = refl
with_stat-name (some s) f =
    either s.is_directory (record f { stat_buf = no_stat; stat_valid = false }, false)
      (record f { stat_buf = s; stat_valid = true }, true) refl refl
  where
    either :
        (b : Bool) (x y : File × Bool)
        → x.0.name ≡ f.name
        → y.0.name ≡ f.name
        → (if b then x else y).0.name ≡ f.name
    either true x y h k = h
    either false x y h k = k

exists-name : (disk : Disk) (f : File) → (exists disk f).0.name ≡ f.name
unfolding exists update_stat
exists-name disk f = with_stat-name (if is_empty f.name then none else disk.stat f.name) f

play-current :
    (o : Outside) (logging : Bool) (blocks : Option (List Block)) (i : ℕ) (f : File) (p : Program)
    → (play o logging blocks i f p).program.current.curr_file ≡ f
unfolding play set internal_set
play-current o logging none i f p = refl
play-current o logging (some bs) i f p =
    ap (λ (c : CurrentSong). c.curr_file)
      (stream-current bs (record p { current = (set f (delete_it i p) p.current).0 }))

test_true : (a t : Bool) → a ≡ true → t ≡ false → a && not t ≡ true
test_true true false h k = refl
test_true true true h k = absurd cc
test_true false t h k = absurd cc

test_false : (a t : Bool) → t ≡ true → a && not t ≡ false
test_false true true k = refl
test_false false true k = refl
test_false a false k = absurd cc

chosen {ℓ} : {A : Type ℓ} (b : Bool) (x y : A) → b ≡ true → (if b then x else y) ≡ x
chosen true x y h = refl
chosen false x y h = absurd cc

passed {ℓ} : {A : Type ℓ} (b : Bool) (x y : A) → b ≡ false → (if b then x else y) ≡ y
passed false x y h = refl
passed true x y h = absurd cc

take_song-quiet :
    (o : Outside) (logging : Bool) (blocks : Option (List Block)) (i : ℕ) (f : File) (p : Program)
    → (exists o.disk f).0.name ≡ (get p.current).name
    → take_song o logging blocks i f p ≡ quiet p
unfolding take_song
take_song-quiet o logging blocks i f p e =
    let found = exists o.disk f in
    passed _ (play o logging blocks i found.0 p) (quiet p) (
      test_false found.1 (text_eq found.0.name (get p.current).name)
        ((text_eq_iff found.0.name (get p.current).name).1 e))

take_song-current :
    (o : Outside) (logging : Bool) (blocks : Option (List Block)) (i : ℕ) (f : File) (p : Program)
    → (exists o.disk f).1 ≡ true
    → (get (take_song o logging blocks i f p).program.current).name ≡ f.name
unfolding take_song
take_song-current o logging blocks i f p e =
    let found = exists o.disk f in
    let same = text_eq found.0.name (get p.current).name in
    elim (Bool-cases same) [
      | inl k ↦
          ap (λ (r : Round). r.program.current.curr_file.name)
            (passed _ (play o logging blocks i found.0 p) (quiet p) (test_false found.1 same k))
          ∙ sym ((text_eq_iff found.0.name (get p.current).name).0 k)
          ∙ exists-name o.disk f
      | inr k ↦
          ap (λ (r : Round). r.program.current.curr_file.name)
            (chosen _ (play o logging blocks i found.0 p) (quiet p) (test_true found.1 same e k))
          ∙ ap (λ (g : File). g.name) (play-current o logging blocks i found.0 p)
          ∙ exists-name o.disk f
    ]

-- A song that is there and was taken from some list, and is taken once more from this or another
-- list: the second round sends nothing, deletes nothing, does not sleep and changes nothing.
pub take_song-again :
    (o : Outside) (logging again : Bool) (blocks more : Option (List Block)) (i j : ℕ) (f : File)
    (p : Program)
    → (exists o.disk f).1 ≡ true
    → take_song o again more j f (take_song o logging blocks i f p).program
      ≡ quiet (take_song o logging blocks i f p).program
take_song-again o logging again blocks more i j f p e =
    take_song-quiet o again more j f (take_song o logging blocks i f p).program
      (exists-name o.disk f ∙ sym (take_song-current o logging blocks i f p e))
