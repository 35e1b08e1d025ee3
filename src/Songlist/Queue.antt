-- ===== src/Songlist/Queue.antt =====
-- Taking songs: a queue gives them first in, first out; other lists choose by `get_rand`.
use netdj.Prelude.{
  ℕ, ◌-◌, ◌≤◌, ◌<◌, ◌^◌, ◌≡◌, ◌≢◌, refl, ap, true, false, none, List, [], ◌∷◌, ◌++◌, map,
  append-nil, append_assoc, ◌∙◌, length, get_elem?, take, drop, arith,
}
use netdj.Outcome.{Outcome, returns, faults}
use netdj.Rand.{rand_limit, get_rand}
use netdj.Rand.Bounds.{get_rand_top}
use netdj.Song.{Song}
use netdj.Songlist.{Songlist, at, next_of, get_next_song, add_song}

-- `GetNextSong` called for each of the given results of `rand`, with all that came back.
pub take_songs : List ℕ → Songlist → Songlist × List (Outcome Song)
take_songs [] c = (c, [])
take_songs (r ∷ rs) c =
    let (c', o) = get_next_song r c in let (c'', os) = take_songs rs c' in (c'', o ∷ os)

-- `AddSong` called for each song.
pub add_songs : List Song → Songlist → Songlist
add_songs [] c = c
add_songs (s ∷ ss) c = add_songs ss (add_song s c).0

songs-add_songs :
    (ss : List Song) (c : Songlist) → add_songs ss c ≡ record c { songs = c.songs ++ ss }
unfolding add_songs add_song
songs-add_songs [] c = rw append-nil
songs-add_songs (s ∷ ss) c =
    songs-add_songs ss (record c { songs = c.songs ++ s ∷ [] }) ∙ rw append_assoc

next_of-queue :
    (r : ℕ) (s : Song) (ss : List Song) (c : Songlist)
    → c.is_queue ≡ true
    → get_next_song r (record c { songs = s ∷ ss }) ≡ (record c { songs = ss }, returns s)
unfolding get_next_song
next_of-queue r s ss c q = ground arith

take_songs-cons :
    (r : ℕ) (rs : List ℕ) (c d : Songlist) (o : Outcome Song)
    → get_next_song r c ≡ (d, o)
    → take_songs (r ∷ rs) c ≡ ((take_songs rs d).0, o ∷ (take_songs rs d).1)
unfolding take_songs
take_songs-cons r rs c d o e = rw e

take_songs-queue :
    (rs : List ℕ) (ss : List Song) (c : Songlist)
    → c.is_queue ≡ true
    → length rs ≤ length ss
    → take_songs rs (record c { songs = ss })
      ≡ (record c { songs = drop (length rs) ss }, map returns (take (length rs) ss))
unfolding take_songs
take_songs-queue [] ss c q h = refl
take_songs-queue (r ∷ rs) [] c q h = absurd (omega arith)
take_songs-queue (r ∷ rs) (s ∷ ss) c q h =
    take_songs-cons r rs (record c { songs = s ∷ ss }) (record c { songs = ss }) (returns s)
      (next_of-queue r s ss c q)
    ∙ ap (λ (p : Songlist × List (Outcome Song)). (p.0, returns s ∷ p.1))
        (take_songs-queue rs ss c q (omega arith))

-- A queue is first in, first out: what was added to an empty one comes back in the order in which it
-- was added, whatever the random numbers, and the rest stays.
pub take_songs-add_songs :
    (rs : List ℕ) (ss : List Song) (c : Songlist)
    → c.is_queue ≡ true
    → c.songs ≡ []
    → length rs ≤ length ss
    → take_songs rs (add_songs ss c)
      ≡ (record c { songs = drop (length rs) ss }, map returns (take (length rs) ss))
take_songs-add_songs rs ss c q e h = rw (songs-add_songs ss c, e) (take_songs-queue rs ss c q h)

get_elem?-length : (ss : List Song) → get_elem? ss (length ss) ≡ none
get_elem?-length [] = refl
get_elem?-length (s ∷ ss) = get_elem?-length ss

next_of-top :
    (rand : ℕ) (ss : List Song) (c : Songlist)
    → c.is_queue ≡ false
    → ss ≢ []
    → get_rand (length ss) rand ≡ length ss
    → next_of rand ss c ≡ (c, faults)
unfolding next_of at
next_of-top rand [] c q ne h = absurd (ne refl)
next_of-top rand (s ∷ ss) c q ne h = rw (q, h, get_elem?-length (s ∷ ss))

-- Each list that is no queue and has songs, fewer than 2 ^ 24, is read one past its end at the
-- greatest 64 results of `rand`.
pub get_next_song_top :
    (rand : ℕ) (c : Songlist)
    → c.is_queue ≡ false
    → c.songs ≢ []
    → length c.songs < 2 ^ 24
    → rand_limit - 64 ≤ rand
    → rand < rand_limit
    → get_next_song rand c ≡ (c, faults)
unfolding get_next_song
get_next_song_top rand c q ne h lo hi =
    next_of-top rand c.songs c q ne (get_rand_top (length c.songs) rand h lo hi)
