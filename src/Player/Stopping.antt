-- ===== src/Player/Stopping.antt =====
-- How the player thread ends, and when it does not.
use netdj.Prelude.{
  ℕ, ap, ◌∙◌, ◌++◌, sym, append_assoc, ◌⊎◌, inl, inr, ◌≡◌, refl, Bool, true, none, List, [], ◌∷◌,
  Text,
}
use netdj.Collections.{next_song}
use netdj.Outcome.{returns}
use netdj.Shout.{Libshout, set_song_name}
use netdj.Song.{Song}
use netdj.Songlist.{Songlist}
use netdj.Config.{Config}
use netdj.Qt.{QtText}
use netdj.Server.{crit}
use netdj.Player.{
  PlayerSignal, Played, followed, play_round, sig_start, sig_stop, sig_message, thrown, undefined,
  hangs, started, run, Player, Block, Round, goes_on, ends, send_blocks, after_song, send_song,
  play_song, play_next, play_round, followed, main_loop,
}

-- No round finds a song.
unfoldable pub Silent : List Round → List Songlist → Type 0
Silent [] cols = Unit
Silent (r ∷ rest) cols =
    ((next_song r.world r.rand cols).1 ≡ returns none)
    × Silent rest (next_song r.world r.rand cols).0

module _ {S : Type 0} (lib : Libshout S) where
  -- As long as no song is found the thread goes on, whether Stop() was called or not.
  pub main_loop_no_song :
      (rounds : List Round) (p : Player S)
      → Silent rounds p.cols
      → (main_loop lib rounds p).1.1 ≡ goes_on
  unfolding main_loop play_round play_next followed Silent
  main_loop_no_song [] p h = refl
  main_loop_no_song (r ∷ rest) p h =
      rw h.0 (main_loop_no_song rest (record p { cols = (next_song r.world r.rand p.cols).0 }) h.1)

  -- When Stop() was called before a song starts and the song's name can be set, nothing is sent behind
  -- the name and the thread ends.
  pub play_song_stopped :
      (r : Round) (song : Song) (blocks : List Block) (p : Player S)
      → p.stop_player ≡ true
      → (set_song_name lib song.filename p.shout).1 ≡ none
      → ((play_song lib r song blocks p).1.1 ≡ ends)
        × ((play_song lib r song blocks p).0.shout ≡ (set_song_name lib song.filename p.shout).0)
  unfolding play_song send_song after_song send_blocks
  play_song_stopped r song [] p e f = rw (f, e) (refl, refl)
  play_song_stopped r song (b ∷ rest) p e f = rw (f, e) (refl, refl)

  -- The signals end with `SigStop`.
  pub EndsWithStop : List PlayerSignal → Type 0
  EndsWithStop signals = (before : List PlayerSignal) × (signals ≡ before ++ sig_stop ∷ [])

  EndsWithStop-append :
      (first rest : List PlayerSignal) → EndsWithStop rest → EndsWithStop (first ++ rest)
  unfolding EndsWithStop
  EndsWithStop-append first rest (before, e) =
      (first ++ before, ap (λ l. first ++ l) e ∙ sym (append_assoc first before (sig_stop ∷ [])))

  followed-EndsWithStop :
      (played rest : Played S)
      → (rest.1.1 ≡ ends → EndsWithStop rest.1.0)
      → (followed lib played rest).1.1 ≡ ends
      → EndsWithStop (followed lib played rest).1.0
  unfolding followed EndsWithStop
  followed-EndsWithStop (p, (signals, goes_on)) rest ih h =
      EndsWithStop-append signals rest.1.0 (ih h)
  followed-EndsWithStop (p, (signals, ends)) rest ih h = (signals, refl)
  followed-EndsWithStop (p, (signals, thrown t m)) rest ih h =
      (signals ++ _ ∷ [], sym (append_assoc signals _ _))
  followed-EndsWithStop (p, (signals, undefined)) rest ih h = cc
  followed-EndsWithStop (p, (signals, hangs)) rest ih h = cc

  main_loop-EndsWithStop :
      (rounds : List Round) (p : Player S)
      → (main_loop lib rounds p).1.1 ≡ ends
      → EndsWithStop (main_loop lib rounds p).1.0
  unfolding main_loop
  main_loop-EndsWithStop [] p h = cc
  main_loop-EndsWithStop (r ∷ rest) p h =
      followed-EndsWithStop (play_round lib r p) (main_loop lib rest (play_round lib r p).0)
        (main_loop-EndsWithStop rest (play_round lib r p).0) h

  started-EndsWithStop :
      (rounds : List Round) (stop skip : Bool) (cols : List Songlist) (o : Text ⊎ S)
      → (started lib rounds stop skip cols o).1 ≡ ends
      → EndsWithStop (started lib rounds stop skip cols o).0
  unfolding started EndsWithStop
  started-EndsWithStop rounds stop skip cols (inl e) h =
      (sig_start ∷ sig_message _ 0 crit ∷ [], refl)
  started-EndsWithStop rounds stop skip cols (inr s) h = EndsWithStop-append (sig_start ∷ []) _ (
      main_loop-EndsWithStop rounds
        (record { stop_player = stop; skip_song = skip; cols = cols; shout = s }) h)

  -- Whenever the thread ends, be it by Stop() or by an exception, its last signal is `SigStop`.
  pub run-EndsWithStop :
      (qt : QtText) (format protocol : ℕ) (c : Config) (rounds : List Round) (stop skip : Bool)
      (cols : List Songlist)
      → (run lib qt format protocol c rounds stop skip cols).1 ≡ ends
      → EndsWithStop (run lib qt format protocol c rounds stop skip cols).0
  unfolding run
  run-EndsWithStop qt format protocol c rounds stop skip cols h =
      started-EndsWithStop rounds stop skip cols _ h
