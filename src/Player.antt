-- ===== src/Player.antt =====
-- `PlayerThread` of netdj2/engine/PlayerThread.cpp. A round of the main loop gets what it finds
-- outside: the world of the collections, the random number, the files' blocks and the calls of Stop()
-- and Skip() by other threads, each before the test of the flags that sees it first.
pub mod Stopping
use netdj.Prelude.{
  ◌%◌, ◌^◌, ◌⊎◌, inl, inr, ℕ, Bool, true, false, not, ◌&&◌, ◌||◌, Option, none, some, List, [], ◌∷◌,
  ◌++◌, Text, codes, if◌then◌else◌,
}
use netdj.Collections.{World, next_song}
use netdj.Outcome.{
  Outcome, returns, throws, faults, spins, Exception, std_exception, empty_collection, server_error,
}
use netdj.Server.{EntryClass, crit, warn}
use netdj.Config.{Config, get_string, get_bool, get_integer}
use netdj.Prelude.Int.{to_u32}
use netdj.Qt.{QtText}
use netdj.Shout.{
  Call, Result, connect, set_public, set_user, set_host, set_port, set_password, set_mount,
  set_format, set_protocol, in_order, construct, Libshout, wrapped, send, sleep, set_song_name,
}
use netdj.Song.{Song}
use netdj.Songlist.{Songlist}

-- the signals; a collection is its position
pub data PlayerSignal : Type 0 where
  sig_start sig_stop : PlayerSignal
  sig_message : Text → ℕ → EntryClass → PlayerSignal
  sig_song_playing : Song → ℕ → PlayerSignal

-- mStopPlayer, mSkipSong, mCols, and the connection
pub record Player (S : Type 0) : Type 0 where
  pub stop_player : Bool
  pub skip_song : Bool
  pub cols : List Songlist
  pub shout : S

-- A block that `readBlock` gives, and whether Stop() and Skip() were called before the test behind it.
pub record Block : Type 0 where
  pub bytes : Text
  pub stop_called : Bool
  pub skip_called : Bool

-- `blocks` is none where the file is not there or cannot be read. The last two are calls of Stop() and
-- Skip() between the last test of the inner loop and the test behind it.
pub record Round : Type 0 where
  pub world : World
  pub rand : ℕ
  pub blocks : Text → Option (List Block)
  pub can_remove : Text → Bool
  pub late_stop : Bool
  pub late_skip : Bool

pub data Ending : Type 0 where
  goes_on ends : Ending
  thrown : Text → Text → Ending
  undefined hangs : Ending

-- A player, its signals and how the code ended.
abbrev pub Played : Type 0 → Type 0
Played S = Player S × (List PlayerSignal × Ending)

abbrev no_files : PlayerSignal
no_files = sig_message (codes "I have no files to play...") 10 warn

module _ {S : Type 0} (lib : Libshout S) where
  -- Stop() and Skip()
  abbrev pub flagged : Bool → Bool → Player S → Player S
  flagged b c p = record p { stop_player = p.stop_player || b; skip_song = p.skip_song || c }

  -- The inner loop, with the text of the exception of `Send`.
  unfoldable pub send_blocks : List Block → Player S → Player S × Option Text
  send_blocks [] p = (p, none)
  send_blocks (b ∷ rest) p =
      let p' = flagged b.stop_called b.skip_called p in
      let sent = wrapped lib (send b.bytes) p'.shout in
      let more = send_blocks rest (record p' { shout = sleep lib sent.0 }) in
      if not p'.stop_player && not p'.skip_song
      then elim sent.1 [ none ↦ more | some e ↦ (record p' { shout = sent.0 }, some e) ]
      else (p', none)

  -- behind the inner loop: the file may be removed, and the flags are looked at
  unfoldable pub after_song : Round → Song → Player S × Option Text → Played S
  after_song r song (p, some e) = (p, ([], thrown (codes "ShoutException") e))
  after_song r song (p, none) =
      let signals =
        if song.delete_after_play && not (r.can_remove song.filename)
        then sig_message (codes "Could not delete file: " ++ song.filename) 20 warn ∷ []
        else [] in
      let p' = flagged r.late_stop r.late_skip p in
      if p'.stop_player
      then (p', (signals, ends))
      else (record p' { skip_song = false }, (signals, goes_on))

  -- behind `SetSongName`, with the text of its exception
  unfoldable pub send_song : Round → Song → List Block → Player S × Option Text → Played S
  unfolding after_song
  send_song r song blocks (p, some e) = (p, ([], thrown (codes "ShoutException") e))
  send_song r song blocks (p, none) = after_song r song (send_blocks blocks p)

  -- a song whose file is open
  unfoldable pub play_song : Round → Song → List Block → Player S → Played S
  unfolding send_song
  play_song r song blocks p =
      let named = set_song_name lib song.filename p.shout in
      send_song r song blocks (record p { shout = named.0 }, named.1)

  abbrev pub announced : List PlayerSignal → Played S → Played S
  announced signals (p, (more, e)) = (p, (signals ++ more, e))

  -- a round, on what GetNextSong gave
  unfoldable pub play_next : Round → Outcome (Option (Song × ℕ)) → Player S → Played S
  unfolding play_song
  play_next r (returns none) p = (p, (no_files ∷ [], goes_on))
  play_next r (returns (some (song, i))) p = elim (r.blocks song.filename) [
    | none ↦ (
      p,
      (
        sig_message (codes "Something is wrong with the file: " ++ song.filename) 10 warn ∷ [],
        goes_on,
      ),
    )
    | some blocks ↦
        announced (sig_song_playing song i ∷ sig_message (codes "Check song type!") 10 crit ∷ [])
          (play_song r song blocks p)
  ]
  play_next r (throws (std_exception m)) p = (p, ([], thrown (codes "StdException") m))
  play_next r (throws (empty_collection m)) p = (p, ([], thrown (codes "EmptyCollection") m))
  play_next r (throws (server_error m)) p = (p, ([], thrown (codes "ServerError") m))
  play_next r faults p = (p, ([], undefined))
  play_next r spins p = (p, ([], hangs))

  unfoldable pub play_round : Round → Player S → Played S
  unfolding play_next
  play_round r p =
      let (cols, o) = next_song r.world r.rand p.cols in play_next r o (record p { cols = cols })

  -- What follows a round: the handlers of the exceptions and `SigStop`, or the rest of the loop.
  unfoldable pub followed : Played S → Played S → Played S
  followed (p, (signals, goes_on)) rest = announced signals rest
  followed (p, (signals, ends)) rest = (p, (signals ++ sig_stop ∷ [], ends))
  followed (p, (signals, thrown t m)) rest = (
    p,
    (
      signals
          ++ sig_message (codes "EXCEPTION: [" ++ (t ++ (codes "] " ++ m))) 0 crit ∷ sig_stop ∷ [],
      ends,
    ),
  )
  followed (p, (signals, undefined)) rest = (p, (signals, undefined))
  followed (p, (signals, hangs)) rest = (p, (signals, hangs))

  -- the main loop for so many rounds; it goes on when they are over
  unfoldable pub main_loop : List Round → Player S → Played S
  main_loop [] p = (p, ([], goes_on))
  main_loop (r ∷ rest) p = let played = play_round r p in followed played (main_loop rest played.0)

-- The settings of the stream, from the configuration: the calls behind the construction, in order.
-- The format and the protocol are constants of libshout; the port is an unsigned short.
unfoldable pub stream_calls : QtText → ℕ → ℕ → Config → List Call
stream_calls qt format protocol c =
    set_public (get_bool qt (codes "STREAM_PUBLIC") c)
    ∷ set_user (get_string (codes "STREAM_USER") c)
    ∷ set_host (get_string (codes "STREAM_HOST") c)
    ∷ set_port (to_u32 (get_integer qt (codes "STREAM_PORT") c) % 2 ^ 16)
    ∷ set_password (get_string (codes "STREAM_PASSWD") c)
    ∷ set_mount (get_string (codes "STREAM_MOUNT") c)
    ∷ set_format format
    ∷ set_protocol protocol
    ∷ connect
    ∷ []

module _ {S : Type 0} (lib : Libshout S) where
  -- the handler of an exception, and `SigStop`
  abbrev pub shout_failed : Text → List PlayerSignal
  shout_failed e = sig_message (codes "EXCEPTION: [ShoutException] " ++ e) 0 crit ∷ sig_stop ∷ []

  -- a stream that is set up, or the text of the exception
  unfoldable pub set_up : List Call → Text ⊎ Result S → Text ⊎ S
  set_up calls (inl e) = inl e
  set_up calls (inr (s, some e)) = inl e
  set_up calls (inr (s, none)) =
      let done = in_order lib calls s in elim done.1 [ some e ↦ inl e | none ↦ inr done.0 ]

  -- the flags and the collections that the thread starts with
  unfoldable pub started :
      List Round → Bool → Bool → List Songlist → Text ⊎ S → List PlayerSignal × Ending
  started rounds stop skip cols (inl e) = (sig_start ∷ shout_failed e, ends)
  started rounds stop skip cols (inr s) =
      let played =
        main_loop lib rounds
          (record { stop_player = stop; skip_song = skip; cols = cols; shout = s }) in
      (sig_start ∷ played.1.0, played.1.1)

  -- run()
  unfoldable pub run :
      QtText
      → ℕ
      → ℕ
      → Config
      → List Round
      → Bool
      → Bool
      → List Songlist
      → List PlayerSignal × Ending
  unfolding started set_up
  run qt format protocol c rounds stop skip cols = started rounds stop skip cols (
      set_up (stream_calls qt format protocol c) (
        construct lib (get_string (codes "STREAM_NAME") c) (get_string (codes "STREAM_GENRE") c)
          (get_string (codes "STREAM_DESCR") c)))
