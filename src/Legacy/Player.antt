-- ===== src/Legacy/Player.antt =====
-- The loop of `player_thread` in netdj/src/main.cc, one round as one step. What libshout answers, the
-- blocks of the file and the flags that other threads set before a test are given for each block.
pub mod Repeated
pub mod Thread
pub mod Stopped
use netdj.Prelude.{
  ℕ, zero, suc, Bool, true, false, not, ◌&&◌, ◌||◌, Option, none, some, List, [], ◌∷◌, ◌++◌, Text,
  codes, text_eq, is_empty, if◌then◌else◌,
}
use netdj.Legacy.Text.{decimal}
use netdj.Legacy.File.{Disk, File, exists, get_filename_no_type}
use netdj.Legacy.Directory.{
  Directory, Run, returns, exits, out_of_range, undefined, ◌>>=◌, Outside, get_song,
}
use netdj.Legacy.CurrentSong.{CurrentSong, get, set, clear}
use netdj.Legacy.Config.{get_bool}
use netdj.Legacy.Program.{Program, lists}

-- A block that `fread` gives, the flags as the test in front of it sees them, and whether it is sent.
pub record Block : Type 0 where
  pub bytes : Text
  pub stop_set : Bool
  pub next_set : Bool
  pub sent : Bool

-- What a round did: the bytes that were sent, the files that it tried to delete, the lines of the log,
-- and whether it slept for 30 seconds.
pub record Round : Type 0 where
  pub program : Program
  pub sent : List Text
  pub deleted : List Text
  pub log : List Text
  pub slept : Bool

-- lists[i]->GetSong(fobj), for i from 0 until one gives a song
unfoldable pub first_song : Outside → ℕ → Program → Run (Program × Option (ℕ × File))
first_song o rand p = get_song o rand p.request >>= (λ r.
    let p = record p { request = r.0 } in
    elim r.1 [
      | some f ↦ returns (p, some (0, f))
      | none ↦ get_song o rand p.cache >>= (λ c.
          let p = record p { cache = c.0 } in
          elim c.1 [
            | some f ↦ returns (p, some (1, f))
            | none ↦ get_song o rand p.share >>= (λ s.
                let p = record p { share = s.0 } in
                elim s.1 [ some f ↦ returns (p, some (2, f)) | none ↦ returns (p, none) ])
          ])
    ])

-- switch(i)
unfoldable pub delete_it : ℕ → Program → Bool
delete_it zero p = true
delete_it (suc zero) p = get_bool (codes "DELETE_PLAYED") p.config
delete_it (suc (suc i)) p = false

-- while (!stop_player && !next_song): what is sent, and the flags behind it
unfoldable pub stream : List Block → Program → List Text × Program
stream [] p = ([], p)
stream (b ∷ rest) p =
    let now = record p {
      stop_player = p.stop_player || b.stop_set;
      next_song = p.next_song || b.next_set;
    } in
    let more = stream rest now in
    if now.stop_player || now.next_song
    then ([], now)
    else if is_empty b.bytes || not b.sent
    then ([], now)
    else (b.bytes ∷ more.0, more.1)

shname_of : ℕ → Program → Text
shname_of zero p = p.request.shname
shname_of (suc zero) p = p.cache.shname
shname_of (suc (suc i)) p = p.share.shname

unfoldable pub log_line : ℕ → ℕ → File → Program → Text
unfolding shname_of
log_line time i f p =
    decimal time
    ++ (codes ",\""
        ++ (get_filename_no_type f
            ++ (codes "\","
                ++ ((if p.stop_player || p.next_song then codes "1" else codes "0")
                    ++ (codes ",\"" ++ (shname_of i p ++ codes "\""))))))

-- The song of a list is there and has not the name of the one that plays.
unfoldable pub play : Outside → Bool → Option (List Block) → ℕ → File → Program → Round
unfolding log_line
play o logging blocks i f p =
    let now = set f (delete_it i p) p.current in
    let q = record p { current = now.0 } in
    let streamed : List Text × Program = elim blocks [ none ↦ ([], q) | some bs ↦ stream bs q ] in
    record {
      program = streamed.1;
      sent = streamed.0;
      deleted = now.1;
      log = if logging then log_line o.time i f streamed.1 ∷ [] else [];
      slept = false;
    }

abbrev pub quiet : Program → Round
quiet p = record { program = p; sent = []; deleted = []; log = []; slept = false }

unfoldable pub no_song : Outside → Program → Round
no_song o p =
    let cleared = clear o.memory p.current in
    record (quiet (record p { current = cleared.0 })) { deleted = cleared.1; slept = true }

-- the song of list i
unfoldable pub take_song : Outside → Bool → Option (List Block) → ℕ → File → Program → Round
unfolding play
take_song o logging blocks i f p =
    let found = exists o.disk f in
    if found.1 && not (text_eq found.0.name (get p.current).name)
    then play o logging blocks i found.0 p
    else quiet p

-- A round of `while (!stop_player)`; the blocks are `none` for a file that cannot be opened.
unfoldable pub round : Outside → ℕ → Bool → Option (List Block) → Program → Run Round
unfolding no_song
round o rand logging blocks p = first_song o rand (record p { next_song = false }) >>= (λ r.
    elim r.1 [
      | none ↦ returns (no_song o r.0)
      | some (i, f) ↦ returns (take_song o logging blocks i f r.0)
    ])
