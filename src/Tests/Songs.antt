-- ===== src/Tests/Songs.antt =====
-- Song lists, collections and the player.
use netdj.Prelude.{
  ℕ, ◌+◌, ◌≡◌, ◌↔◌, refl, Bool, true, false, none, some, List, [], ◌∷◌, ◌++◌, map, Text, codes,
  take, drop, arith, All,
}
use netdj.Collections.{next_song, attempt, select, shift, take_after, update, update_kind}
use netdj.Collections.Priority.{Chosen, next_song-Chosen, next_song-none_iff, HasNone}
use netdj.Outcome.{returns}
use netdj.Config.{new_config}
use netdj.Player.{run, started, set_up, stream_calls, Player, Block, Round, ends}
use netdj.Player.Stopping.{EndsWithStop, run-EndsWithStop, Silent}
use netdj.Shout.{
  construct, Call, set_host, set_name, Libshout, in_order, set_song_name, wrapped, error_wrapper,
  Succeeds,
}
use netdj.Songlist.{Songlist, get_next_song, next_of, at, dir, list_file}
use netdj.Songlist.Dir.{FileInfo, holds, update_dir, file_date, scan, visit, take_file}
use netdj.Songlist.DirOrder.{names, since, update_dir_gains, queue-Rising, Rising}
use netdj.Songlist.DirUpdate.{dated, update_dir-ends, update_dir_twice}
use netdj.Songlist.FileUpdate.{entries, update_list_file_replaces}
use netdj.Songlist.ListFile.{update_list_file}
use netdj.Songlist.Queue.{take_songs, add_songs, take_songs-add_songs}
use netdj.Tests.Samples.{
  plain_text, two_songs, new_song, list_of, cleared, empty_world, regular, broken_link,
}

abbrev queue : Songlist
queue = list_of (codes "request") true []

abbrev songs : Songlist
songs = list_of (codes "random") false two_songs

take_songs-add_songs_example :
    take_songs (5 ∷ []) (add_songs two_songs queue)
    ≡ (record queue { songs = drop 1 two_songs }, map returns (take 1 two_songs))
take_songs-add_songs_example = take_songs-add_songs (5 ∷ []) two_songs queue refl refl (omega arith)

abbrev files : List FileInfo
files = regular (codes "old") 3 ∷ regular (codes "new") 8 ∷ []

abbrev dated_files : List (FileInfo × ℕ)
dated_files = (regular (codes "old") 3, 3) ∷ (regular (codes "new") 8, 8) ∷ []

files-dated : dated files ≡ some dated_files
unfolding dated file_date
files-dated = refl

broken-dated : dated (broken_link ∷ files) ≡ none
unfolding dated file_date
broken-dated = refl

update_dir-ends_example :
    (update_dir 2 cleared (holds files) (codes "d") 5 false queue).1 ≡ returns tt
update_dir-ends_example =
    update_dir-ends 2 cleared files dated_files (codes "d") 5 false queue files-dated (omega arith)

abbrev updated : Songlist
updated = (update_dir 2 cleared (holds files) (codes "d") 5 false queue).0

updated-kind : updated.kind ≡ dir (codes "d") 9 false
unfolding update_dir scan visit take_file file_date
updated-kind = refl

update_dir_twice_example :
    (update_dir 2 cleared (holds files) (codes "d") 9 false updated).0.songs ≡ updated.songs
update_dir_twice_example =
    update_dir_twice 2 cleared cleared files dated_files (codes "d") 5 9 false queue updated refl
      files-dated (omega arith) refl updated-kind

update_dir_gains_example :
    names (update_dir 2 cleared (holds files) (codes "d") 5 false queue).0.songs
    ≡ names queue.songs ++ since 5 dated_files
update_dir_gains_example =
    update_dir_gains 2 cleared files dated_files (codes "d") 5 false queue refl files-dated
      (omega arith) (omega arith, (omega arith, tt))

queue-Rising_example :
    (let u =
        (update_dir 2 cleared
          (holds files)
          (codes "d")
          5
          false
          (list_of (codes "q") true two_songs)).0 in
      Rising 0 u.songs u.next_unid)
    × (let g = (get_next_song 1 (list_of (codes "q") true two_songs)).0 in
        Rising 0 g.songs g.next_unid)
queue-Rising_example =
    queue-Rising 2 1 cleared files dated_files (codes "d") 5 false
      (list_of (codes "q") true two_songs) refl files-dated (omega arith) (omega arith)
      (omega arith, (omega arith, omega arith))

abbrev playlist : List Text
playlist = codes "# mine" ∷ codes "a.mp3" ∷ [] ∷ codes "b.mp3" ∷ []

abbrev memory : ℕ → Bool
memory unid = true

update_list_file_replaces_example :
    let u =
      update_list_file memory
        (record { last_modified = 4; lines = some playlist })
        (codes "l")
        3
        songs in
    (map (λ s. s.filename) u.0.songs ≡ entries playlist)
    × (u.0.kind ≡ list_file (codes "l") 4)
    × (u.1 ≡ returns tt)
update_list_file_replaces_example =
    update_list_file_replaces memory 4 3 playlist (codes "l") songs (omega arith)

abbrev both : List Songlist
both = queue ∷ list_of (codes "share") true two_songs ∷ []

first_of_share : (next_song empty_world 0 both).1 ≡ returns (some (new_song (codes "a.mp3") 1, 1))
unfolding next_song select shift attempt take_after update update_kind get_next_song next_of at
first_of_share = refl

next_song-Chosen_example :
    Chosen empty_world 0 both (next_song empty_world 0 both).0 (new_song (codes "a.mp3") 1) 1
next_song-Chosen_example =
    next_song-Chosen empty_world 0 both (new_song (codes "a.mp3") 1) 1 first_of_share

next_song-none_iff_example :
    ((next_song empty_world 0 (queue ∷ [])).1 ≡ returns none)
    ↔ All (HasNone empty_world 0) (queue ∷ [])
next_song-none_iff_example = next_song-none_iff empty_world 0 (queue ∷ [])

-- A library that fails to set the host, and counts the calls.
abbrev counts : Call → ℕ → ℕ × ℕ
counts (set_host h) n = (n + 1, 7)
counts other n = (n + 1, 0)

abbrev counting : Libshout ℕ
counting = record {
  new = some 0;
  call = counts;
  get_error = λ n. codes "no host";
  metadata_new = true;
  metadata_add = λ k v. 0;
}

name_set : Succeeds counting (set_name (codes "n") ∷ []) 0 1
unfolding Succeeds
name_set = (refl, refl)

abbrev a_round : Round
a_round = record {
  world = empty_world;
  rand = 0;
  blocks = λ f. none;
  can_remove = λ f. true;
  late_stop = false;
  late_skip = false;
}

-- A player that was told to stop and has an empty queue.
abbrev idle : Player ℕ
idle = record { stop_player = true; skip_song = false; cols = queue ∷ []; shout = 0 }

idle-Silent : Silent (a_round ∷ a_round ∷ []) (queue ∷ [])
unfolding Silent next_song select shift attempt take_after update update_kind get_next_song next_of
    at
idle-Silent = (refl, (refl, tt))

abbrev one_block : List Block
one_block = record { bytes = codes "data"; stop_called = false; skip_called = false } ∷ []

named : (set_song_name counting (codes "a.mp3") 0).1 ≡ none
unfolding set_song_name wrapped error_wrapper
named = refl

-- The stream cannot be set up as the host is refused.
no_stream :
    (run counting plain_text 1 0 new_config (a_round ∷ []) false false (queue ∷ [])).1 ≡ ends
unfolding run started set_up stream_calls construct in_order wrapped error_wrapper
no_stream = refl

run-EndsWithStop_example :
    EndsWithStop counting
      (run counting plain_text 1 0 new_config (a_round ∷ []) false false (queue ∷ [])).0
run-EndsWithStop_example =
    run-EndsWithStop counting plain_text 1 0 new_config (a_round ∷ []) false false (queue ∷ [])
      no_stream
