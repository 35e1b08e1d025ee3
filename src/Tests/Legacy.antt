-- ===== src/Tests/Legacy.antt =====
-- The first version: its files, directories, texts and configuration.
use netdj.Prelude.{
  ◌≡◌, refl, Bool, true, false, Option, none, some, List, [], ◌∷◌, ◌++◌, Text, codes, text_eq,
  length, leb, ltb, All, arith,
}
use mathlib.Core.List.{Perm}
use netdj.Legacy.File.{File, get_ctime, check_stat}
use netdj.Legacy.Text.{digits_value}
use netdj.Legacy.Directory.{Directory, returns, new_directory, is_mp3, update, get_song}
use netdj.Legacy.Directory.Entries.{names, gained, is_new}
use netdj.Legacy.Directory.Update.{update-gained}
use netdj.Legacy.Directory.Oldest.{Oldest, get_song-Oldest}
use netdj.Legacy.CurrentSong.{new_current_song, set_songs, doomed, pending, set_songs-doomed}
use netdj.Legacy.State.{StateFile, save_state, load_state, load_state-save_state}
use netdj.Legacy.Http.{crlf, HttpResponse, create_response_packet}
use netdj.Legacy.Http.Packet.{body_of, is_plain-Plain, create_response_packet-body}
use netdj.Legacy.Stream.{opened}
use netdj.Legacy.Stream.Lines.{unlines, Fits}
use netdj.Legacy.Config.{read_lines, use_line}
use netdj.Legacy.Config.Reading.{use_lines, read_lines-use_lines, read_lines-long}
use netdj.Legacy.Access.{Users, read_entries, is_access_allowed, check_user}
use netdj.Legacy.Access.Users.{all_lines, user_of, read_entries-is_access_allowed}
use netdj.Tests.Disks.{
  memory_file, disk, sort_files-Perm, sort_files-Rising, outside, queue, no_char, no_char_sound,
  stat_at, exec, repeat,
}

-- Both files of the disk are new to the empty queue.
abbrev both : List Text
both = codes "q/a.mp3" ∷ codes "q/b.MP3" ∷ []

abbrev listed : List Text
listed = codes "a.mp3" ∷ codes "b.MP3" ∷ []

gained-both : gained disk 0 (codes "q/") listed ≡ both
unfolding gained is_new text_eq is_mp3
gained-both = refl

update-gained_example :
    (d' : Directory) × (update outside queue ≡ returns d')
    × Perm
        (names d'.files)
        (names queue.files ++ gained disk queue.last_update queue.dirname listed)
    × (d'.last_update ≡ 30)
unfolding new_directory text_eq
update-gained_example =
    update-gained outside queue listed (sort_files-Perm disk) refl refl refl
      (omega arith, (omega arith, tt))

abbrev later : Directory
later = record queue { last_update = 20 }

get_song-Oldest_example :
    (r : Directory × Option File) × (get_song outside 5 queue ≡ returns r)
    × Oldest disk (names queue.files ++ gained disk queue.last_update queue.dirname listed) r
unfolding new_directory text_eq
get_song-Oldest_example =
    get_song-Oldest outside 5 queue listed (sort_files-Perm disk) (sort_files-Rising disk) refl refl
      refl refl (omega arith, (omega arith, tt))

abbrev song : File
song = record memory_file { name = codes "q/a.mp3"; stat_buf = stat_at 20; stat_valid = true }

-- A cache whose first song is of second 20, and a file of second 10.
load_state-save_state_example :
    (file : StateFile) × (save_state disk true (record queue { files = song ∷ [] }) none
      ≡ returns file)
    × (is_new disk (load_state file queue).last_update (codes "q/b.MP3")
        ≡ leb (get_ctime disk song) 10)
unfolding text_eq get_ctime check_stat is_mp3
load_state-save_state_example =
    load_state-save_state disk (record queue { files = song ∷ [] }) queue song [] (codes "q/b.MP3")
      (stat_at 10) refl (omega arith) refl refl refl refl

abbrev played : List (File × Bool)
played = (song, true) ∷ (memory_file, false) ∷ (song, true) ∷ []

set_songs-doomed_example :
    (set_songs played (new_current_song memory_file)).1
      ++ doomed (pending (set_songs played (new_current_song memory_file)).0)
    ≡ doomed (pending (new_current_song memory_file) ++ played)
set_songs-doomed_example = set_songs-doomed played (new_current_song memory_file)

-- A response with a body that has an empty line of its own.
abbrev response : HttpResponse
response = record {
  http = record {
    headers = (codes "Server", codes "NetDJ") ∷ [];
    body = codes "a" ++ (crlf ++ (crlf ++ codes "b"));
    packet = [];
  };
  version = codes "1.1";
  status = 200;
  description = [];
}

create_response_packet-body_example :
    body_of 0 (create_response_packet response).http.packet ≡ some response.http.body
create_response_packet-body_example =
    create_response_packet-body response (is_plain-Plain (codes "1.1") refl) tt
      ((is_plain-Plain (codes "Server") refl, is_plain-Plain (codes "NetDJ") refl), tt)

-- Two lines that fit, and a long one.
fits : (s : Text) → no_char 10 s ≡ true → ltb (length s) 255 ≡ true → Fits 255 s
fits s e h = (no_char_sound 10 s e, ground arith)

abbrev lines : List Text
lines = codes "# comment" ∷ codes "PLAYER_LOG=1" ∷ codes "dj:100:pw" ∷ []

lines_fit : All (Fits 255) lines
lines_fit = (
  fits (codes "# comment") refl refl,
  (fits (codes "PLAYER_LOG=1") refl refl, (fits (codes "dj:100:pw") refl refl, tt)),
)

read_lines-use_lines_example :
    read_lines exec 5 (opened (unlines lines ++ [])) []
    ≡ some (use_line exec [] (use_lines exec lines []))
read_lines-use_lines_example =
    read_lines-use_lines exec 5 lines [] [] lines_fit (tt, omega arith) (omega arith)

read_lines-long_example :
    read_lines exec 99 (opened (unlines lines ++ (repeat 255 b'x' ++ codes "y"))) [] ≡ none
read_lines-long_example =
    read_lines-long exec 99 lines (repeat 255 b'x') (codes "y") [] lines_fit
      (no_char_sound 10 (repeat 255 b'x') refl) (omega arith)

read_entries-is_access_allowed_example :
    (users : Users) × (read_entries exec 5 (opened (unlines lines ++ codes "x")) [] ≡ some users)
    × (is_access_allowed exec (codes "dj:pw") 100 users ≡ (
      check_user (user_of exec (codes "dj") (all_lines lines (codes "x")) none) (codes "pw") 100,
      some (codes "dj"),
    ))
unfolding text_eq
read_entries-is_access_allowed_example =
    read_entries-is_access_allowed exec 5 5 100 lines (codes "x") (codes "dj:pw") (codes "dj")
      (codes "pw") [] lines_fit (fits (codes "x") refl refl) (omega arith) refl

-- This user gets in.
dj_allowed :
    check_user (user_of exec (codes "dj") (all_lines lines (codes "x")) none) (codes "pw") 100
    ≡ true
unfolding text_eq digits_value
dj_allowed = refl
