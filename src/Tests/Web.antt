-- ===== src/Tests/Web.antt =====
-- The first version: its commands, its player and its answers to the web.
use netdj.Prelude.{
  ◌≡◌, ◌≤◌, ◌⊎◌, refl, Bool, true, false, Option, none, some, List, [], ◌∷◌, ◌++◌, text_eq, lookup,
  codes, length, All, arith, Text, if◌then◌else◌,
}
use netdj.Base64.{base64_decode}
use netdj.Legacy.File.{File, exists}
use netdj.Legacy.Directory.{Run, returns}
use netdj.Legacy.Http.{Exec, crlf, HttpRequest}
use netdj.Legacy.Http.Parse.{parse, parse_command, parse_headers}
use netdj.Legacy.Text.{put, split_first}
use netdj.Legacy.Program.{Program, Env, new_program, lists, kill_current}
use netdj.Legacy.Commands.{commands, find_command, run, next}
use netdj.Legacy.Access.{is_access_allowed}
use netdj.Legacy.Commands.Words.{split_line}
use netdj.Legacy.Commands.Line.{blanks, split_line-parts}
use netdj.Legacy.Player.{Block, take_song, quiet}
use netdj.Legacy.Player.Repeated.{take_song-again}
use netdj.Legacy.Player.Thread.{Meeting, Shout, connect}
use netdj.Legacy.Web.{
  sends, nothing, got, c_string, connection, Web, Answer, new_web, credentials, answer_command,
}
use netdj.Legacy.Web.Pages.{xml_page, picked}
use netdj.Legacy.Reach.{Kept, here, connects, starts_player, quits, Reach-Allowed}
use netdj.Legacy.Web.Answers.{Allowed, Legal, xml_page-Legal, length-picked_le}
use netdj.Tests.Samples.{clear_memory}
use netdj.Tests.Disks.{memory_file, stat_at, outside, queue, exec, no_char_sound}

abbrev song : File
song = record memory_file { name = codes "q/a.mp3"; stat_buf = stat_at 20; stat_valid = true }

abbrev env : Env
env = record {
  outside = outside;
  build = record {
    conf_dirname = codes ".netdj/";
    conf_filename = codes "netdj";
    conf_userfilename = codes "netdj-users";
    netdj_etcdir = codes "/etc";
  };
  exec = exec;
  files = λ p. none;
  home = some (codes "/root");
  pwd = some (codes "/");
  fuel = 9;
  megabytes = λ n. [];
  date = λ n. [];
  version = [];
}

-- The user dj, of level 100, asks for the next song; "ZGo6cHc=" is "dj:pw".
abbrev program : Program
program = record (new_program memory_file) {
  acc = (codes "dj", record { level = 100; password = codes "pw" }) ∷ [];
  cache = record queue { files = song ∷ [] };
}

abbrev request : HttpRequest
request = record {
  http = record {
    headers = (codes "Authorization", codes "Basic ZGo6cHc=") ∷ [];
    body = [];
    packet = [];
  };
  command = codes "GET";
  uri = codes "/cgi-bin/next";
  version = codes "1.1";
  name = codes "/cgi-bin/next";
  params = [];
}

abbrev web : Web
web = new_web (codes "NetDJ") program request

-- What the regular expressions make of the same request as it is sent.
abbrev headers_sent : Text
headers_sent = codes "Authorization: Basic ZGo6cHc=" ++ crlf

abbrev request_sent : Text
request_sent = codes "GET /cgi-bin/next HTTP/1.1" ++ (crlf ++ headers_sent)

abbrev web_exec : Exec
web_exec reg s =
    if text_eq s request_sent
    then some (28, codes "GET" ∷ codes "/cgi-bin/next" ∷ codes "1.1" ∷ [])
    else if text_eq s headers_sent
    then some (31, codes "Authorization" ∷ codes "Basic ZGo6cHc=" ∷ [])
    else exec reg s

abbrev web_env : Env
web_env = record env { exec = web_exec }

-- A server that does not take the stream.
abbrev no_stream : Shout
no_stream = record { structures = true; accepts = λ s. false; log_opens = false }

-- After a connection that sent nothing, the start of a player, and a signal.
abbrev later : Program
later = kill_current (record program { stop_player = true })

Reach-Allowed_example :
    (a : Answer) × (connection web_env clear_memory (got request_sent) web later ≡ returns (some a))
    × (length a.sent ≡ 1)
    × Kept program a.program
    × ((a.program ≡ later) ⊎ Allowed web_env clear_memory (record web { req = request }) program)
unfolding connection connect parse new_program parse_command text_eq c_string parse_headers
    split_first put new_web
Reach-Allowed_example =
    Reach-Allowed program later web_env clear_memory request_sent web request
      (quits (
        starts_player (connects here web_env clear_memory nothing web (sends [] web program) refl)
          no_stream))
      refl refl refl refl

-- The song is skipped for this user, and not for one with another password.
sets_next : Run (Option Answer) → Bool
sets_next (returns (some a)) = a.program.next_song
sets_next other = false

skips : sets_next (answer_command env clear_memory web program) ≡ true
unfolding sets_next answer_command credentials new_web new_program text_eq lookup base64_decode
    is_access_allowed find_command run next commands
skips = refl

xml_page-Legal_example :
    All Legal (xml_page outside.disk song (lists program) (lists program) (0 ∷ 1 ∷ 0 ∷ []))
xml_page-Legal_example = xml_page-Legal env song (lists program) (lists program) (0 ∷ 1 ∷ 0 ∷ [])

length-picked_le_example : length (picked 0 (lists program)) ≤ 10
length-picked_le_example = length-picked_le (lists program)

split_line-parts_example :
    split_line (codes "list" ++ (b' ' ∷ (blanks 1 ++ (b'1' ∷ ([] ++ blanks 2)))))
    ≡ (codes "list", codes "1")
split_line-parts_example =
    split_line-parts (codes "list") [] b'1' 1 2 (no_char_sound 32 (codes "list") refl)
      (λ e. absurd (omega arith)) (λ e. absurd (omega arith))

abbrev blocks : Option (List Block)
blocks = some (record { bytes = codes "mp3"; stop_set = false; next_set = false; sent = true } ∷ [])

take_song-again_example :
    take_song outside true blocks 2 song (take_song outside true blocks 1 song program).program
    ≡ quiet (take_song outside true blocks 1 song program).program
unfolding text_eq exists
take_song-again_example = take_song-again outside true true blocks blocks 1 2 song program refl

-- Two rounds with songs, and the player is asked to stop before the second.
abbrev meeting : Bool → Meeting
meeting b = record { outside = outside; rand = 0; blocks = blocks; stop_set = b }
