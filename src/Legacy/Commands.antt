-- ===== src/Legacy/Commands.antt =====
-- The commands of netdj/src/main.cc: `commands`, the `com_` functions, `find_command` and
-- `execute_line`. An argument is `none` for a null pointer.
pub mod Words
pub mod Printed
pub mod Web
pub mod Line
use netdj.Prelude.{
  ℕ, zero, suc, ◌-◌, Bool, true, false, not, ◌&&◌, ◌||◌, Option, none, some, List, [], ◌∷◌, ◌++◌,
  map, Text, codes, text_eq, is_empty, length, take, get_elem?, ◌==◌, if◌then◌else◌,
}
use netdj.Prelude.Int.{ℤ, pos, negsuc}
use netdj.Legacy.Text.{with_slash, decimal, atoi}
use netdj.Legacy.File.{
  Disk, File, new_file, exists, get_mtime, get_size, get_filename, get_id3_info, symlink,
}
use netdj.Legacy.Directory.{
  Directory, Run, returns, exits, out_of_range, undefined, ◌>>=◌, Outside, get_entries,
}
use netdj.Legacy.CurrentSong.{get, rename_current}
use netdj.Legacy.Commands.Words.{split_line}
use netdj.Legacy.Commands.Printed.{help_line, list_lines, lists_lines}
use netdj.Legacy.Config
use netdj.Legacy.Access
use netdj.Legacy.Program.{Program, Env, lists, sizes, kill_current}

pub data Func : Type 0 where
  com_add com_help com_info com_list com_lists com_move com_next com_yeah com_reload com_start
        com_stop :
      Func
  com_version com_weblock com_webstart : Func

pub record Command : Type 0 where
  pub name : Text
  pub func : Func
  pub userfunc : Bool
  pub doc : Text

abbrev command : Text → Func → Bool → Text → Command
command name func userfunc doc = record { name = name; func = func; userfunc = userfunc; doc = doc }

unfoldable pub commands : List Command
commands =
    command (codes "add") com_add false (codes "Add song to list")
    ∷ command (codes "help") com_help false (codes "This listing")
    ∷ command (codes "info") com_info false (codes "Get information about the current song")
    ∷ command (codes "list") com_list false (codes "Show next 10 entries in LIST")
    ∷ command (codes "lists") com_lists false (codes "Show status for lists")
    ∷ command (codes "move") com_move false (codes "Move current song to share")
    ∷ command (codes "next") com_next true (codes "Skip to next song")
    ∷ command (codes "otw") com_yeah false (codes "(!) Show song(s) currently being downloaded")
    ∷ command (codes "reload") com_reload false (codes "Reload configuration")
    ∷ command (codes "save") com_yeah false (codes "(!) Save current song to share")
    ∷ command (codes "start") com_start true (codes "Start player")
    ∷ command (codes "stop") com_stop true (codes "Stop player")
    ∷ command (codes "version") com_version false (codes "Show program version")
    ∷ command (codes "weblock") com_weblock false (codes "Lock webacces")
    ∷ command (codes "webstart") com_webstart false (codes "Start web_thread")
    ∷ []

-- What a command leaves: the state, the lines that it prints, the link that it asks for, and the
-- threads that it starts.
pub data Thread : Type 0 where
  player_thread http_thread : Thread

pub record Result : Type 0 where
  pub program : Program
  pub out : List Text
  pub links : List (Text × Text)
  pub threads : List Thread

-- `none` where the fuel of a ReadFile() does not reach
abbrev pub Done : Type 0
Done = Run (Option Result)

abbrev says : List Text → Program → Result
says out p = record { program = p; out = out; links = []; threads = [] }

abbrev done : Result → Done
done r = returns (some r)

-- com_add
full_name : Option Text → Text → Run Text
full_name pwd [] = returns []
full_name pwd (c ∷ s) = if c == b'/' then returns (c ∷ s) else elim pwd [
  | none ↦ undefined
  | some d ↦ if is_empty d then undefined else returns (with_slash d ++ (c ∷ s))
]

unfoldable pub add : Env → Option Text → Program → Done
unfolding full_name
add env none p = done (says (codes "  Usage: add <filename>" ∷ []) p)
add env (some []) p = done (says (codes "  Usage: add <filename>" ∷ []) p)
add env (some (c ∷ s)) p = full_name env.pwd (c ∷ s) >>= (λ tmp.
    let link : Text = p.request.dirname ++ (c ∷ s) in
    let added = symlink env.outside.disk link (new_file env.outside.memory tmp) in
    done (record {
      program = p;
      out =
          ((if added then codes "  Added '" else codes "  Couldn't add '")
            ++ (tmp ++ codes "' to request-list"))
          ∷ [];
      links = (tmp, link) ∷ [];
      threads = [];
    }))

-- com_help
unfoldable pub help : Program → Done
help p = done (
    says
      (map (λ (c : Command). help_line c.name c.doc) commands
        ++ ([] ∷ help_line (codes "quit") (codes "Quit program") ∷ []))
      p)

-- com_info
unfoldable pub info : Env → Program → Done
info env p =
    let f = get p.current in
    let tag = (get_id3_info env.outside.disk f).id3 in
    done (
      says
        ((codes "  " ++ f.name)
          ∷ (codes "    "
              ++ (env.megabytes (get_size env.outside.disk f)
                  ++ (codes " MB - " ++ env.date (get_mtime env.outside.disk f))))
          ∷ (codes "    Artist:  " ++ tag.artist)
          ∷ (codes "    Album:   " ++ tag.album)
          ∷ (codes "    Title:   " ++ tag.title)
          ∷ (codes "    Year:    " ++ tag.year)
          ∷ (codes "    Style:   " ++ tag.style)
          ∷ (codes "    Comment: " ++ tag.note)
          ∷ [])
        p)

-- com_list: a negative number is no list.
list_of : ℤ → Program → Option Directory
list_of (pos n) p = get_elem? (lists p) n
list_of (negsuc n) p = none

number_of : Option Text → ℤ
number_of none = pos 0
number_of (some s) = atoi s

unfoldable pub list : Option Text → Program → Done
unfolding list_of number_of
list arg p = done (says (list_lines (list_of (number_of arg) p)) p)

-- com_lists
unfoldable pub show_lists : Env → Program → Done
show_lists env p = sizes env.outside p >>= (λ r. done (says (lists_lines (lists r.0) r.1) r.0))

-- com_move
unfoldable pub move : Env → Program → Done
move env p =
    let song = exists env.outside.disk (get p.current) in
    let newpath : Text = p.share.dirname ++ get_filename song.0 in
    let moved = rename_current env.outside.disk newpath false p.current in
    let moving : Text =
      codes "  Moving '" ++ (song.0.name ++ (codes "' to '" ++ (newpath ++ codes "'"))) in
    done (
      if song.1
      then says (moving ∷ (if moved.1 then codes "  Error! " ∷ [] else []))
          (record p { current = moved.0 })
      else says (codes "  Error: File doesn't exist..." ∷ []) p)

-- com_next
unfoldable pub next : Program → Done
next p = done (says (codes "  Skipping current song..." ∷ []) (kill_current p))

-- com_reload: `strncmp` of a null pointer is undefined.
reload_users : Option Access.Users → Program → Option Result
reload_users none p = none
reload_users (some users) p =
    some (says (codes "Reloading users..." ∷ []) (record p { acc = users }))

reload_config : Option Config.Values → Program → Option Result
reload_config none p = none
reload_config (some m) p =
    some (says (codes "Reloading config (EXPERIMENTAL!)..." ∷ []) (record p { config = m }))

unfoldable pub reload : Env → Option Text → Program → Done
unfolding reload_users reload_config
reload env none p = undefined
reload env (some arg) p =
    if text_eq (take 5 arg) (codes "users")
    then returns (reload_users (Access.read_file env.build env.exec env.files p.config env.fuel) p)
    else if text_eq (take 6 arg) (codes "config")
    then Config.read_file env.build env.exec env.files env.home env.fuel p.config
      >>= (λ m. returns (reload_config m p))
    else done (says (codes "  You have to give either 'users' or 'config' as parameter" ∷ []) p)

-- com_start, com_stop and com_webstart
unfoldable pub start : Program → Done
start p =
    done (record (says [] (record p { stop_player = false })) { threads = player_thread ∷ [] })

unfoldable pub stop : Program → Done
stop p = done (says [] (kill_current (record p { stop_player = true })))

unfoldable pub webstart : Program → Done
webstart p = done (record (says [] p) { threads = http_thread ∷ [] })

-- com_weblock
unfoldable pub weblock : Program → Done
weblock p = done (
    says ((codes "  WebAccess " ++ (if not p.http_locked then codes "OFF" else codes "ON")) ∷ [])
      (record p { http_locked = not p.http_locked }))

-- (*(com->func))(arg)
unfoldable pub run : Env → Func → Option Text → Program → Done
run env com_add arg p = add env arg p
run env com_help arg p = help p
run env com_info arg p = info env p
run env com_list arg p = list arg p
run env com_lists arg p = show_lists env p
run env com_move arg p = move env p
run env com_next arg p = next p
run env com_yeah arg p = done (says (codes "  Coming soon (tm)" ∷ []) p)
run env com_reload arg p = reload env arg p
run env com_start arg p = start p
run env com_stop arg p = stop p
run env com_version arg p = done (says env.version p)
run env com_weblock arg p = weblock p
run env com_webstart arg p = webstart p

-- find_command(name, admin), on what is left of the table
unfoldable pub find_in : List Command → Text → Bool → Option Command
find_in [] name admin = none
find_in (c ∷ rest) name admin =
    let more = find_in rest name admin in
    if text_eq name c.name && (c.userfunc || admin) then some c else more

unfoldable pub find_command : Text → Bool → Option Command
unfolding find_in
find_command name admin = find_in commands name admin

-- execute_line(line)
unfoldable pub execute_line : Env → Text → Program → Done
execute_line env line p =
    let parts = split_line line in
    elim (find_command parts.0 true) [
      | none ↦
          done (says ((codes "  Hmmm, did you really mean '" ++ (parts.0 ++ codes "'?")) ∷ []) p)
      | some c ↦ run env c.func (some parts.1) p
    ]
