-- ===== src/Engine.antt =====
-- The wiring and the start of the second version: netdj2/engine/main.cpp. A signal reaches its slots in
-- the order in which they were connected. The player's thread has signals of its own, so their log
-- entries wait in the queue of the service; the server's are logged at once, and what the service emits
-- goes to the clients and to the file logger, which was connected first.
pub mod Orders
pub mod Options
pub mod Events
pub mod Reach
pub mod Same
pub mod Commanded
pub mod Whole
pub mod Start
use netdj.Prelude.{
  ℕ, Bool, true, false, not, ◌&&◌, ◌||◌, Option, none, some, List, [], ◌∷◌, ◌++◌, ◌+◌, Text, codes,
  is_empty, get_elem?, ◌==◌, if◌then◌else◌,
}
use netdj.Collections.{World, make_dir, make_list_file, add_collection}
use netdj.Config.{Config, get_string, get_bool}
use netdj.Log.{
  LogService, Entry, emit, event, log_song_playing, log_quit, log_skip, log_client_new,
  log_client_close, log_player_start, log_player_stop, log_message, log_to_file,
}
use netdj.Outcome.{Outcome, returns, throws, faults, spins}
use netdj.Player.{PlayerSignal, sig_start, sig_stop, sig_song_playing}
use netdj.Player as Player
use netdj.Server.{
  Request, Server, Signal, sig_quit, sig_skip, sig_client_new, sig_client_close, sig_message,
  EntryClass, crit, warn, info,
}
use netdj.Server.Requests.{song_playing, new_log_entry, read_client}
use netdj.Base64.{Tables}
use netdj.Qt.{QtText}
use netdj.Song.{Song}
use netdj.SongInfo.{SongInfo}
use netdj.Songlist.{Songlist}
use netdj.Xml.{Dom}

-- The objects that main() connects, with the collections, which the player shares, in the server; and what they have done to the outside: what was written to the
-- clients and to the file, whether the application was told to quit, and how often the player was told
-- to skip.
pub record Engine (X : Type 0) : Type 0 where
  pub server : Server X
  pub log : LogService X
  pub written : List (ℕ × Text)
  pub file : Text
  pub quitting : Bool
  pub skips : ℕ

module _ {X : Type 0} (dom : Dom X) (tags : Text → SongInfo) (name : Option Text) where
  -- NewLogEntry: to the file logger, which takes levels up to 999, and to the server's clients
  unfoldable pub delivered : List (X × ℕ) → Engine X → Engine X
  delivered [] e = e
  delivered ((entry, level) ∷ rest) e = delivered rest (record e {
    file = log_to_file dom 999 e.file (entry, level);
    written = e.written ++ new_log_entry dom tags entry level e.server.clients;
  })

  -- A slot of the log service, called in the thread that owns it or in another one
  unfoldable pub logged : Bool → Text → Entry X → Engine X → Engine X
  unfolding delivered
  logged in_owner time entry e =
      let r = emit dom in_owner time entry e.log in delivered r.1 (record e { log = r.0 })

  -- The signals of the server, whose thread owns the service
  unfoldable pub server_signal : Text → Signal → Engine X → Engine X
  unfolding logged
  server_signal time (sig_message msg level class) e =
      logged true time (log_message dom name msg level class) e
  server_signal time (sig_quit user) e =
      let now = logged true time (log_quit dom name user) e in record now { quitting = true }
  server_signal time (sig_skip user) e =
      let now = logged true time (log_skip dom name user) e in record now { skips = now.skips + 1 }
  server_signal time sig_client_new e = logged true time (log_client_new dom name) e
  server_signal time sig_client_close e = logged true time (log_client_close dom name) e

  unfoldable pub server_signals : Text → List Signal → Engine X → Engine X
  server_signals time [] e = e
  server_signals time (s ∷ rest) e = server_signals time rest (server_signal time s e)

  -- The server's SongPlaying, for the collection at a position
  set_playing : Song → Option Songlist → Engine X → Option (Engine X)
  set_playing song none e = none
  set_playing song (some col) e = elim (song_playing dom tags song col e.server) [
    | none ↦ none
    | some s ↦ some (record e { server = s })
  ]

  log_playing : Text → Song → Option Songlist → Engine X → Engine X
  log_playing time song none e = e
  log_playing time song (some col) e = logged false time (log_song_playing dom tags name song col) e

  -- The signals of the player's thread: `none` where the server deletes a pointer that was never set
  unfoldable pub player_signal : Text → PlayerSignal → Engine X → Option (Engine X)
  unfolding set_playing log_playing logged
  player_signal time sig_start e = some (logged false time (log_player_start dom name) e)
  player_signal time sig_stop e = some (logged false time (log_player_stop dom name) e)
  player_signal time (Player.sig_message msg level class) e =
      some (logged false time (log_message dom name msg level class) e)
  player_signal time (sig_song_playing song i) e =
      set_playing song (get_elem? e.server.cols i)
        (log_playing time song (get_elem? e.server.cols i) e)

  -- The event of the log service, in the main loop
  unfoldable pub log_event : (X → ℕ) → Engine X → Engine X
  unfolding delivered
  log_event level_of e =
      let r = event dom level_of true e.log in delivered r.0.1 (record e { log = r.0.0 })

  -- A request that the server reads: its signals reach their slots. Log entries go to the clients as
  -- the request leaves them; what is written to the client itself is not in `written`.
  unfoldable pub request :
      QtText
      → Tables
      → World
      → (Text → Request)
      → (Text → Text)
      → Text
      → ℕ
      → List Text
      → Engine X
      → Engine X
  request qt memory w parse url_path time socket lines e =
      let served = read_client dom tags qt memory w parse url_path socket lines e.server in
      server_signals time served.reply.signals (record e { server = served.reply.server })

-- The collections that mainloop() makes; an exception of a constructor is caught by nobody.
with_share : Songlist → Songlist × Outcome (Unit {0}) → Outcome (List Songlist)
with_share request (share, returns u) = returns (add_collection share (add_collection request []))
with_share request (share, throws e) = throws e
with_share request (share, faults) = faults
with_share request (share, spins) = spins

with_request : Outcome (List Songlist) → Songlist × Outcome (Unit {0}) → Outcome (List Songlist)
with_request next (request, returns u) = next
with_request next (request, throws e) = throws e
with_request next (request, faults) = faults
with_request next (request, spins) = spins

unfoldable pub main_collections : World → Config → Outcome (List Songlist)
unfolding with_share with_request
main_collections w c =
    let request =
      make_dir w (codes "request") (codes "Requests") (get_string (codes "REQUEST_DIR") c) true
        true in
    let share =
      make_list_file w (codes "share") (codes "Shares") (get_string (codes "SHARE_DIR") c) in
    with_request (with_share request.0 share) request

-- myMessageOutput(aType, aMsg)
pub data QtMsgType : Type 0 where
  debug_msg warning_msg fatal_msg : QtMsgType

unfoldable pub message_output : QtMsgType → Text → Text × ℕ × EntryClass
message_output debug_msg msg = (codes "[DEBUG]:" ++ msg, 200, info)
message_output warning_msg msg = (msg, 30, warn)
message_output fatal_msg msg = (msg, 0, crit)

-- The change of the group and the user in main(): what getgrnam and getpwnam find, and what setgid and
-- setuid return, where 0 is success. The result is whether main() goes on.
pub record Accounts : Type 0 where
  pub group_of : Text → Option ℕ
  pub user_of : Text → Option ℕ
  pub setgid : ℕ → ℕ
  pub setuid : ℕ → ℕ

accepted : (ℕ → ℕ) → Option ℕ → Bool
accepted change none = false
accepted change (some id) = not (change id == 0)

unfoldable pub change_user : QtText → Accounts → Config → Bool
unfolding accepted
change_user qt a c =
    let group = get_string (codes "DAEMON_GROUP") c in
    let user = get_string (codes "DAEMON_USER") c in
    if not (get_bool qt (codes "DAEMON_CHANGE_USER") c)
    then true
    else if is_empty group || is_empty user
    then false
    else accepted a.setgid (a.group_of group) && accepted a.setuid (a.user_of user)
