-- ===== src/Server.antt =====
-- `Server` of netdj2/engine/Server.cpp and `Client` of Client.cpp. A socket is a number. A handler
-- returns the new server, the text that it wrote to the socket that it serves, the signals that it
-- emitted, in order, and how it ended. Qt's parsers of requests, URLs and texts are arguments.
pub mod Texts
pub mod Commands
pub mod Auth
pub mod Requests
pub mod Rights
pub mod Sockets
pub mod Kept
pub mod Start
use netdj.Prelude.{
  ℕ, ◌+◌, Bool, true, false, not, ◌&&◌, ◌||◌, Option, none, some, List, [], ◌∷◌, ◌++◌, Text, codes,
  text_eq, is_empty, length, take, drop, ltb, leb, ◌==◌, if◌then◌else◌,
}
use netdj.Access.{Checker, has_access}
use netdj.Base64.{Tables, base64_decode}
use netdj.Collections.{World}
use netdj.Outcome.{Outcome, returns, throws, faults, spins, Exception, server_error}
use netdj.Qt.{QtText}
use netdj.Song.{Song}
use netdj.SongInfo.{SongInfo}
use netdj.Songlist.{Songlist}
use netdj.SongXml.{song_xml, collection_xml}
use netdj.Xml.{Dom}
use Texts

-- LogService::EntryClass_t
pub data EntryClass : Type 0 where
  crit warn info : EntryClass

-- the signals of the class
pub data Signal : Type 0 where
  sig_quit : Text → Signal
  sig_skip : Text → Signal
  sig_client_new : Signal
  sig_client_close : Signal
  sig_message : Text → ℕ → EntryClass → Signal

-- `mSongElement`: no constructor sets it, so it is what the memory held, until a song plays.
pub data SongPointer (X : Type 0) : Type 0 where
  null : SongPointer X
  wild : SongPointer X
  song_element : X → SongPointer X

-- `mClients` as the sockets with the log level of each client; the server's other fields that change
-- and those that its commands read
pub record Server (X : Type 0) : Type 0 where
  pub clients : List (ℕ × ℕ)
  pub checker : Checker
  pub song : SongPointer X
  pub cols : List Songlist
  pub update_before_transmit : Bool

-- cmdtype_t
pub data CmdType : Type 0 where
  help current requests log skip shutdown no_command : CmdType

-- command_t; the row that ends the table has no name
pub record Command : Type 0 where
  pub cmd_type : CmdType
  pub name : Option Text
  pub auth_level : ℕ
  pub description : Text

abbrev command : CmdType → Text → ℕ → Text → Command
command t n l d = record { cmd_type = t; name = some n; auth_level = l; description = d }

abbrev pub last_command : Command
last_command = record { cmd_type = no_command; name = none; auth_level = 0; description = [] }

-- gCommands
unfoldable pub commands : List Command
commands =
    command help (codes "/help") 0 (codes "This page")
    ∷ command current (codes "/current.xml") 0 (codes "XML: The currently playing song")
    ∷ command requests (codes "/requests.xml") 0 (codes "XML: The request list")
    ∷ command log (codes "/log") 0 (codes "Get log messages (continuous)")
    ∷ command skip (codes "/skip") 200 (codes "Skip the currently playing song")
    ∷ command shutdown (codes "/shutdown") 500 (codes "Shutdown NetDJ")
    ∷ last_command
    ∷ []

-- `for (i = 0; gCommands[i].mName && gCommands[i].mName != cmdstr; ++i)`
unfoldable pub find_command : List Command → Text → Command
find_command [] cmdstr = last_command
find_command (c ∷ rest) cmdstr = elim c.name [
  | none ↦ c
  | some n ↦ if text_eq n cmdstr then c else find_command rest cmdstr
]

-- the shortcuts for help
unfoldable pub shortcut : Text → Text
shortcut cmdstr =
    if text_eq cmdstr (codes "/")
      || text_eq cmdstr (codes "/index.html")
      || text_eq cmdstr (codes "/index.xml")
    then codes "/help"
    else cmdstr

unfoldable pub is_client : ℕ → List (ℕ × ℕ) → Bool
is_client socket [] = false
is_client socket ((s, l) ∷ rest) = if s == socket then true else is_client socket rest

-- Client's log level; QPtrDict's `insert` puts a new client in front of an old one of that socket.
unfoldable pub set_level : ℕ → ℕ → List (ℕ × ℕ) → List (ℕ × ℕ)
set_level socket level [] = []
set_level socket level ((s, l) ∷ rest) =
    if s == socket then (s, level) ∷ rest else (s, l) ∷ set_level socket level rest

-- `mClients.remove(socket)`
unfoldable pub remove : ℕ → List (ℕ × ℕ) → List (ℕ × ℕ)
remove socket [] = []
remove socket ((s, l) ∷ rest) = if s == socket then rest else (s, l) ∷ remove socket rest

-- How a handler of a request ends: the result of `HandleCommand`, one of its two exceptions, or
-- an exception that nobody catches, something undefined, or a loop.
pub data Handled : Type 0 where
  close_con : Bool → Handled
  cmd_invalid cmd_unauthorized : Handled
  fails : Exception → Handled
  undefined hangs : Handled

pub record Reply (X : Type 0) : Type 0 where
  pub server : Server X
  pub out : Text
  pub signals : List Signal
  pub handled : Handled

-- A request as Qt's parser gives it.
pub record Request : Type 0 where
  pub method : Text
  pub path : Text
  pub authorization : Text
