-- ===== src/Engine/Start.antt =====
-- The start of the second version: main() and the first half of mainloop() in netdj2/engine/main.cpp.
-- What popt makes of the arguments, what fork returns, the accounts of the system, the places of the
-- configuration file, the user file, the ports and what the server's pointer to the song held are
-- arguments. The argument of `--config` is not
-- among the options, as main() does not use it.
use netdj.Prelude.{
  ℕ, Bool, true, false, Option, none, some, List, [], ◌∷◌, Text, codes, ◌==◌, if◌then◌else◌,
}
use netdj.Prelude.Int.{ℤ, pos, negsuc}
use netdj.Collections.{World}
use netdj.Config.{Config, ConfFile, new_config, init, get_bool, get_integer, set_bool, set_integer}
use netdj.Engine.{Engine, Accounts, change_user, main_collections}
use netdj.Log.{LogService, new_log_service, emit, log_message, log_to_file}
use netdj.Outcome.{Outcome, returns, throws, faults, spins}
use netdj.Qt.{QtText}
use netdj.Server.{Server, SongPointer, info}
use netdj.Server.Start.{construct}
use netdj.Songlist.{Songlist}
use netdj.Xml.{Dom}

-- The options; a port of 0 stands for none.
pub record Options : Type 0 where
  pub daemon : Bool
  pub port : ℤ
  pub dump : Bool

-- What fork() returned: -1, the number of the child, or 0.
pub data Fork : Type 0 where
  failed parent child : Fork

-- main() returns or exits with a code, or calls mainloop() with the configuration.
pub data Started : Type 0 where
  exits : ℤ → Started
  runs : Config → Started

unfoldable pub after_init : Bool → Started → Started
after_init false next = exits (negsuc 0)
after_init true next = next

unfoldable pub after_dump : Bool → Started → Started
after_dump true next = exits (negsuc 0)
after_dump false next = next

unfoldable pub after_fork : Bool → Fork → Started → Started
after_fork false k next = next
after_fork true failed next = exits (negsuc 0)
after_fork true parent next = exits (pos 0)
after_fork true child next = next

unfoldable pub after_user : Bool → Config → Started
after_user false c = exits (negsuc 0)
after_user true c = runs c

module _ (qt : QtText) where
  unfoldable pub with_port : ℤ → Config → Config
  with_port (pos n) c = if n == 0 then c else set_integer qt (codes "SERVER_PORT") (pos n) c
  with_port (negsuc n) c = set_integer qt (codes "SERVER_PORT") (negsuc n) c

  -- the options that overrule the configuration
  unfoldable pub configured : Options → Config → Config
  unfolding with_port
  configured o c =
      let c' = with_port o.port c in if o.daemon then set_bool (codes "DAEMON_MODE") true c' else c'

  -- main(argc, argv); the options are `none` where popt refuses the arguments.
  unfoldable pub start : Accounts → Fork → List (Option ConfFile) → Option Options → Started
  unfolding configured after_init after_dump after_fork after_user
  start a k places none = exits (negsuc 0)
  start a k places (some o) =
      let (read, ok) = init qt places new_config in
      let c = configured o read in
      after_init ok (
        after_dump o.dump
          (after_fork (get_bool qt (codes "DAEMON_MODE") c) k (after_user (change_user qt a c) c)))

module _ {X : Type 0} (dom : Dom X) (name : Option Text) (held : SongPointer X) where
  unfoldable pub to_file : List (X × ℕ) → Text → Text
  to_file [] file = file
  to_file (p ∷ rest) file = to_file rest (log_to_file dom 999 file p)

  -- a message while only the file logger is connected to the log service
  unfoldable pub early : Text → Text → LogService X × Text → LogService X × Text
  unfolding to_file
  early time msg (log, file) =
      let (log', out) = emit dom true time (log_message dom name msg 10 info) log in
      (log', to_file out file)

  unfoldable pub with_server : LogService X × Text → Outcome (Server X) → Outcome (Engine X)
  with_server (log, file) (returns s) =
      returns
        (record { server = s; log = log; written = []; file = file; quitting = false; skips = 0 })
  with_server logged (throws e) = throws e
  with_server logged faults = faults
  with_server logged spins = spins

  unfoldable pub with_cols :
      QtText
      → (Text → Option (List Text))
      → (ℤ → Bool)
      → Text
      → Config
      → Outcome (List Songlist)
      → Outcome (Engine X)
  unfolding with_server early
  with_cols qt user_file listens time c (returns cols) =
      let first = early time (codes "Initializing song collections") (new_log_service, []) in
      let second = early time (codes "Initializing player") first in
      let third = early time (codes "Initializing server") second in
      let port = get_integer qt (codes "SERVER_PORT") c in
      with_server third (construct qt held user_file listens c cols port)
  with_cols qt user_file listens time c (throws e) = throws e
  with_cols qt user_file listens time c faults = faults
  with_cols qt user_file listens time c spins = spins

  -- mainloop(aApp) up to exec()
  unfoldable pub set_up :
      QtText → World → (Text → Option (List Text)) → (ℤ → Bool) → Text → Config → Outcome (Engine X)
  unfolding with_cols
  set_up qt w user_file listens time c =
      with_cols qt user_file listens time c (main_collections w c)
