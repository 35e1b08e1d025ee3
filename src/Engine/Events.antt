-- ===== src/Engine/Events.antt =====
-- What happens to the program of the second version from outside of its objects: connections
-- (NewClient and ClientClosed of netdj2/engine/Server.cpp), signals of the system and messages of Qt
-- (sig_handler and myMessageOutput of netdj2/engine/main.cpp). A log entry is made in the owner's
-- thread or in another one.
use netdj.Prelude.{ℕ, Bool, true, Option, none, some, ◌++◌, Text, codes}
use netdj.Prelude.Int.{pos}
use netdj.Engine.{Engine, logged, server_signals, QtMsgType, fatal_msg, message_output}
use netdj.Log.{log_message}
use netdj.Qt.{QtText}
use netdj.Server.{crit}
use netdj.Server.Requests.{new_client, client_closed}
use netdj.SongInfo.{SongInfo}
use netdj.Xml.{Dom}

module _ {X : Type 0} (dom : Dom X) (tags : Text → SongInfo) (name : Option Text) where
  unfoldable pub connect : Text → ℕ → Engine X → Engine X
  connect time socket e =
      let r = new_client socket e.server in
      server_signals dom tags name time r.1 (record e { server = r.0 })

  -- The signal reaches its slots before the client is removed.
  unfoldable pub disconnect : Text → ℕ → Engine X → Engine X
  disconnect time socket e =
      let told = server_signals dom tags name time (client_closed socket e.server).1 e in
      record told { server = (client_closed socket told.server).0 }

  -- sig_handler(signal)
  unfoldable pub sig_handler : QtText → Bool → Text → ℕ → Engine X → Engine X
  sig_handler qt in_owner time signal e =
      let msg = codes "Received signal " ++ (qt.set_num (pos signal) ++ codes ", quitting") in
      let now = logged dom tags name in_owner time (log_message dom name msg 0 crit) e in
      record now { quitting = true }

  -- myMessageOutput(aType, aMsg): `none` where it aborts
  unfoldable pub qt_message : Bool → Text → QtMsgType → Text → Engine X → Option (Engine X)
  qt_message in_owner time fatal_msg msg e = none
  qt_message in_owner time t msg e =
      let (text, level, class) = message_output t msg in
      some (logged dom tags name in_owner time (log_message dom name text level class) e)
