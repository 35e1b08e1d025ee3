-- ===== src/Server/Start.antt =====
-- The constructor of `Server` (netdj2/engine/Server.cpp). What is in the user file, which is a function
-- of its name, and on which ports the system lets the program listen are arguments.
use netdj.Prelude.{Bool, true, false, Option, List, [], ◌++◌, Text, codes, is_empty, if◌then◌else◌}
use netdj.Prelude.Int.{ℤ}
use netdj.Access.{Checker, new_checker, init}
use netdj.Config.{Config, get_string, get_bool}
use netdj.Outcome.{Outcome, returns, throws, server_error}
use netdj.Qt.{QtText}
use netdj.Server.{Server, SongPointer}
use netdj.Songlist.{Songlist}

-- the name of the user file
unfoldable pub user_list_name : Config → Text
user_list_name c =
    let dir = get_string (codes "CONFIG_DIR") c in
    dir ++ ((if is_empty dir then [] else codes "/") ++ get_string (codes "USER_LIST_FILE") c)

-- `held` is what the memory of `mSongElement` held, which the constructor does not set.
module _ {X : Type 0} (qt : QtText) (held : SongPointer X) where
  unfoldable pub with_socket : Bool → Config → List Songlist → Checker → Outcome (Server X)
  with_socket false c cols checker = throws (server_error (codes "Could not listen to port!"))
  with_socket true c cols checker = returns (record {
    clients = [];
    checker = checker;
    song = held;
    cols = cols;
    update_before_transmit = get_bool qt (codes "UPDATE_BEFORE_TRANSMIT") c;
  })

  unfoldable pub with_checker : Bool → Config → List Songlist → Checker × Bool → Outcome (Server X)
  with_checker ok c cols (checker, false) =
      throws (server_error (codes "Could not initialize Access Checker"))
  with_checker ok c cols (checker, true) = with_socket ok c cols checker

  -- Server(aCols, aPort, aBackLog, aParent)
  unfoldable pub construct :
      (Text → Option (List Text)) → (ℤ → Bool) → Config → List Songlist → ℤ → Outcome (Server X)
  unfolding with_checker with_socket user_list_name
  construct user_file listens c cols port =
      with_checker (listens port) c cols (init qt (user_file (user_list_name c)) new_checker)
