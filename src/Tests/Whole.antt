-- ===== src/Tests/Whole.antt =====
-- The second version from its start on.
use netdj.Prelude.{
  ℕ, ◌≡◌, refl, ◌↔◌, ◌⊎◌, true, false, none, some, List, [], ◌∷◌, Text, codes, text_eq, lookup,
  insert,
}
use netdj.Prelude.Int.{pos}
use netdj.Config.{
  Config, ConfFile, new_config, def_values, get_string, get_bool, or_empty, first_open, init,
  set_bool, set_integer, read_lines, parse_line, fill_defaults,
}
use netdj.Config.Values.{or_else, last_value, pairs}
use netdj.Engine.{Engine, Accounts, request, log_event, main_collections, change_user}
use netdj.Engine.Commanded.{Commanded, Reach-Commanded}
use netdj.Engine.Options.{by_daemon, by_port, start-runs}
use netdj.Engine.Reach.{asked, here, asks, wakes}
use netdj.Engine.Start.{Options, child, Started, exits, runs, start, set_up}
use netdj.Engine.Whole.{Ends, set_up-Ends}
use netdj.Access.{init as users_init}
use netdj.Collections.{World, make_dir, make_list_file}
use netdj.Server.Start.{construct}
use netdj.Songlist.{make}
use netdj.Songlist.Dir.{holds, update_dir, scan}
use netdj.Songlist.ListFile.{update_list_file}
use netdj.Outcome.{Outcome, returns}
use netdj.Log.{new_log_service}
use netdj.Server.{null, Request, wild}
use netdj.Tests.Samples.{plain_text, text_dom, clear_memory, untagged, empty_world}

abbrev level : Text → ℕ
level x = 0

abbrev parsed : Text → Request
parsed t = record {
  method = codes "GET";
  path = codes "/shutdown";
  authorization = codes "Basic ZGo6cHc=";
}

abbrev same_path : Text → Text
same_path p = p

-- The directory of the requests is empty, and there is no file of shares.
abbrev empty_dirs : World
empty_dirs = record empty_world { directory = λ d. holds [] }

abbrev users : List Text
users = codes "dj:pw:500" ∷ []

abbrev lines : List Text
lines = codes "GET /shutdown HTTP/1.0\n" ∷ []

abbrev begun : Outcome (Engine Text)
begun =
    set_up text_dom none null plain_text empty_dirs (λ f. some users) (λ p. true) (codes "t")
      new_config

abbrev no_engine : Engine Text
no_engine = record {
  server = record {
    clients = [];
    checker = record { users = []; errors = [] };
    song = wild;
    cols = [];
    update_before_transmit = false;
  };
  log = new_log_service;
  written = [];
  file = [];
  quitting = false;
  skips = 0;
}

abbrev engine_in : Outcome (Engine Text) → Engine Text
engine_in (returns e) = e
engine_in other = no_engine

abbrev asked_once : Engine Text
asked_once =
    request text_dom untagged none plain_text clear_memory empty_dirs parsed same_path (codes "u") 4
      lines (engine_in begun)

begun-returns : begun ≡ returns (engine_in begun)
unfolding set_up main_collections make_dir make update_dir scan make_list_file update_list_file
    construct users_init
begun-returns = refl

-- A request of /shutdown by the user of the file, and then an event.
set_up-Ends_example :
    ((log_event text_dom untagged none level asked_once).quitting ≡ true)
    ↔ Ends text_dom untagged none plain_text clear_memory parsed same_path level null users
        (asked lines ∷ [])
set_up-Ends_example =
    set_up-Ends text_dom untagged none plain_text clear_memory parsed same_path level null
      empty_dirs (λ f. some users) (λ p. true) (codes "t") new_config users (engine_in begun)
      (log_event text_dom untagged none level asked_once) (asked lines ∷ []) refl begun-returns
      (wakes (asks here empty_dirs (codes "u") 4 lines))

Reach-Commanded_example :
    Commanded text_dom untagged none plain_text clear_memory parsed same_path level no_engine
      (asked lines ∷ [])
      (log_event text_dom untagged none level (
        request text_dom untagged none plain_text clear_memory empty_dirs parsed same_path
          (codes "u")
          4
          lines
          no_engine))
Reach-Commanded_example =
    Reach-Commanded text_dom untagged none plain_text clear_memory parsed same_path level
      (wakes (asks here empty_dirs (codes "u") 4 lines))

abbrev conf : ConfFile
conf = record {
  lines = codes "# ports" ∷ codes "SERVER_PORT=80" ∷ codes "DAEMON_MODE=false" ∷ [];
  dir_path = codes "/etc";
}

abbrev options : Options
options = record { daemon = true; port = pos 90; dump = false }

abbrev nobody : Accounts
nobody = record { group_of = λ n. none; user_of = λ n. none; setgid = λ n. 0; setuid = λ n. 0 }

abbrev config_in : Started → Config
config_in (exits n) = new_config
config_in (runs c) = c

abbrev from_options : Started
from_options = start plain_text nobody child (none ∷ some conf ∷ []) (some options)

from_options-runs : from_options ≡ runs (config_in from_options)
unfolding start init first_open get_bool lookup set_bool insert set_integer read_lines parse_line
    fill_defaults def_values text_eq change_user
from_options-runs = refl

start-runs_example :
    (get_string (codes "SERVER_PORT") (config_in from_options)
      ≡ by_daemon plain_text true (codes "SERVER_PORT") (
          by_port plain_text (pos 90) (codes "SERVER_PORT") (
            or_empty (
              or_else
                (last_value (codes "SERVER_PORT") (pairs plain_text conf.lines))
                (last_value (codes "SERVER_PORT") def_values)))))
    × ((child ≡ child)
        ⊎ (get_bool plain_text (codes "DAEMON_MODE") (config_in from_options) ≡ false))
unfolding text_eq first_open
start-runs_example =
    start-runs plain_text nobody child (none ∷ some conf ∷ []) conf options (config_in from_options)
      (codes "SERVER_PORT") refl from_options-runs refl
