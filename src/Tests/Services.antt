-- ===== src/Tests/Services.antt =====
-- The server and the log.
use netdj.Prelude.{
  ◌+◌, ◌≡◌, refl, Bool, true, false, none, some, List, [], ◌∷◌, Text, codes, text_eq,
}
use netdj.Access.{UserInfo}
use netdj.Config.{Config}
use netdj.Engine.{Engine}
use netdj.Log.{new_log_service, log_client_new, log_quit}
use netdj.Log.Delivery.{Action, call, arrives, run, created, count, count_emitted, count-run}
use netdj.Server.{Server, wild, Request, commands, find_command, shortcut, no_command}
use netdj.Server.Commands.{handle_command}
use netdj.Server.Rights.{orders, may_order, orders-handle_command}
use netdj.Tests.Samples.{plain_text, text_dom, clear_memory, untagged, empty_world}

abbrev dj : UserInfo
dj = record { password = codes "pw"; level = 500 }

abbrev server : Server Text
server = record {
  clients = [];
  checker = record { users = (codes "dj", dj) ∷ []; errors = [] };
  song = wild;
  cols = [];
  update_before_transmit = false;
}

abbrev login : Text
login = codes "Basic ZGo6cHc="

orders-handle_command_example :
    orders
      (handle_command text_dom untagged plain_text clear_memory empty_world
        (codes "/shutdown")
        4
        login
        server).signals
    ≡ may_order plain_text clear_memory (shortcut (codes "/shutdown")) login server.checker
orders-handle_command_example =
    orders-handle_command text_dom untagged plain_text clear_memory empty_world (codes "/shutdown")
      4 login server

-- A request as its parser gives it; the lines of the request are not looked at here.
abbrev get : Text → Request
get path = record { method = codes "GET"; path = path; authorization = [] }

abbrev same_path : Text → Text
same_path p = p

nothing_found : (find_command commands (shortcut (codes "/x"))).cmd_type ≡ no_command
unfolding find_command commands shortcut text_eq
nothing_found = refl

abbrev request_lines : List Text
request_lines = codes "GET / HTTP/1.0\n" ∷ codes "\n" ∷ []

-- The whole of the second version, asked to shut down by the user dj.
abbrev engine : Engine Text
engine = record {
  server = server;
  log = new_log_service;
  written = [];
  file = [];
  quitting = false;
  skips = 0;
}

abbrev parsed : Text → Request
parsed t = record (get (codes "/shutdown")) { authorization = login }

-- A daemon that changes its user, where both calls succeed.
abbrev daemon_config : Config
daemon_config = record {
  values =
      (codes "DAEMON_CHANGE_USER", codes "true")
      ∷ (codes "DAEMON_GROUP", codes "nobody")
      ∷ (codes "DAEMON_USER", codes "nobody")
      ∷ [];
  errors = [];
}

abbrev some_actions : List (Action Text)
some_actions =
    call true (codes "t1") (log_client_new text_dom (some (codes "Server")))
    ∷ call false (codes "t2") (log_quit text_dom none (codes "dj"))
    ∷ arrives true
    ∷ []

abbrev any_entry : Text → Bool
any_entry x = true

count-run_example :
    count_emitted text_dom (λ x. 0) any_entry (run text_dom (λ x. 0) some_actions new_log_service).1
      + count text_dom
          (λ x. 0)
          any_entry
          (run text_dom (λ x. 0) some_actions new_log_service).0.queue
    ≡ count text_dom (λ x. 0) any_entry []
      + count text_dom (λ x. 0) any_entry (created text_dom (λ x. 0) some_actions 0)
count-run_example = count-run text_dom (λ x. 0) any_entry some_actions new_log_service
