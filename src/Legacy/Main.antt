-- ===== src/Legacy/Main.antt =====
-- What main() and quit() of netdj/src/main.cc do with the state. The fork, the signals and the files
-- of the daemon are left out.
use netdj.Prelude.{Bool, true, false, Option, none, some, List, [], ◌∷◌, ◌++◌, codes, if◌then◌else◌}
use netdj.Legacy.Directory.{Run, returns, ◌>>=◌, set_dirname}
use netdj.Legacy.Config
use netdj.Legacy.Access
use netdj.Legacy.State.{StateFile, save_state, load_state}
use netdj.Legacy.Program.{Program, Env, kill_current}
use netdj.Legacy.Commands.{Thread, player_thread, http_thread}

-- The lists, the lock and the threads, when the configuration and the users have been read
unfoldable pub set_up : StateFile → Program → Run (Program × List Thread)
set_up state p =
    set_dirname (Config.get (codes "REQUEST_DIR") p.config) false p.request >>= (λ request.
      set_dirname (Config.get (codes "CACHE_DIR") p.config) false (load_state state p.cache)
      >>= (λ cache. set_dirname (Config.get (codes "SHARE_DIR") p.config) true p.share >>= (λ share.
          returns (
            record p {
              request = request;
              cache = cache;
              share = share;
              http_locked = Config.get_bool (codes "WEB_LOCKED") p.config;
            },
            (if Config.get_bool (codes "PLAYER_START") p.config then player_thread ∷ [] else [])
                ++ (if Config.get_bool (codes "HTTP_START") p.config then http_thread ∷ [] else []),
          ))))

with_users : StateFile → Program → Option Access.Users → Run (Option (Program × List Thread))
with_users state p none = returns none
with_users state p (some users) =
    set_up state (record p { acc = users }) >>= (λ r. returns (some r))

with_config :
    Env → StateFile → Program → Option Config.Values → Run (Option (Program × List Thread))
unfolding with_users
with_config env state p none = returns none
with_config env state p (some m) =
    with_users state (record p { config = m })
      (Access.read_file env.build env.exec env.files m env.fuel)

-- The daemon until its main loop: `none` where the fuel of a ReadFile() does not reach
unfoldable pub start_up : Env → StateFile → Program → Run (Option (Program × List Thread))
unfolding with_config
start_up env state p =
    Config.read_file env.build env.exec env.files env.home env.fuel p.config
    >>= with_config env state p

-- quit(): the state file and the flags that the player sees
unfoldable pub quit : Env → Bool → StateFile → Program → Run (StateFile × Program)
quit env can_write state p =
    save_state env.outside.disk can_write p.cache state
    >>= (λ file. returns (file, kill_current (record p { stop_player = true })))
