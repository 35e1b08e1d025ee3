-- ===== src/Legacy/Player/Thread.antt =====
-- `player_thread` of netdj/src/main.cc from its start to its end. What libshout and the log file answer
-- is an argument, and so is each round of the main loop, with whether another thread has asked to stop
-- before it.
use netdj.Prelude.{
  ℕ, Bool, true, false, not, ◌&&◌, ◌||◌, Option, List, [], ◌∷◌, ◌++◌, Text, codes, if◌then◌else◌,
}
use netdj.Prelude.Int.{ℤ}
use netdj.Legacy.Directory.{Run, returns, ◌>>=◌, Outside}
use netdj.Legacy.CurrentSong.{clear}
use netdj.Legacy.Config
use netdj.Legacy.Program.{Program}
use netdj.Legacy.Player.{Block, Round, round}

-- The calls that set the stream up, with their arguments
pub data Setting : Type 0 where
  set_user set_host set_password set_mount set_name set_genre set_description : Text → Setting
  set_public : ℕ → Setting
  set_port : ℤ → Setting
  set_format_mp3 set_protocol_http : Setting

unfoldable pub settings : Config.Values → List Setting
settings c =
    set_user (codes "source")
    ∷ set_public 0
    ∷ set_format_mp3
    ∷ set_protocol_http
    ∷ set_host (Config.get (codes "STREAM_IP") c)
    ∷ set_port (Config.get_integer (codes "STREAM_PORT") c)
    ∷ set_password (Config.get (codes "STREAM_PASSWD") c)
    ∷ set_mount (Config.get (codes "STREAM_MOUNT") c)
    ∷ set_name (codes "NetDJ")
    ∷ set_genre (codes "Mixed")
    ∷ set_description (codes "NetDJ streaming channel")
    ∷ []

-- Whether libshout gives its structures, whether the server accepts the stream with these settings, and
-- whether the log file can be opened.
pub record Shout : Type 0 where
  pub structures : Bool
  pub accepts : List Setting → Bool
  pub log_opens : Bool

-- behind the connection: whether songs are logged
unfoldable pub open_log : Shout → Program → Program × Bool
open_log shout p =
    if not p.stop_player && Config.get_bool (codes "PLAYER_LOG") p.config
    then (if shout.log_opens
        then (p, true)
        else (record p { config = Config.set_bool (codes "PLAYER_LOG") false p.config }, false))
    else (p, false)

unfoldable pub connect : Shout → Program → Program × Bool
unfolding open_log
connect shout p = open_log shout (record p {
  stop_player = not shout.structures || not (shout.accepts (settings p.config));
  next_song = false;
})

-- What a round meets.
pub record Meeting : Type 0 where
  pub outside : Outside
  pub rand : ℕ
  pub blocks : Option (List Block)
  pub stop_set : Bool

-- What the rounds sent, deleted and logged.
pub record Played : Type 0 where
  pub program : Program
  pub sent : List Text
  pub deleted : List Text
  pub log : List Text

abbrev pub nothing_played : Program → Played
nothing_played p = record { program = p; sent = []; deleted = []; log = [] }

abbrev pub followed : Round → Played → Played
followed r rest = record {
  program = rest.program;
  sent = r.sent ++ rest.sent;
  deleted = r.deleted ++ rest.deleted;
  log = r.log ++ rest.log;
}

-- while (!stop_player)
unfoldable pub play_rounds : Bool → List Meeting → Program → Run Played
play_rounds logging [] p = returns (nothing_played p)
play_rounds logging (m ∷ rest) p =
    let now = record p { stop_player = p.stop_player || m.stop_set } in
    if now.stop_player
    then returns (nothing_played now)
    else round m.outside m.rand logging m.blocks now
      >>= (λ r. play_rounds logging rest r.program >>= (λ later. returns (followed r later)))

-- The thread: when it stops the current song is cleared. Where the rounds that are given end before
-- that, it is still in its loop.
end_thread : Outside → Played → Played
end_thread o q =
    let cleared = clear o.memory q.program.current in
    if q.program.stop_player
    then record q {
      program = record q.program { current = cleared.0 };
      deleted = q.deleted ++ cleared.1;
    }
    else q

unfoldable pub player_thread : Shout → Outside → List Meeting → Program → Run Played
unfolding end_thread
player_thread shout o meetings p =
    let ready = connect shout p in
    play_rounds ready.1 meetings ready.0 >>= (λ q. returns (end_thread o q))
