-- ===== src/Legacy/Reach.antt =====
-- The first version while it runs: connections of `http_thread`, and starts, rounds and ends of
-- `player_thread` (netdj/src/main.cc), one at a time in any order. A connection may find any outside and any variables
-- of its thread.
use mathlib.Core.Bool.{true≢false}
use netdj.Prelude.{
  ℕ, ◌≡◌, refl, sym, ap, ◌∙◌, ◌⊎◌, inl, inr, Bool, true, false, not, ◌&&◌, ◌||◌, Option, some, List,
  Text, codes, take, text_eq, length, Bool-cases,
}
use netdj.Base64.{Tables}
use netdj.Legacy.Access.{is_access_allowed}
use netdj.Legacy.Config.{Values, get, get_integer, get_bool, set_bool}
use netdj.Legacy.CurrentSong.{clear}
use netdj.Legacy.Directory.{Outside, returns}
use netdj.Legacy.File.{File}
use netdj.Legacy.Frame.{Frame, Frame-refl}
use netdj.Legacy.Frame.Pages.{connection-Frame}
use netdj.Legacy.Frame.Songs.{round-Frame}
use netdj.Legacy.Http.{HttpRequest}
use netdj.Legacy.Http.Parse.{parse}
use netdj.Legacy.Player.{Block, Round, round}
use netdj.Legacy.Player.Thread.{Shout, settings, open_log, connect}
use netdj.Legacy.Program.{Program, Env, kill_current}
use netdj.Legacy.Text.{atoi, lookup-put}
use netdj.Legacy.Web.{
  Web, Answer, Received, got, c_string, answer, answer_command, connection, level_power_user,
}
use netdj.Legacy.Web.Answers.{Allowed, answer_command-Allowed}

-- Where the program gets to; a call that does not return has no step. quit() is the last step.
pub data Reach (p : Program) : Program → Type 0 where
  here : Reach p p
  connects :
      {q : Program}
      → Reach p q
      → (env : Env) (memory : Tables) (received : Received) (w : Web) (a : Answer)
      → connection env memory received w q ≡ returns (some a)
      → Reach p a.program
  plays :
      {q : Program}
      → Reach p q
      → (o : Outside) (rand : ℕ) (logging : Bool) (blocks : Option (List Block)) (r : Round)
      → round o rand logging blocks q ≡ returns r
      → Reach p r.program
  starts_player : {q : Program} → Reach p q → (shout : Shout) → Reach p (connect shout q).0
  ends_player :
      {q : Program}
      → Reach p q
      → (memory : File) → Reach p (record q { current = (clear memory q.current).0 })
  quits : {q : Program} → Reach p q → Reach p (kill_current (record q { stop_player = true }))

-- What the program keeps while it runs. Where the log file cannot be opened, the player sets PLAYER_LOG
-- to false.
pub record Kept (p q : Program) : Type 0 where
  pub kept_config :
      (name : Text)
      → text_eq (codes "PLAYER_LOG") name ≡ false
      → get name q.config ≡ get name p.config
  pub log_off :
      get_bool (codes "PLAYER_LOG") q.config ≡ true → get_bool (codes "PLAYER_LOG") p.config ≡ true
  pub same_users : q.acc ≡ p.acc
  pub same_lock : q.http_locked ≡ p.http_locked

Frame-Kept : {p q : Program} → Frame p q → Kept p q
Frame-Kept f = record {
  kept_config = λ name ne. ap (get name) f.same_config;
  log_off = λ h. sym (ap (get_bool (codes "PLAYER_LOG")) f.same_config) ∙ h;
  same_users = f.same_users;
  same_lock = f.same_lock;
}

Kept-trans : {p q r : Program} → Kept p q → Kept q r → Kept p r
Kept-trans a b = record {
  kept_config = λ name ne. b.kept_config name ne ∙ a.kept_config name ne;
  log_off = λ h. a.log_off (b.log_off h);
  same_users = b.same_users ∙ a.same_users;
  same_lock = b.same_lock ∙ a.same_lock;
}

get-log_off :
    (m : Values) (name : Text)
    → text_eq (codes "PLAYER_LOG") name ≡ false
    → get name (set_bool (codes "PLAYER_LOG") false m) ≡ get name m
unfolding get set_bool
get-log_off m name ne =
    rw (get, set_bool, lookup-put (codes "PLAYER_LOG") name (codes "false") m, ne) refl

get_bool-log_off :
    (m : Values) → get_bool (codes "PLAYER_LOG") (set_bool (codes "PLAYER_LOG") false m) ≡ false
unfolding get_bool get_integer get set_bool text_eq atoi
get_bool-log_off m =
    rw
      (
        get_bool,
        get_integer,
        get,
        set_bool,
        lookup-put (codes "PLAYER_LOG") (codes "PLAYER_LOG") (codes "false") m,
      )
      refl

connect-Kept : (shout : Shout) (p : Program) → Kept p (connect shout p).0
unfolding connect open_log
connect-Kept shout p =
    let stopped = not shout.structures || not (shout.accepts (settings p.config)) in
    elim (Bool-cases (not stopped && get_bool (codes "PLAYER_LOG") p.config)) [
      | inr e ↦
          rw (connect, e)
            (Frame-Kept (record { same_config = refl; same_users = refl; same_lock = refl }))
      | inl e ↦ elim (Bool-cases shout.log_opens) [
        | inl o ↦
            rw (connect, e, o)
              (Frame-Kept (record { same_config = refl; same_users = refl; same_lock = refl }))
        | inr o ↦
            rw (connect, e, o)
              (record {
                kept_config = get-log_off p.config;
                log_off = λ h. absurd (true≢false (sym h ∙ get_bool-log_off p.config));
                same_users = refl;
                same_lock = refl;
              })
      ]
    ]

pub Reach-Kept : {p q : Program} → Reach p q → Kept p q
Reach-Kept {p} here = Frame-Kept (Frame-refl p)
Reach-Kept (connects {q} r env memory received w a h) =
    Kept-trans (Reach-Kept r) (Frame-Kept (connection-Frame env memory received w q (some a) h))
Reach-Kept (plays {q} r o rand logging blocks s h) =
    Kept-trans (Reach-Kept r) (Frame-Kept (round-Frame o rand logging blocks q s h))
Reach-Kept (starts_player {q} r shout) = Kept-trans (Reach-Kept r) (connect-Kept shout q)
Reach-Kept (ends_player r memory) =
    Kept-trans (Reach-Kept r)
      (Frame-Kept (record { same_config = refl; same_users = refl; same_lock = refl }))
Reach-Kept (quits r) =
    Kept-trans (Reach-Kept r)
      (Frame-Kept (record { same_config = refl; same_users = refl; same_lock = refl }))

still_right :
    {p q : Program} (env : Env) (memory : Tables) (w : Web) (a : Answer)
    → Kept p q
    → (a.program ≡ q) ⊎ Allowed env memory w q
    → (a.program ≡ q) ⊎ Allowed env memory w p
still_right env memory w a f (inl e) = inl e
still_right env memory w a f (inr b) = inr (record {
  login = b.login;
  command = b.command;
  sent_login = b.sent_login;
  may =
      ap (λ u. (is_access_allowed env.exec b.login level_power_user u).0) (sym f.same_users)
      ∙ b.may;
  called = b.called;
})

connection-command :
    (env : Env) (memory : Tables) (rbuf : Text) (w : Web) (p : Program) (req : HttpRequest)
    → p.http_locked ≡ false
    → parse env.exec (c_string rbuf) false w.req ≡ returns (req, true)
    → text_eq req.command (codes "GET") ≡ true
    → text_eq (take 9 req.name) (codes "/cgi-bin/") ≡ true
    → connection env memory (got rbuf) w p ≡ answer_command env memory (record w { req = req }) p
unfolding connection answer
connection-command env memory rbuf w p req unlocked parsed is_get is_command =
    simp (connection, unlocked, parsed, is_get, is_command)

-- Whatever connections came, players were started, songs were played and signals arrived since the program
-- had these users and its web was not locked: a connection whose text is parsed as a GET of a command
-- is answered with one packet, and changes nothing unless the credentials that came with it are, by
-- those users, a user's of level 100 or more and the name is that of a command for users. The users,
-- the lock and the configuration are still the first ones, but for PLAYER_LOG, which can only have
-- been turned off.
pub Reach-Allowed :
    (p q : Program) (env : Env) (memory : Tables) (rbuf : Text) (w : Web) (req : HttpRequest)
    → Reach p q
    → p.http_locked ≡ false
    → parse env.exec (c_string rbuf) false w.req ≡ returns (req, true)
    → text_eq req.command (codes "GET") ≡ true
    → text_eq (take 9 req.name) (codes "/cgi-bin/") ≡ true
    → (a : Answer) × (connection env memory (got rbuf) w q ≡ returns (some a))
      × (length a.sent ≡ 1)
      × Kept p a.program
      × ((a.program ≡ q) ⊎ Allowed env memory (record w { req = req }) p)
Reach-Allowed p q env memory rbuf w req r unlocked parsed is_get is_command =
    let f = Reach-Kept r in
    let w' : Web = record w { req = req } in
    let (a, ran, one, same, why) = answer_command-Allowed env memory w' q in
    let still : Frame q a.program = record {
      same_config = same.same_config;
      same_users = same.same_users;
      same_lock = same.same_lock;
    } in
    (
      a,
      connection-command env memory rbuf w q req (f.same_lock ∙ unlocked) parsed is_get is_command
          ∙ ran,
      one,
      Kept-trans f (Frame-Kept still),
      still_right env memory w' a f why,
    )
