-- ===== src/Server/Kept.antt =====
-- No slot of the server changes what it knows of the users.
use netdj.Prelude.{
  ℕ, ◌≡◌, refl, ap, ◌∙◌, inl, inr, Bool, true, false, Bool-cases, Option, none, some, List, [], ◌∷◌,
  Text, codes, text_eq, arith,
}
use netdj.Base64.{Tables}
use netdj.Collections.{World}
use netdj.Outcome.{Outcome, returns, throws, faults, spins}
use netdj.Qt.{QtText}
use netdj.Server.{
  Request, Server, SongPointer, null, wild, song_element, CmdType, help, current, requests, log,
  skip, shutdown, no_command, Command, commands, find_command, shortcut, Handled, close_con,
  cmd_invalid, cmd_unauthorized, fails, undefined, hangs, Reply,
}
use netdj.Server.Auth.{check_authorization}
use netdj.Server.Commands.{
  cmd_current, requests_reply, cmd_requests, cmd_log, cmd_skip, cmd_shutdown, run_command, checked,
  dispatch, handle_command,
}
use netdj.Server.Requests.{caught, serve, read_client, read_input}
use netdj.SongInfo.{SongInfo}
use netdj.Xml.{Dom}

module _ {X : Type 0} (dom : Dom X) (tags : Text → SongInfo) (qt : QtText) (memory : Tables)
    (w : World) where
  checker-cmd_current :
      (s : Server X) (p : SongPointer X)
      → (cmd_current dom tags qt memory w s p).server.checker ≡ s.checker
  unfolding cmd_current
  checker-cmd_current s null = refl
  checker-cmd_current s wild = refl
  checker-cmd_current s (song_element x) = refl

  checker-requests_reply :
      (s : Server X) (o : Option (Outcome X))
      → (requests_reply dom tags qt memory w s o).server.checker ≡ s.checker
  unfolding requests_reply
  checker-requests_reply s none = refl
  checker-requests_reply s (some (returns x)) = refl
  checker-requests_reply s (some (throws e)) = refl
  checker-requests_reply s (some faults) = refl
  checker-requests_reply s (some spins) = refl

  checker-cmd_log :
      (socket : ℕ) (s : Server X)
      → (cmd_log dom tags qt memory w socket s).server.checker ≡ s.checker
  unfolding cmd_log
  checker-cmd_log socket s = ground arith

  checker-run_command :
      (t : CmdType) (socket : ℕ) (user : Text) (s : Server X)
      → (run_command dom tags qt memory w t socket user s).server.checker ≡ s.checker
  unfolding run_command cmd_requests cmd_skip cmd_shutdown
  checker-run_command help socket user s = refl
  checker-run_command current socket user s = checker-cmd_current s s.song
  checker-run_command requests socket user s = checker-requests_reply _ _
  checker-run_command log socket user s = checker-cmd_log socket s
  checker-run_command skip socket user s = refl
  checker-run_command shutdown socket user s = refl
  checker-run_command no_command socket user s = refl

  checker-checked :
      (c : Command) (cmdstr : Text) (socket : ℕ) (u : Text × Bool) (s : Server X)
      → (checked dom tags qt memory w c cmdstr socket u s).server.checker ≡ s.checker
  unfolding checked
  checker-checked c cmdstr socket (user, true) s = checker-run_command c.cmd_type socket user s
  checker-checked c cmdstr socket ([], false) s = refl
  checker-checked c cmdstr socket (x ∷ user, false) s = refl

  checker-dispatch :
      (t : CmdType) (c : Command) (cmdstr : Text) (socket : ℕ) (auth : Text) (s : Server X)
      → (dispatch dom tags qt memory w t c cmdstr socket auth s).server.checker ≡ s.checker
  unfolding dispatch
  checker-dispatch no_command c cmdstr socket auth s = refl
  checker-dispatch t c cmdstr socket auth s =
      checker-checked c cmdstr socket (check_authorization qt memory s.checker c.auth_level auth) s

  module _ (parse : Text → Request) (url_path : Text → Text) where
    server-caught :
        (h : Handled) (r : Reply X)
        → (caught dom tags qt memory w parse url_path h r).reply.server ≡ r.server
    unfolding caught
    server-caught (close_con b) r = refl
    server-caught cmd_invalid r = refl
    server-caught cmd_unauthorized r = refl
    server-caught (fails e) r = refl
    server-caught undefined r = refl
    server-caught hangs r = refl

    pub checker-read_client :
        (socket : ℕ) (lines : List Text) (s : Server X)
        → (read_client dom tags qt memory w parse url_path socket lines s).reply.server.checker
          ≡ s.checker
    unfolding read_client serve handle_command
    checker-read_client socket lines s =
        let header = parse (read_input lines []).0 in
        let cmdstr = shortcut (url_path header.path) in
        let c = find_command commands cmdstr in
        let r = dispatch dom tags qt memory w c.cmd_type c cmdstr socket header.authorization s in
        let kept =
          ap (λ t. t.checker) (server-caught r.handled r)
          ∙ checker-dispatch c.cmd_type c cmdstr socket header.authorization s in
        elim (Bool-cases (text_eq header.method (codes "GET"))) [
          | inl e ↦ rw e kept
          | inr e ↦ rw e refl
        ]
