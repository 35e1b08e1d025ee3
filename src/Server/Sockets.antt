-- ===== src/Server/Sockets.antt =====
-- What a request leaves of the server and of its connection, what is read of it, and who gets the
-- log entries.
use netdj.Prelude.{
  ℕ, ◌+◌, ◌≤◌, ◌<◌, ◌≡◌, refl, ◌∙◌, ◌⊎◌, inl, inr, true, false, List, [], ◌∷◌, ◌++◌, append_assoc,
  Text, codes, text_eq, length, length-append, All, ltb, ==_refl, le→leb, arith, Bool-cases,
}
use netdj.Base64.{Tables}
use netdj.Collections.{World}
use netdj.Qt.{QtText}
use netdj.SongInfo.{SongInfo}
use netdj.Xml.{Dom}
use netdj.Server.{
  sig_message, warn, null, wild, Server, commands, find_command, shortcut, is_client, set_level,
  undefined, Request, no_command,
}
use netdj.Server.Auth.{check_authorization}
use netdj.Server.Commands.{cmd_current, cmd_log, run_command, checked, dispatch, handle_command}
use netdj.Server.Requests.{
  caught, serve, page_404, read_input, max_request_size, new_client, new_log_entry,
}

-- The lines one after the other.
pub joined : List Text → Text
joined [] = []
joined (line ∷ rest) = line ++ joined rest

-- Reading loses nothing: what was read and the lines that are left are what the socket had.
pub joined-read_input :
    (lines : List Text) (input : Text)
    → (read_input lines input).0 ++ joined (read_input lines input).1 ≡ input ++ joined lines
unfolding read_input joined
joined-read_input [] input = refl
joined-read_input (line ∷ rest) input = elim (Bool-cases (ltb (length input) max_request_size)) [
  | inl e ↦ rw e (joined-read_input rest (input ++ line) ∙ append_assoc input line (joined rest))
  | inr e ↦ rw e
]

-- If no line is longer than `n`, and the text so far is shorter than the limit plus `n`, what is read
-- is shorter than that too.
pub length-read_input :
    (lines : List Text) (input : Text) (n : ℕ)
    → All (λ line. length line ≤ n) lines
    → length input < max_request_size + n
    → length (read_input lines input).0 < max_request_size + n
unfolding read_input
length-read_input [] input n short h = h
length-read_input (line ∷ rest) input n short h =
    elim (Bool-cases (ltb (length input) max_request_size)) [
      | inl e ↦ rw e (
          length-read_input rest (input ++ line) n short.1
            (ground (arith, length-append input line, short.0)))
      | inr e ↦ rw e h
    ]

-- A first line is read whatever its length, the limit notwithstanding; if it reaches the limit,
-- nothing else is read.
read_input_long_line :
    (line : Text) (rest : List Text)
    → max_request_size ≤ length line
    → read_input (line ∷ rest) [] ≡ (line, rest)
unfolding read_input
read_input_long_line line [] h = refl
read_input_long_line line (next ∷ rest) h = ground arith

-- The first level of a socket.
set_level-front :
    (socket level : ℕ) (clients : List (ℕ × ℕ)) (old : ℕ)
    → set_level socket level ((socket, old) ∷ clients) ≡ (socket, level) ∷ clients
unfolding set_level
set_level-front socket level clients old = rw ==_refl

module _ {X : Type 0} (dom : Dom X) (tags : Text → SongInfo) (qt : QtText) (memory : Tables)
    (w : World) (parse : Text → Request) (url_path : Text → Text) where
  -- A new client that asks for the log by GET stays connected, and every entry of a level up to 999 is
  -- then written to it, before the clients that were there get theirs.
  pub new_log_entry-log :
      (socket level : ℕ) (header : Request) (s : Server X) (entry : X)
      → header.method ≡ codes "GET"
      → url_path header.path ≡ codes "/log"
      → level ≤ 999
      → let served =
          serve dom tags qt memory w parse url_path socket header (new_client socket s).0 in
        (served.closed ≡ false)
        × (new_log_entry dom tags entry level served.reply.server.clients
            ≡ (socket, dom.to_text entry) ∷ new_log_entry dom tags entry level s.clients)
  unfolding serve new_client new_log_entry handle_command dispatch checked run_command cmd_log
      check_authorization find_command commands text_eq shortcut is_client caught set_level
  new_log_entry-log socket level header s entry m p h =
      simp (m, p, ==_refl, le→leb level 999 h) (refl, refl)

  -- A GET of a path that is no command is answered with 404: the server is as it was, a warning of
  -- level 70 is logged, and the connection is closed.
  pub serve_unknown :
      (socket : ℕ) (header : Request) (s : Server X)
      → header.method ≡ codes "GET"
      → (find_command commands (shortcut (url_path header.path))).cmd_type ≡ no_command
      → let served = serve dom tags qt memory w parse url_path socket header s in
        (served.closed ≡ true)
        × (served.reply.out ≡ page_404)
        × (served.reply.server ≡ s)
        × (served.reply.signals
            ≡ sig_message (codes "Invalid command: " ++ shortcut (url_path header.path)) 70 warn
              ∷ [])
  unfolding serve handle_command dispatch caught text_eq
  serve_unknown socket header s m p = rw (m, p) (refl, refl, refl, refl)

  -- A GET of the current song, while the pointer to the song is null or was never set, is undefined.
  pub serve_no_song :
      (socket : ℕ) (header : Request) (s : Server X)
      → header.method ≡ codes "GET"
      → url_path header.path ≡ codes "/current.xml"
      → (s.song ≡ null) ⊎ (s.song ≡ wild)
      → (serve dom tags qt memory w parse url_path socket header s).reply.handled ≡ undefined
  unfolding serve handle_command dispatch checked run_command cmd_current check_authorization
      find_command commands text_eq shortcut caught
  serve_no_song socket header s m p h = elim h [ inl e ↦ rw (m, p, e) | inr e ↦ rw (m, p, e) ]
