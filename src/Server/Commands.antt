-- ===== src/Server/Commands.antt =====
-- `HandleCommand` of netdj2/engine/Server.cpp and the commands that it calls.
use netdj.Prelude.{
  ℕ, Bool, true, false, Option, none, some, List, [], ◌∷◌, ◌++◌, Text, codes, text_eq, is_empty,
  if◌then◌else◌,
}
use netdj.Base64.{Tables}
use netdj.Collections.{World}
use netdj.Outcome.{server_error, Outcome, returns, throws, faults, spins}
use netdj.Qt.{QtText}
use netdj.SongInfo.{SongInfo}
use netdj.Songlist.{Songlist}
use netdj.SongXml.{collection_xml}
use netdj.Xml.{Dom}
use netdj.Server.{
  crit, warn, info, Signal, sig_quit, sig_skip, sig_message, SongPointer, null, wild, song_element,
  Server, CmdType, help, current, requests, log, skip, shutdown, no_command, Command, commands,
  find_command, shortcut, is_client, set_level, Handled, close_con, cmd_invalid, cmd_unauthorized,
  fails, undefined, hangs, Reply,
}
use netdj.Server.Auth.{check_authorization}
use netdj.Server.Texts.{
  http_200, http_500, http_html, http_xml, http_datastart, html_200_start, html_200_end, html_500,
}

abbrev endl : Text
endl = codes "\n"

-- CmdHelp's loop over the table
help_rows : List Command → Text
help_rows [] = []
help_rows (c ∷ rest) = elim c.name [
  | none ↦ []
  | some n ↦
      codes "  <tr><td><a href=\""
      ++ (n
          ++ (codes "\">"
              ++ (n
                  ++ (codes "</a></td><td>"
                      ++ (c.description ++ (codes "</td></tr>\n" ++ help_rows rest))))))
]

pub help_page : Text
unfolding help_rows
help_page =
    http_200
    ++ (http_html
        ++ (http_datastart
            ++ (html_200_start
                ++ (codes "<table>\n"
                    ++ (codes "  <tr><th>Name</th><th>Description</th></tr>\n"
                        ++ (help_rows commands ++ (codes "</table>\n" ++ html_200_end)))))))

pub xml_page : Text → Text
xml_page xml = http_200 ++ (http_xml ++ (http_datastart ++ (xml ++ endl)))

-- the page of CmdSkip and CmdShutdown
pub text_page : Text → Text
text_page paragraph =
    http_200 ++ (http_html ++ (http_datastart ++ (html_200_start ++ (paragraph ++ html_200_end))))

pub error_page : Text
error_page = http_500 ++ (http_html ++ (http_datastart ++ html_500))

abbrev no_request_list : Text
no_request_list = codes "Could not retrieve request collection!"

module _ {X : Type 0} (dom : Dom X) (tags : Text → SongInfo) (qt : QtText) (memory : Tables)
    (w : World) where
  -- A reply with the server as it was.
  abbrev replies : Server X → Text → List Signal → Handled → Reply X
  replies s out signals handled = record {
    server = s;
    out = out;
    signals = signals;
    handled = handled;
  }

  -- GetSong() copies the element behind the pointer.
  unfoldable pub cmd_current : Server X → SongPointer X → Reply X
  cmd_current s null = replies s [] [] undefined
  cmd_current s wild = replies s [] [] undefined
  cmd_current s (song_element x) = replies s (xml_page (dom.to_text x)) [] (close_con true)

  -- the collections with the one found changed, and what came of it
  unfoldable pub request_xml : Bool → List Songlist → List Songlist × Option (Outcome X)
  request_xml update_first [] = ([], none)
  request_xml update_first (c ∷ rest) =
      let later = request_xml update_first rest in
      let here = collection_xml dom tags w update_first c in
      if text_eq c.identifier (codes "request")
      then (here.0 ∷ rest, some here.1)
      else (c ∷ later.0, later.1)

  unfoldable pub requests_reply : Server X → Option (Outcome X) → Reply X
  requests_reply s none =
      replies s error_page (sig_message no_request_list 10 crit ∷ []) (close_con true)
  requests_reply s (some (returns x)) = replies s (xml_page (dom.to_text x)) [] (close_con true)
  requests_reply s (some (throws e)) = replies s [] [] (fails e)
  requests_reply s (some faults) = replies s [] [] undefined
  requests_reply s (some spins) = replies s [] [] hangs

  unfoldable pub cmd_requests : Server X → Reply X
  unfolding request_xml requests_reply
  cmd_requests s =
      let found = request_xml s.update_before_transmit s.cols in
      requests_reply (record s { cols = found.0 }) found.1

  -- `mClients[socket]` is a null pointer for a socket that is no client.
  unfoldable pub cmd_log : ℕ → Server X → Reply X
  cmd_log socket s =
      if is_client socket s.clients
      then replies (record s { clients = set_level socket 999 s.clients })
          (xml_page (codes "<log state=\"on\"/>\n")) [] (close_con false)
      else replies s [] [] undefined

  unfoldable pub cmd_skip : Server X → Text → Reply X
  cmd_skip s user =
      replies s (text_page (codes "<p>Skipping song</p>\n")) (sig_skip user ∷ []) (close_con true)

  unfoldable pub cmd_shutdown : Server X → Text → Reply X
  cmd_shutdown s user =
      replies s (text_page (codes "<p>Shutting down NetDJ!</p>\n")) (sig_quit user ∷ [])
        (close_con true)

  -- the `switch` on the command
  unfoldable pub run_command : CmdType → ℕ → Text → Server X → Reply X
  unfolding cmd_current cmd_requests cmd_log cmd_skip cmd_shutdown
  run_command help socket user s = replies s help_page [] (close_con true)
  run_command current socket user s = cmd_current s s.song
  run_command requests socket user s = cmd_requests s
  run_command log socket user s = cmd_log socket s
  run_command skip socket user s = cmd_skip s user
  run_command shutdown socket user s = cmd_shutdown s user
  run_command no_command socket user s = replies s [] [] (
      fails (
        server_error
          (codes "Shoot the programmer, HandleCommand() got an unknown command type!\n")))

  abbrev pub with_signal : Signal → Reply X → Reply X
  with_signal g r = record r { signals = g ∷ r.signals }

  abbrev named : Text → Text
  named user = if is_empty user then [] else codes "', user='" ++ (user ++ codes "'")

  -- behind the search: the check, the message and the call
  unfoldable pub checked : Command → Text → ℕ → Text × Bool → Server X → Reply X
  checked c cmdstr socket (user, true) s =
      with_signal (sig_message (codes "Command: '" ++ (cmdstr ++ named user)) 150 info)
        (run_command c.cmd_type socket user s)
  checked c cmdstr socket (user, false) s =
      if is_empty user
      then replies s [] [] cmd_unauthorized
      else replies s []
          (sig_message
              (codes "Unauthorized command: '"
                ++ (cmdstr ++ (codes "', user='" ++ (user ++ codes "'"))))
              50 warn
            ∷ [])
          cmd_unauthorized

  unfoldable pub dispatch : CmdType → Command → Text → ℕ → Text → Server X → Reply X
  unfolding checked
  dispatch no_command c cmdstr socket authorization s =
      replies s [] (sig_message (codes "Invalid command: " ++ cmdstr) 70 warn ∷ []) cmd_invalid
  dispatch t c cmdstr socket authorization s =
      checked c cmdstr socket (check_authorization qt memory s.checker c.auth_level authorization) s

  -- HandleCommand(aStream, aHeader), on the URL's path
  unfoldable pub handle_command : Text → ℕ → Text → Server X → Reply X
  unfolding dispatch
  handle_command url_path socket authorization s =
      let cmdstr = shortcut url_path in
      let c = find_command commands cmdstr in dispatch c.cmd_type c cmdstr socket authorization s
