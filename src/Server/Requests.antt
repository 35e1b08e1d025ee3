-- ===== src/Server/Requests.antt =====
-- The slots of netdj2/engine/Server.cpp: new and closed connections, requests, songs, log entries.
use netdj.Prelude.{
  ℕ, Bool, true, false, Option, none, some, List, [], ◌∷◌, ◌++◌, Text, codes, text_eq, length, ltb,
  leb, if◌then◌else◌,
}
use netdj.Base64.{Tables}
use netdj.Collections.{World}
use netdj.Qt.{QtText}
use netdj.Song.{Song}
use netdj.SongInfo.{SongInfo}
use netdj.Songlist.{Songlist}
use netdj.SongXml.{song_xml}
use netdj.Xml.{Dom}
use netdj.Server.{
  Signal, sig_client_new, sig_client_close, SongPointer, null, wild, song_element, Server, remove,
  Handled, close_con, cmd_invalid, cmd_unauthorized, Reply, Request,
}
use netdj.Server.Commands.{handle_command}
use netdj.Server.Texts.{
  http_401, http_404, http_501, http_html, http_datastart, html_401, html_404, html_501,
}

abbrev pub max_request_size : ℕ
max_request_size = 8192

-- the loop over the lines that the socket has: what was read, and the lines that are left
unfoldable pub read_input : List Text → Text → Text × List Text
read_input [] input = (input, [])
read_input (line ∷ rest) input =
    let more = read_input rest (input ++ line) in
    if ltb (length input) max_request_size then more else (input, line ∷ rest)

pub page_401 : Text
page_401 = http_401 ++ (http_html ++ (http_datastart ++ (html_401 ++ codes "\n")))

pub page_404 : Text
page_404 = http_404 ++ (http_html ++ (http_datastart ++ html_404))

pub page_501 : Text
page_501 = http_501 ++ (http_html ++ (http_datastart ++ html_501))

-- What a request leaves: the reply, and whether the socket is closed. An exception that is not caught
-- leaves the handler before that.
pub record Served (X : Type 0) : Type 0 where
  pub reply : Reply X
  pub closed : Bool

module _ {X : Type 0} (dom : Dom X) (tags : Text → SongInfo) (qt : QtText) (memory : Tables)
    (w : World) (parse : Text → Request) (url_path : Text → Text) where
  -- the handlers of the exceptions
  unfoldable pub caught : Handled → Reply X → Served X
  caught (close_con b) r = record { reply = r; closed = b }
  caught cmd_unauthorized r = record { reply = record r { out = r.out ++ page_401 }; closed = true }
  caught cmd_invalid r = record { reply = record r { out = r.out ++ page_404 }; closed = true }
  caught other r = record { reply = r; closed = false }

  -- ReadClient(), on the text that was read
  unfoldable pub serve : ℕ → Request → Server X → Served X
  unfolding caught
  serve socket header s =
      if text_eq header.method (codes "GET")
      then (let r =
            handle_command dom tags qt memory w (url_path header.path) socket header.authorization
              s in
          caught r.handled r)
      else record {
        reply = record { server = s; out = page_501; signals = []; handled = close_con true };
        closed = true;
      }

  unfoldable pub read_client : ℕ → List Text → Server X → Served X
  unfolding serve
  read_client socket lines s = serve socket (parse (read_input lines []).0) s

-- NewClient(aSocket): the client's log level is 0.
unfoldable pub new_client : {X : Type 0} → ℕ → Server X → Server X × List Signal
new_client socket s = (record s { clients = (socket, 0) ∷ s.clients }, sig_client_new ∷ [])

-- ClientClosed()
unfoldable pub client_closed : {X : Type 0} → ℕ → Server X → Server X × List Signal
client_closed socket s = (record s { clients = remove socket s.clients }, sig_client_close ∷ [])

module _ {X : Type 0} (dom : Dom X) (tags : Text → SongInfo) where
  -- the element that SongPlaying makes
  pub playing_xml : Song → Songlist → X
  playing_xml song col =
      dom.set_attribute (song_xml dom tags song) (codes "collection") col.identifier

  unfoldable pub set_song : SongPointer X → Song → Songlist → Server X → Option (Server X)
  unfolding playing_xml
  set_song wild song col s = none
  set_song null song col s = some (record s { song = song_element (playing_xml song col) })
  set_song (song_element x) song col s =
      some (record s { song = song_element (playing_xml song col) })

  -- SongPlaying(aSong, aCol): `none` where a pointer that was never set is deleted
  unfoldable pub song_playing : Song → Songlist → Server X → Option (Server X)
  unfolding set_song
  song_playing song col s = set_song s.song song col s

  -- NewLogEntry(aEntry, aLevel): what is written, with the socket to which it goes
  unfoldable pub new_log_entry : X → ℕ → List (ℕ × ℕ) → List (ℕ × Text)
  new_log_entry entry level [] = []
  new_log_entry entry level ((socket, l) ∷ rest) =
      let others = new_log_entry entry level rest in
      if leb level l then (socket, dom.to_text entry) ∷ others else others
