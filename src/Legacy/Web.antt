-- ===== src/Legacy/Web.antt =====
-- The answer of `http_thread` in netdj/src/main.cc to one connection. What `poll` and `recv` give is an
-- argument, and so are the tables of `base64_decode` as the memory held them.
pub mod Html
pub mod Pages
pub mod Answers
use netdj.Prelude.{
  ℕ, zero, suc, Bool, true, false, not, ◌&&◌, Option, none, some, List, [], ◌∷◌, ◌++◌, Text, codes,
  text_eq, is_empty, take, drop, lookup, ◌==◌, if◌then◌else◌,
}
use netdj.Base64.{Tables, base64_decode}
use netdj.Legacy.File.{File, get_filename_no_type}
use netdj.Legacy.Directory.{Run, returns, exits, out_of_range, undefined, ◌>>=◌}
use netdj.Legacy.CurrentSong.{get}
use netdj.Legacy.Http.{
  Http, HttpRequest, HttpResponse, Exec, get_header, set_header, set_body, new_http_response,
  create_response_packet,
}
use netdj.Legacy.Http.Parse.{parse}
use netdj.Legacy.Config
use netdj.Legacy.Access.{is_access_allowed}
use netdj.Legacy.Program.{Program, Env, lists, sizes}
use netdj.Legacy.Commands.{Result, Done, Thread, find_command, run}
use netdj.Legacy.Web.Html.{auth_body}
use netdj.Legacy.Web.Pages.{xml_page, html_page}

-- The variables of the thread that live from one connection to the next.
pub record Web : Type 0 where
  pub xml : HttpResponse
  pub text : HttpResponse
  pub redirect : HttpResponse
  pub auth : HttpResponse
  pub hbuf : Text
  pub o_xsongname : Text
  pub o_hsongname : Text
  pub req : HttpRequest

abbrev pub level_power_user : ℕ
level_power_user = 100

abbrev with_header : Text → Text → HttpResponse → HttpResponse
with_header hdr val r = record r { http = set_header hdr val r.http }

abbrev closing : Text → ℕ → Text → HttpResponse
closing pkgver status cont_type =
    with_header (codes "Connection") (codes "Close") (new_http_response pkgver status cont_type)

abbrev with_body : Text → HttpResponse → HttpResponse
with_body body r = record r { http = set_body body r.http }

-- The answers as the thread makes them when it starts.
unfoldable pub new_web : Text → Program → HttpRequest → Web
new_web pkgver p req =
    let target = Config.get (codes "HTTP_REDIRECT") p.config in
    record {
      xml = closing pkgver 200 (codes "text/xml");
      text = closing pkgver 200 (codes "text/ascii");
      redirect = create_response_packet (
          with_header (codes "Location") (if is_empty target then codes "/" else target)
            (closing pkgver 302 []));
      auth = create_response_packet (
          with_body auth_body (
            with_header (codes "WWW-Authenticate") (codes "Basic realm=\"NetDJ\"")
              (closing pkgver 401 (codes "text/html; charset=iso-8859-1"))));
      hbuf = [];
      o_xsongname = codes "///---///";
      o_hsongname = codes "///---///";
      req = req;
    }

-- What is left after a connection: the state, what was sent, and the threads that were started.
pub record Answer : Type 0 where
  pub web : Web
  pub program : Program
  pub sent : List Text
  pub threads : List Thread

abbrev pub sends : List Text → Web → Program → Answer
sends sent w p = record { web = w; program = p; sent = sent; threads = [] }

abbrev pub packet : HttpResponse → Text
packet r = r.http.packet

-- What the credentials that were sent name, if they are of the kind "Basic"
unfoldable pub credentials : Tables → HttpRequest → Option Text
credentials memory req = elim (get_header (codes "Authorization") req.http) [
  | none ↦ none
  | some auth ↦
      if text_eq (take 6 auth) (codes "Basic ")
      then some (base64_decode memory (drop 6 auth))
      else none
]

redirected : Web → Option Result → Option Answer
redirected w none = none
redirected w (some r) =
    some
      (record { web = w; program = r.program; sent = packet w.redirect ∷ []; threads = r.threads })

-- A command, with a null pointer for its argument
unfoldable pub answer_command : Env → Tables → Web → Program → Run (Option Answer)
unfolding redirected
answer_command env memory w p = elim (credentials memory w.req) [
  | none ↦ returns (some (sends (packet w.auth ∷ []) w p))
  | some login ↦
      if (is_access_allowed env.exec login level_power_user p.acc).0
      then elim (find_command (drop 9 w.req.name) false) [
        | none ↦ returns (some (sends (packet w.redirect ∷ []) w p))
        | some c ↦ run env c.func none p >>= (λ r. returns (redirected w r))
      ]
      else returns (some (sends (packet w.auth ∷ []) w p))
]

-- "/index.txt"
unfoldable pub answer_text : Web → Program → Answer
answer_text w p =
    let text = create_response_packet (with_body (get_filename_no_type (get p.current)) w.text) in
    sends (packet text ∷ []) (record w { text = text }) p

-- "/index.xml": the page is made anew when another song plays.
unfoldable pub answer_xml : Env → Web → Program → Run Answer
answer_xml env w p =
    let song = get p.current in
    if text_eq w.o_xsongname song.name
    then returns (sends (packet w.xml ∷ []) w p)
    else sizes env.outside p >>= (λ r.
      let page = xml_page env.outside.disk song (lists p) (lists r.0) r.1 in
      let xml = create_response_packet (with_body page w.xml) in
      returns (sends (packet xml ∷ []) (record w { xml = xml; o_xsongname = song.name }) r.0))

-- Everything else
unfoldable pub answer_html : Env → Web → Program → Run Answer
answer_html env w p =
    let song = get p.current in
    if not (is_empty (Config.get (codes "HTTP_REDIRECT") p.config))
    then returns (sends (packet w.redirect ∷ []) w p)
    else if text_eq w.o_hsongname song.name
    then returns (sends (w.hbuf ∷ []) w p)
    else sizes env.outside p >>= (λ r.
      let page = html_page song p.cache (lists r.0) r.1 in
      returns (sends (page ∷ []) (record w { hbuf = page; o_hsongname = song.name }) r.0))

abbrev answered : Answer → Run (Option Answer)
answered a = returns (some a)

-- A request that was parsed
unfoldable pub answer : Env → Tables → Web → Program → Run (Option Answer)
answer env memory w p =
    if not (text_eq w.req.command (codes "GET"))
    then answered (sends [] w p)
    else if text_eq (take 9 w.req.name) (codes "/cgi-bin/")
    then answer_command env memory w p
    else if text_eq w.req.name (codes "/index.txt")
    then answered (answer_text w p)
    else if text_eq w.req.name (codes "/index.xml")
    then answer_xml env w p >>= answered
    else answer_html env w p >>= answered

-- What comes in: nothing within a second, an error of `recv`, or text, which ends at a zero.
pub data Received : Type 0 where
  nothing failed : Received
  got : Text → Received

unfoldable pub c_string : Text → Text
c_string [] = []
c_string (c ∷ s) = if c == 0 then [] else c ∷ c_string s

-- One connection
unfoldable pub connection : Env → Tables → Received → Web → Program → Run (Option Answer)
connection env memory nothing w p = answered (sends [] w p)
connection env memory failed w p = undefined
connection env memory (got rbuf) w p =
    let parsed = parse env.exec (c_string rbuf) false w.req in
    if p.http_locked
    then answered (sends [] w p)
    else parsed >>= (λ r.
      let w' = record w { req = r.0 } in
      if r.1 then answer env memory w' p else answered (sends [] w' p))
