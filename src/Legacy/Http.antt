-- ===== src/Legacy/Http.antt =====
-- `HTTP`, `HTTPRequest` and `HTTPResponse` of netdj/src/HTTP.h and netdj/src/HTTP.cc. A regular
-- expression, given as its text, is matched by an argument: what `MyRegex::Match` returns, `none` for
-- 0 and else where the match ends, with the parts in parentheses. `PKGVER` is an argument.
pub mod Packet
pub mod Parse
use netdj.Prelude.{
  ℕ, zero, suc, ◌+◌, ◌%◌, Bool, true, false, Option, none, some, List, [], ◌∷◌, ◌++◌, Text, codes,
  lookup, is_empty, text_eq, length, take, drop, get_elem?, ltb, if◌then◌else◌,
}
use netdj.Legacy.Text.{decimal, digits_value, put, split_first}

abbrev pub Exec : Type 0
Exec = Text → Text → Option (ℕ × List Text)

abbrev pub crlf : Text
crlf = 13 ∷ 10 ∷ []

-- `headers`, `body` and `packet`
pub record Http : Type 0 where
  pub headers : List (Text × Text)
  pub body : Text
  pub packet : Text

pub record HttpRequest : Type 0 where
  pub http : Http
  pub command : Text
  pub uri : Text
  pub version : Text
  pub name : Text
  pub params : List (Text × Text)

pub record HttpResponse : Type 0 where
  pub http : Http
  pub version : Text
  pub status : ℕ
  pub description : Text

-- SetHeader(hdr, val), GetHeader(st, res), SetBody(str) and ClearBody()
unfoldable pub set_header : Text → Text → Http → Http
set_header hdr val h = record h { headers = put hdr val h.headers }

abbrev pub get_header : Text → Http → Option Text
get_header st h = lookup st h.headers

abbrev pub set_body : Text → Http → Http
set_body str h = record h { body = str }

abbrev pub clear_body : Http → Http
clear_body h = record h { body = [] }

-- HTTP()
unfoldable pub new_http : Text → Http
unfolding set_header
new_http pkgver =
    set_header (codes "Server") pkgver (record { headers = []; body = []; packet = [] })

-- The texts of the regular expressions
abbrev pub headerreg : Text
headerreg = codes "^([^" ++ (13 ∷ codes "]+) *: *([^" ++ (13 ∷ (codes "]+)" ++ crlf)))

abbrev pub comreg : Text
comreg = codes "^([^ ]+) +([^ ]+) +HTTP/([^" ++ (13 ∷ (codes "]+)" ++ crlf))

abbrev pub paramreg : Text
paramreg = codes "([^=&]+)(=([^&]*))?&?"

abbrev pub response_comreg : Text
response_comreg = codes "^HTTP/([^ ]+) +([[:digit:]]+) *(.*)" ++ crlf

-- HTTP::Clear() with ClearCommand() of a request and of a response
unfoldable pub clear : HttpRequest → HttpRequest
clear r = record r { command = []; uri = []; version = []; params = []; http = clear_body r.http }

unfoldable pub clear_response : HttpResponse → HttpResponse
clear_response r = record r { version = []; description = []; status = 0; http = clear_body r.http }

abbrev pub get_uri_param : Text → HttpRequest → Option Text
get_uri_param st r = lookup st r.params

-- CreateCommand
unfoldable pub create_command : HttpRequest → Text
create_command r = r.command ++ (b' ' ∷ (r.uri ++ (codes " HTTP/" ++ (r.version ++ crlf))))

unfoldable pub create_response_command : HttpResponse → Text
create_response_command r =
    codes "HTTP/" ++ (r.version ++ (b' ' ∷ (decimal r.status ++ (b' ' ∷ (r.description ++ crlf)))))

abbrev pub content_length : Text
content_length = codes "Content-Length"

abbrev pub header_line : Text × Text → Text
header_line (k, v) = k ++ (codes ": " ++ (v ++ crlf))

unfoldable pub header_lines : List (Text × Text) → Text
header_lines [] = []
header_lines (h ∷ rest) = header_line h ++ header_lines rest

with_length : Http → List (Text × Text)
with_length h =
    if is_empty h.body then h.headers else put content_length (decimal (length h.body)) h.headers

-- CreatePacket() behind the line that CreateCommand makes
unfoldable pub create_packet : Text → Http → Http
unfolding with_length
create_packet command h = record h {
  headers = with_length h;
  packet = command ++ (header_lines (with_length h) ++ (crlf ++ h.body));
}

unfoldable pub create_response_packet : HttpResponse → HttpResponse
create_response_packet r = record r { http = create_packet (create_response_command r) r.http }

-- HTTPResponse(_status, cont_type) and its setters; SetStatus gives the version a character.
unfoldable pub new_http_response : Text → ℕ → Text → HttpResponse
new_http_response pkgver status cont_type = record {
  http =
      if is_empty cont_type
      then new_http pkgver
      else set_header (codes "Content-Type") cont_type (new_http pkgver);
  version = codes "1.1";
  status = status;
  description = [];
}

abbrev pub set_version : Text → HttpResponse → HttpResponse
set_version st r = record r { version = st }

abbrev pub set_description : Text → HttpResponse → HttpResponse
set_description st r = record r { description = st }

unfoldable pub set_status : ℕ → HttpResponse → HttpResponse
set_status i r = record r { version = i % 256 ∷ [] }
