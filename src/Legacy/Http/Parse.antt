-- ===== src/Legacy/Http/Parse.antt =====
-- How requests and responses are parsed: `Parse`, `ParseHeaders` and the two `ParseCommand` of
-- netdj/src/HTTP.cc.
use netdj.Prelude.{
  ℕ, zero, suc, ◌+◌, Bool, true, false, none, some, List, [], ◌∷◌, Text, text_eq, length, take,
  drop, ltb, if◌then◌else◌,
}
use netdj.Legacy.Directory.{Run, returns, out_of_range, ◌>>=◌}
use netdj.Legacy.Http.{
  Exec, Http, HttpRequest, HttpResponse, crlf, headerreg, comreg, paramreg, response_comreg,
}
use netdj.Legacy.Text.{digits_value, put, split_first}

-- ParseHeaders(st, pos) on what is left of the text; each match takes some of it. The result is
-- where the headers end.
unfoldable pub put_header : List Text → List (Text × Text) → List (Text × Text)
put_header (k ∷ v ∷ more) m = put k v m
put_header other m = m

unfoldable pub parse_headers : Exec → ℕ → Text → ℕ → List (Text × Text) → List (Text × Text) × ℕ
unfolding put_header
parse_headers exec zero st pos m = (m, pos)
parse_headers exec (suc fuel) st pos m = elim (exec headerreg st) [
  | none ↦ (m, pos)
  | some (end, line) ↦ parse_headers exec fuel (drop end st) (pos + end) (put_header line m)
]

-- The parameters behind the `?` of a URI
unfoldable pub put_param : List Text → List (Text × Text) → List (Text × Text)
put_param [] m = m
put_param (k ∷ with_value ∷ v ∷ more) m = put k v m
put_param (k ∷ more) m = put k [] m

unfoldable pub parse_params : Exec → ℕ → Text → List (Text × Text) → List (Text × Text)
unfolding put_param
parse_params exec zero st m = m
parse_params exec (suc fuel) st m = elim (exec paramreg st) [
  | none ↦ m
  | some (end, pmat) ↦ parse_params exec fuel (drop end st) (put_param pmat m)
]

unfoldable pub parse_uri : Exec → HttpRequest → HttpRequest
parse_uri exec r = elim (split_first b'?' r.uri) [
  | none ↦ record r { name = r.uri; params = [] }
  | some (before, behind) ↦ record r {
    name = before;
    params = parse_params exec (length behind) behind [];
  }
]

set_command : List Text → HttpRequest → HttpRequest
set_command (c ∷ u ∷ v ∷ more) r = record r { command = c; uri = u; version = v }
set_command other r = r

-- HTTPRequest::ParseCommand(st, 0): without a match the URI of the request before is parsed again.
unfoldable pub parse_command : Exec → Text → HttpRequest → HttpRequest × ℕ
unfolding parse_uri set_command
parse_command exec st r = elim (exec comreg st) [
  | none ↦ (parse_uri exec r, 0)
  | some (end, line) ↦ (parse_uri exec (set_command line r), end)
]

-- HTTPResponse::ParseCommand(st, 0), for a status below 2 ^ 31
set_response : List Text → HttpResponse → HttpResponse
set_response (v ∷ st ∷ d ∷ more) r = record r {
  version = v;
  status = digits_value 0 st;
  description = d;
}
set_response other r = r

unfoldable pub parse_response_command : Exec → Text → HttpResponse → HttpResponse × ℕ
unfolding set_response
parse_response_command exec st r = elim (exec response_comreg st) [
  | none ↦ (r, 0)
  | some (end, line) ↦ (set_response line r, end)
]

-- The end of Parse: where the body is to be saved an empty line has to follow. `substr` behind the end
-- of the text throws.
save_body : Bool → Text → ℕ → Http → Run (Http × Bool)
save_body false st pos h = returns (h, true)
save_body true st pos h =
    if ltb (length st) (pos + 1)
    then out_of_range
    else if text_eq (take 2 (drop (pos + 1) st)) crlf
    then returns (record h { body = drop (pos + 3) st }, true)
    else returns (h, false)

-- HTTP::Parse(st, savebody) of a request
unfoldable pub parse : Exec → Text → Bool → HttpRequest → Run (HttpRequest × Bool)
unfolding save_body
parse exec st savebody r =
    let r' = (parse_command exec st r).0 in
    elim (parse_command exec st r).1 [
      | zero ↦ returns (r', false)
      | suc p ↦
          let parsed = parse_headers exec (length st) (drop (suc p) st) (suc p) [] in
          save_body savebody st parsed.1 (record r'.http { headers = parsed.0 })
          >>= (λ saved. returns (record r' { http = saved.0 }, saved.1))
    ]

-- HTTP::Parse(st, savebody) of a response
unfoldable pub parse_response : Exec → Text → Bool → HttpResponse → Run (HttpResponse × Bool)
unfolding save_body
parse_response exec st savebody r =
    let r' = (parse_response_command exec st r).0 in
    elim (parse_response_command exec st r).1 [
      | zero ↦ returns (r', false)
      | suc p ↦
          let parsed = parse_headers exec (length st) (drop (suc p) st) (suc p) [] in
          save_body savebody st parsed.1 (record r'.http { headers = parsed.0 })
          >>= (λ saved. returns (record r' { http = saved.0 }, saved.1))
    ]
