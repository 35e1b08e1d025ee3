-- ===== src/Legacy/Config.antt =====
-- `Configuration` of netdj/src/Configuration.cc. What the build configures is an argument, as are
-- the files and the regular expressions. Lines are read into 255 characters.
pub mod Reading
use netdj.Prelude.{
  ℕ, zero, suc, Bool, true, false, ◌||◌, Option, none, some, List, [], ◌∷◌, ◌++◌, Text, codes,
  text_eq, lookup, ◌==◌, if◌then◌else◌,
}
use netdj.Prelude.Int.{ℤ, pos, negsuc}
use netdj.Legacy.Text.{put, with_slash, atoi, decimal}
use netdj.Legacy.Directory.{Run, returns, exits, out_of_range, undefined}
use netdj.Legacy.Http.{Exec}
use netdj.Legacy.Stream.{Input, Line, opened, getline}

-- config.h
pub record Build : Type 0 where
  pub conf_dirname : Text
  pub conf_filename : Text
  pub conf_userfilename : Text
  pub netdj_etcdir : Text

-- conflist
abbrev pub Values : Type 0
Values = List (Text × Text)

abbrev pub line_size : ℕ
line_size = 255

abbrev pub config_reg : Text
config_reg = codes "([^ ]+) *= *([^ ]+)"

-- CONF
unfoldable pub conf : Values
conf =
    (codes "HTTP_PORT", codes "7676")
    ∷ (codes "CACHE_DIR", codes "/usr/share/mp3/cache")
    ∷ (codes "SHARE_DIR", codes "/usr/share/mp3/share")
    ∷ (codes "REQUEST_DIR", codes "/usr/share/mp3/request")
    ∷ (codes "WEB_LOCKED", codes "false")
    ∷ (codes "HTTP_START", codes "false")
    ∷ (codes "HTTP_REDIRECT", [])
    ∷ (codes "PLAYER_START", codes "true")
    ∷ (codes "PLAYER_LOG", codes "false")
    ∷ (codes "DELETE_PLAYED", codes "false")
    ∷ (codes "STREAM_IP", codes "127.0.0.1")
    ∷ (codes "STREAM_PORT", codes "8000")
    ∷ (codes "STREAM_MOUNT", codes "netdj")
    ∷ (codes "STREAM_PASSWD", [])
    ∷ (codes "DAEMON_MODE", codes "false")
    ∷ (codes "DAEMON_CHANGEUSER", codes "false")
    ∷ (codes "DAEMON_UID", [])
    ∷ (codes "DAEMON_GID", [])
    ∷ []

unfoldable pub with_defaults : Values → Values → Values
with_defaults [] m = m
with_defaults ((k, v) ∷ rest) m = with_defaults rest (put k v m)

abbrev pub is_comment : Text → Bool
is_comment [] = false
is_comment (c ∷ s) = c == b'#'

put_pair : List Text → Values → Values
put_pair (k ∷ v ∷ more) m = put k v m
put_pair other m = m

-- the body of the loop over the lines, behind `getline`
unfoldable pub use_line : Exec → Text → Values → Values
unfolding put_pair
use_line exec line m =
    if is_comment line
    then m
    else elim (exec config_reg line) [ none ↦ m | some (end, splitline) ↦ put_pair splitline m ]

-- while (!conf.eof()) { ... }
unfoldable pub read_lines : Exec → ℕ → Input → Values → Option Values
read_lines exec zero i m = none
read_lines exec (suc fuel) i m =
    let line = getline line_size i in
    let more = read_lines exec fuel line.input (use_line exec line.text m) in
    if i.eof then some m else more

-- dotpath; `dotpath[dotpath.size() - 1]` of an empty $HOME lies outside.
dot_path : Build → Option Text → Run Text
dot_path build none = returns (with_slash build.conf_dirname)
dot_path build (some []) = undefined
dot_path build (some (c ∷ s)) = returns (with_slash (with_slash (c ∷ s) ++ build.conf_dirname))

-- The file in the home directory, else the global one.
open_conf : (Text → Option Text) → Text → Text → Option (Text × Text)
open_conf files first second = elim (files first) [
  | some s ↦ some (first, s)
  | none ↦ elim (files second) [ some s ↦ some (second, s) | none ↦ none ]
]

-- ReadFile(): `none` where the fuel does not reach.
unfoldable pub read_file :
    Build → Exec → (Text → Option Text) → Option Text → ℕ → Values → Run (Option Values)
unfolding dot_path open_conf
read_file build exec files home fuel m = elim (dot_path build home) [
  | exits n ↦ exits n
  | out_of_range ↦ out_of_range
  | undefined ↦ undefined
  | returns path ↦
      elim (open_conf files (path ++ build.conf_filename)
        (build.netdj_etcdir ++ (b'/' ∷ build.conf_filename))) [
          | none ↦ exits 100
          | some (fullname, s) ↦ elim (read_lines exec fuel (opened s) (with_defaults conf m)) [
            | none ↦ returns none
            | some m' ↦
                returns (some (put (codes "$$CONFFILE") fullname (put (codes "$$CONFDIR") path m')))
          ]
        ]
]

-- Get(str) and GetString(str), GetInteger(str) and GetBool(str)
unfoldable pub get : Text → Values → Text
get str m = elim (lookup str m) [ none ↦ [] | some v ↦ v ]

unfoldable pub get_integer : Text → Values → ℤ
unfolding get
get_integer str m = atoi (get str m)

abbrev is_one : ℤ → Bool
is_one (pos n) = n == 1
is_one (negsuc n) = false

unfoldable pub get_bool : Text → Values → Bool
unfolding get_integer
get_bool str m = is_one (get_integer str m) || text_eq (get str m) (codes "true")

-- SetString(str, val), SetBool(str, val) and SetInteger(str, val)
unfoldable pub set_string : Text → Text → Values → Values
set_string str val m = put str val m

unfoldable pub set_bool : Text → Bool → Values → Values
set_bool str val m = put str (if val then codes "true" else codes "false") m

unfoldable pub set_integer : Text → ℤ → Values → Values
set_integer str (pos n) m = put str (decimal n) m
set_integer str (negsuc n) m = put str (b'-' ∷ decimal (suc n)) m
