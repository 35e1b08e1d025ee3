-- ===== src/Config.antt =====
-- `Configuration` of netdj2/engine/Configuration.cpp.
pub mod Values
use netdj.Prelude.{
  ℕ, ◌+◌, Bool, true, false, not, ◌&&◌, ◌||◌, Option, none, some, List, [], ◌∷◌, ◌++◌, Text, codes,
  text_eq, lookup, insert, is_empty, ◌==◌, if◌then◌else◌, map,
}
use netdj.Prelude.Int.{ℤ, pos}
use netdj.Qt.{QtText}

-- `mConfig`, and what went to `cerr`
pub record Config : Type 0 where
  pub values : List (Text × Text)
  pub errors : List (ℕ × Text)

abbrev pub new_config : Config
new_config = record { values = []; errors = [] }

abbrev defvalue : Text → Text → Text × Text
defvalue name value = (name, value)

-- gDefValues
unfoldable pub def_values : List (Text × Text)
def_values =
    defvalue (codes "SERVER_PORT") (codes "7676")
    ∷ defvalue (codes "SHARE_DIR") (codes "/usr/share/mp3/share")
    ∷ defvalue (codes "REQUEST_DIR") (codes "/usr/share/mp3/request")
    ∷ defvalue (codes "USER_LIST_FILE") (codes "netdj-users")
    ∷ defvalue (codes "UPDATE_BEFORE_TRANSMIT") (codes "false")
    ∷ defvalue (codes "STREAM_HOST") (codes "127.0.0.1")
    ∷ defvalue (codes "STREAM_PORT") (codes "8000")
    ∷ defvalue (codes "STREAM_MOUNT") (codes "netdj")
    ∷ defvalue (codes "STREAM_USER") (codes "source")
    ∷ defvalue (codes "STREAM_PASSWD") (codes "hackme")
    ∷ defvalue (codes "STREAM_NAME") (codes "NetDJ")
    ∷ defvalue (codes "STREAM_GENRE") (codes "Mixed")
    ∷ defvalue (codes "STREAM_DESCR") (codes "NetDJ Streaming Channel")
    ∷ defvalue (codes "STREAM_PUBLIC") (codes "false")
    ∷ defvalue (codes "DAEMON_MODE") (codes "false")
    ∷ defvalue (codes "DAEMON_CHANGE_USER") (codes "false")
    ∷ defvalue (codes "DAEMON_GROUP") (codes "nobody")
    ∷ defvalue (codes "DAEMON_USER") (codes "nobody")
    ∷ []

-- `mConfig[str]`: a missing key reads as the empty string
unfoldable pub or_empty : Option Text → Text
or_empty none = []
or_empty (some v) = v

-- GetString(str)
unfoldable pub get_string : Text → Config → Text
unfolding or_empty
get_string str c = or_empty (lookup str c.values)

-- SetString(str, val)
unfoldable pub set_string : Text → Text → Config → Config
set_string str val c = record c { values = insert str val c.values }

-- SetBool(str, val)
unfoldable pub set_bool : Text → Bool → Config → Config
set_bool str val c = record c {
  values = insert str (if val then codes "true" else codes "false") c.values;
}

-- the loop that fills in the default values
unfoldable pub fill_defaults : List (Text × Text) → List (Text × Text) → List (Text × Text)
fill_defaults [] values = values
fill_defaults ((name, value) ∷ rest) values = fill_defaults rest (insert name value values)

unfoldable pub is_comment : Text → Bool
is_comment [] = true
is_comment (c ∷ s) = c == b'#'

-- What opening a file gives: its lines and the path of its directory.
pub record ConfFile : Type 0 where
  pub lines : List Text
  pub dir_path : Text

-- the first of the places that can be opened
unfoldable pub first_open : List (Option ConfFile) → Option ConfFile
first_open [] = none
first_open (none ∷ rest) = first_open rest
first_open (some f ∷ rest) = some f

module _ (qt : QtText) where
  -- name and value of a line; `none` where one of them is empty
  unfoldable pub parse_line : Text → Option (Text × Text)
  parse_line line =
      let name = qt.strip (qt.section b'=' 0 (some 0) line) in
      let value = qt.strip (qt.section b'=' 1 none line) in
      if not (is_empty name) && not (is_empty value) then some (name, value) else none

  store : Option (Text × Text) → ℕ → Text → Config → Config
  store none i line c = record c { errors = c.errors ++ (i, line) ∷ [] }
  store (some (name, value)) i line c = record c { values = insert name value c.values }

  unfoldable pub read_lines : List Text → ℕ → Config → Config
  unfolding is_comment store
  read_lines [] i c = c
  read_lines (line ∷ rest) i c =
      let skipped = read_lines rest i c in
      let stored = read_lines rest (i + 1) (store (parse_line line) i line c) in
      if is_comment line then skipped else stored

  read_file : Option ConfFile → Config → Config × Bool
  read_file none c = (c, false)
  read_file (some f) c =
      let c' = read_lines f.lines 1 c in
      (record c' { values = insert (codes "CONFIG_DIR") f.dir_path c'.values }, true)

  -- Init(aFilename), which does not use its argument. The three places are ".", the home directory
  -- and the system's directory.
  unfoldable pub init : List (Option ConfFile) → Config → Config × Bool
  unfolding read_file
  init places c =
      read_file (first_open places) (record c { values = fill_defaults def_values c.values })

  -- GetInteger(str)
  unfoldable pub get_integer : Text → Config → ℤ
  unfolding get_string
  get_integer str c = qt.to_int (get_string str c)

  is_one : ℤ → Bool
  is_one (pos n) = n == 1
  is_one z = false

  -- GetBool(str)
  unfoldable pub get_bool : Text → Config → Bool
  unfolding get_integer is_one get_string
  get_bool str c = is_one (get_integer str c) || text_eq (get_string str c) (codes "true")

  -- SetInteger(str, val)
  unfoldable pub set_integer : Text → ℤ → Config → Config
  set_integer str val c = record c { values = insert str (qt.set_num val) c.values }

dump_line : Text × Text → Text
dump_line (key, value) = key ++ (codes " = " ++ (if is_empty value then codes "<null>" else value))

-- Dump(): the lines that it prints; the argument gives the pairs in the order of QMap.
pub dump : (List (Text × Text) → List (Text × Text)) → Config → List Text
unfolding dump_line
dump in_order c = map dump_line (in_order c.values)
