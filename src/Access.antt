-- ===== src/Access.antt =====
-- `SimpleAccessChecker` of netdj2/engine/AccessChecker.cpp. The lines of the user file are an
-- argument, `none` where it cannot be opened.
pub mod Entries
use netdj.Prelude.{
  ℕ, ◌+◌, Bool, true, false, not, ◌&&◌, Option, none, some, List, [], ◌∷◌, ◌++◌, Text, text_eq,
  lookup, insert, is_empty, leb, ◌==◌, if◌then◌else◌,
}
use netdj.Prelude.Int.{to_u32}
use netdj.Qt.{QtText}

-- userinfo_t
pub record UserInfo : Type 0 where
  pub password : Text
  pub level : ℕ

-- `mUsers`, and what went to `cerr`: the number that the message shows, and the line
pub record Checker : Type 0 where
  pub users : List (Text × UserInfo)
  pub errors : List (ℕ × Text)

abbrev pub new_checker : Checker
new_checker = record { users = []; errors = [] }

-- `line.isEmpty() || line[0] == '#'`
unfoldable pub is_comment : Text → Bool
is_comment [] = true
is_comment (c ∷ s) = c == b'#'

module _ (qt : QtText) where
  -- name, password and level of a line; `none` where one of them is empty
  unfoldable pub parse_line : Text → Option (Text × UserInfo)
  parse_line line =
      let name = qt.strip (qt.section b':' 0 (some 0) line) in
      let password = qt.strip (qt.section b':' 1 (some 1) line) in
      let level = qt.strip (qt.section b':' 2 none line) in
      if not (is_empty name) && not (is_empty password) && not (is_empty level)
      then some (name, record { password = password; level = to_u32 (qt.to_int level) })
      else none

  -- a line that is no comment
  store : Option (Text × UserInfo) → ℕ → Text → Checker → Checker
  store none i line c = record c { errors = c.errors ++ (i, line) ∷ [] }
  store (some (name, info)) i line c = record c { users = insert name info c.users }

  -- The loop: `continue` skips the `++i` too.
  unfoldable pub read_users : List Text → ℕ → Checker → Checker
  unfolding is_comment store
  read_users [] i c = c
  read_users (line ∷ rest) i c =
      let skipped = read_users rest i c in
      let stored = read_users rest (i + 1) (store (parse_line line) i line c) in
      if is_comment line then skipped else stored

  -- Init()
  unfoldable pub init : Option (List Text) → Checker → Checker × Bool
  init none c = (c, false)
  init (some lines) c = (read_users lines 1 c, true)

-- HasAccess(aUsername, aPassword, aLevel)
grants : Option UserInfo → Text → ℕ → Bool
grants none password level = false
grants (some u) password level = text_eq u.password password && leb level u.level

unfoldable pub has_access : Text → Text → ℕ → Checker → Bool
unfolding grants
has_access username password level c = grants (lookup username c.users) password level
