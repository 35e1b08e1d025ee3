-- ===== src/Legacy/Access.antt =====
-- `AccessConf` of netdj/src/AccessConf.h and netdj/src/AccessConf.cc. The files and the regular
-- expressions are arguments. Lines are read into 255 characters.
pub mod Users
use netdj.Prelude.{
  ℕ, zero, suc, Bool, true, false, ◌&&◌, Option, none, some, List, [], ◌∷◌, ◌++◌, Text, codes,
  text_eq, lookup, leb, if◌then◌else◌,
}
use netdj.Legacy.Text.{put, digits_value}
use netdj.Legacy.Http.{Exec}
use netdj.Legacy.Stream.{Input, opened, getline}
use netdj.Legacy.Config.{Build, Values, get, is_comment, line_size}

pub record User : Type 0 where
  pub level : ℕ
  pub password : Text

-- users
abbrev pub Users : Type 0
Users = List (Text × User)

abbrev pub user_reg : Text
user_reg = codes "^([^:]+):([[:digit:]]+):(.+)$"

abbrev pub login_reg : Text
login_reg = codes "([^:]+):(.+)"

-- `atoi` of digits, below 2 ^ 31
put_user : List Text → Users → Users
put_user (name ∷ level ∷ password ∷ more) users =
    put name (record { level = digits_value 0 level; password = password }) users
put_user other users = users

-- the body of the loop over the lines
unfoldable pub use_entry : Exec → Text → Users → Users
unfolding put_user
use_entry exec line users = if is_comment line then users else elim (exec user_reg line) [
  | none ↦ users
  | some (end, splitline) ↦ put_user splitline users
]

-- while (conf.getline(line, sizeof(line))) { ... }
unfoldable pub read_entries : Exec → ℕ → Input → Users → Option Users
read_entries exec zero i users = none
read_entries exec (suc fuel) i users =
    let line = getline line_size i in
    let more = read_entries exec fuel line.input (use_entry exec line.text users) in
    if line.input.fail then some users else more

-- The file beside the configuration file, else the global one; where there is none the stream has
-- failed.
open_users : Build → (Text → Option Text) → Values → Input
open_users build files config =
    elim (files (get (codes "$$CONFDIR") config ++ build.conf_userfilename)) [
      | some s ↦ opened s
      | none ↦ elim (files (build.netdj_etcdir ++ (b'/' ∷ build.conf_userfilename))) [
        | some s ↦ opened s
        | none ↦ record { rest = []; eof = false; fail = true }
      ]
    ]

-- ReadFile(), which forgets the users of before: `none` where the fuel does not reach.
unfoldable pub read_file : Build → Exec → (Text → Option Text) → Values → ℕ → Option Users
unfolding open_users
read_file build exec files config fuel = read_entries exec fuel (open_users build files config) []

-- IsAccessAllowed(str, acclevel, userstr): the answer, and what it writes to `userstr`
abbrev pub check_user : Option User → Text → ℕ → Bool
check_user none password acclevel = false
check_user (some u) password acclevel = text_eq u.password password && leb acclevel u.level

check_login : List Text → ℕ → Users → Bool × Option Text
check_login (name ∷ password ∷ more) acclevel users =
    (check_user (lookup name users) password acclevel, some name)
check_login other acclevel users = (false, none)

unfoldable pub is_access_allowed : Exec → Text → ℕ → Users → Bool × Option Text
unfolding check_login
is_access_allowed exec str acclevel users = elim (exec login_reg str) [
  | none ↦ (false, none)
  | some (end, splitline) ↦ check_login splitline acclevel users
]
