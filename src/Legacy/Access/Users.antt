-- ===== src/Legacy/Access/Users.antt =====
-- The users that a file gives, and who is let in after it has been read.
use netdj.Prelude.{
  ℕ, zero, suc, ◌+◌, ◌-◌, ◌≤◌, ◌<◌, ◌≡◌, refl, sym, ap, ◌∙◌, true, Option, none, some, List, [],
  ◌∷◌, ◌++◌, Text, text_eq, lookup, length, All, arith, inl, inr, Bool-cases, Option-cases,
  if◌then◌else◌,
}
use netdj.Legacy.Text.{lookup-put, digits_value}
use netdj.Legacy.Http.{Exec}
use netdj.Legacy.File.Paths.{Without}
use netdj.Legacy.Stream.{Input, Line, opened, get_line, getline}
use netdj.Legacy.Stream.Lines.{
  unlines, unlines-cons, Fits, getline-line, getline-last, getline-long,
}
use netdj.Legacy.Config.{line_size, is_comment}
use netdj.Legacy.Access.{
  User, Users, user_reg, login_reg, use_entry, read_entries, put_user, check_user, check_login,
  is_access_allowed,
}

-- The users behind some lines.
unfoldable pub use_entries : Exec → List Text → Users → Users
use_entries exec [] users = users
use_entries exec (l ∷ ls) users = use_entries exec ls (use_entry exec l users)

abbrev step : Exec → ℕ → Line → Users → Option Users
step exec fuel line users =
    if line.input.fail
    then some users
    else read_entries exec fuel line.input (use_entry exec line.text users)

read_entries-step :
    (exec : Exec) (fuel : ℕ) (i : Input) (users : Users)
    → read_entries exec (suc fuel) i users ≡ step exec fuel (getline line_size i) users
unfolding read_entries
read_entries-step exec fuel i users = refl

read_entries-line :
    (exec : Exec) (fuel : ℕ) (l rest : Text) (users : Users)
    → Fits line_size l
    → read_entries exec (suc fuel) (opened (l ++ (10 ∷ rest))) users
      ≡ read_entries exec fuel (opened rest) (use_entry exec l users)
read_entries-line exec fuel l rest users h =
    read_entries-step exec fuel (opened (l ++ (10 ∷ rest))) users
    ∙ ap (λ line. step exec fuel line users) (getline-line line_size l rest h)

-- Lines that fit are used once each and in order, and then what follows them is read.
read_entries-lines :
    (exec : Exec) (n fuel : ℕ) (ls : List Text) (rest : Text) (users : Users)
    → All (Fits line_size) ls
    → n ≡ length ls + fuel
    → read_entries exec n (opened (unlines ls ++ rest)) users
      ≡ read_entries exec fuel (opened rest) (use_entries exec ls users)
unfolding unlines use_entries
read_entries-lines exec n fuel [] rest users h e =
    ap (λ k. read_entries exec k (opened rest) users) (omega arith)
read_entries-lines exec zero fuel (l ∷ ls) rest users h e = absurd (omega arith)
read_entries-lines exec (suc n) fuel (l ∷ ls) rest users (h, hs) e =
    ap (λ s. read_entries exec (suc n) (opened s) users) (unlines-cons l ls rest)
    ∙ read_entries-line exec n l (unlines ls ++ rest) users h
    ∙ read_entries-lines exec n fuel ls rest (use_entry exec l users) hs (omega arith)

step-failed :
    (exec : Exec) (fuel : ℕ) (line : Line) (users : Users)
    → line.input.fail ≡ true
    → step exec fuel line users ≡ some users
step-failed exec fuel line users e = ground (arith, e)

-- A file of lines of which one has 255 characters or more: the loop ends there, and the entries
-- behind it are not read.
pub read_entries-long :
    (exec : Exec) (fuel : ℕ) (ls : List Text) (long rest : Text) (users : Users)
    → All (Fits line_size) ls
    → Without 10 long
    → line_size ≤ length long
    → length ls < fuel
    → read_entries exec fuel (opened (unlines ls ++ (long ++ rest))) users
      ≡ some (use_entries exec ls users)
read_entries-long exec fuel ls long rest users h n b k =
    let failed = getline-long line_size long rest n (omega arith) b in
    let more : ℕ = fuel - length ls - 1 in
    read_entries-lines exec fuel (suc more) ls (long ++ rest) users h (omega arith)
    ∙ read_entries-step exec more (opened (long ++ rest)) (use_entries exec ls users)
    ∙ step-failed exec more (getline line_size (opened (long ++ rest))) (use_entries exec ls users)
        failed.0

-- The lines of a file: those with a newline, and the last one if it has characters.
abbrev pub all_lines : List Text → Text → List Text
all_lines ls [] = ls
all_lines ls (c ∷ last) = ls ++ (c ∷ last) ∷ []

use_entries-append :
    (exec : Exec) (ls ks : List Text) (users : Users)
    → use_entries exec (ls ++ ks) users ≡ use_entries exec ks (use_entries exec ls users)
unfolding use_entries
use_entries-append exec [] ks users = refl
use_entries-append exec (l ∷ ls) ks users = use_entries-append exec ls ks (use_entry exec l users)

use_entries-one :
    (exec : Exec) (l : Text) (users : Users)
    → use_entries exec (l ∷ []) users ≡ use_entry exec l users
unfolding use_entries
use_entries-one exec l users = refl

read_entries-last :
    (exec : Exec) (fuel : ℕ) (ls : List Text) (last : Text) (users : Users)
    → Fits line_size last
    → read_entries exec (suc (suc fuel)) (opened last) (use_entries exec ls users)
      ≡ some (use_entries exec (all_lines ls last) users)
unfolding read_entries getline get_line
read_entries-last exec fuel ls [] users h = refl
read_entries-last exec fuel ls (c ∷ last) users h =
    let now = use_entries exec ls users in
    read_entries-step exec (suc fuel) (opened (c ∷ last)) now
    ∙ ap (λ line. step exec (suc fuel) line now) (getline-last line_size (c ∷ last) h)
    ∙ ap some (
        sym (
          use_entries-append exec ls ((c ∷ last) ∷ []) users ∙ use_entries-one exec (c ∷ last) now))

-- A file of lines that fit: with two steps more than there are lines, the loop ends, having used each
-- line once and in order.
read_entries-use_entries :
    (exec : Exec) (fuel : ℕ) (ls : List Text) (last : Text) (users : Users)
    → All (Fits line_size) ls
    → Fits line_size last
    → length ls + 2 ≤ fuel
    → read_entries exec fuel (opened (unlines ls ++ last)) users
      ≡ some (use_entries exec (all_lines ls last) users)
read_entries-use_entries exec fuel ls last users h k f =
    let more : ℕ = fuel - length ls - 2 in
    read_entries-lines exec fuel (suc (suc more)) ls last users h (omega arith)
    ∙ read_entries-last exec more ls last users k

-- The user of a name that the last of some lines with that name gives.
abbrev pub named : Text → List Text → Option User → Option User
named name (n ∷ level ∷ password ∷ more) before =
    if text_eq n name
    then some (record { level = digits_value 0 level; password = password })
    else before
named name other before = before

abbrev pub user_of : Exec → Text → List Text → Option User → Option User
user_of exec name [] before = before
user_of exec name (l ∷ ls) before =
    let splitline : List Text = elim (exec user_reg l) [ none ↦ [] | some (end, s) ↦ s ] in
    user_of exec name ls (if is_comment l then before else named name splitline before)

lookup-put_user :
    (name : Text) (parts : List Text) (users : Users)
    → lookup name (put_user parts users) ≡ named name parts (lookup name users)
unfolding put_user
lookup-put_user name [] users = refl
lookup-put_user name (n ∷ []) users = refl
lookup-put_user name (n ∷ level ∷ []) users = refl
lookup-put_user name (n ∷ level ∷ password ∷ more) users =
    lookup-put n name (record { level = digits_value 0 level; password = password }) users

lookup-use_entry :
    (exec : Exec) (name l : Text) (users : Users)
    → lookup name (use_entry exec l users) ≡ user_of exec name (l ∷ []) (lookup name users)
unfolding use_entry
lookup-use_entry exec name l users = elim (Bool-cases (is_comment l)) [
  | inl c ↦ rw c refl
  | inr c ↦ elim (Option-cases (exec user_reg l)) [
    | inl e ↦ rw (c, e) refl
    | inr ((end, parts), e) ↦ rw (c, e) (lookup-put_user name parts users)
  ]
]

lookup-use_entries :
    (exec : Exec) (name : Text) (ls : List Text) (users : Users)
    → lookup name (use_entries exec ls users) ≡ user_of exec name ls (lookup name users)
unfolding use_entries
lookup-use_entries exec name [] users = refl
lookup-use_entries exec name (l ∷ ls) users =
    lookup-use_entries exec name ls (use_entry exec l users)
    ∙ ap (λ u. user_of exec name ls u) (lookup-use_entry exec name l users)

-- A user file of lines that fit into the buffer is read, whatever users were known before; then a name
-- and a password get in exactly if the last line with that name gives this password and a level that
-- is high enough.
pub read_entries-is_access_allowed :
    (exec : Exec) (fuel end acclevel : ℕ) (ls : List Text) (last str name password : Text)
    (more : List Text)
    → All (Fits line_size) ls
    → Fits line_size last
    → length ls + 2 ≤ fuel
    → exec login_reg str ≡ some (end, name ∷ password ∷ more)
    → (users : Users) × (read_entries exec fuel (opened (unlines ls ++ last)) [] ≡ some users)
      × (is_access_allowed exec str acclevel users
          ≡ (check_user (user_of exec name (all_lines ls last) none) password acclevel, some name))
unfolding is_access_allowed check_login lookup
read_entries-is_access_allowed exec fuel end acclevel ls last str name password more h k f e = (
  use_entries exec (all_lines ls last) [],
  read_entries-use_entries exec fuel ls last [] h k f,
  rw (is_access_allowed, e)
      (ap (λ u. (check_user u password acclevel, some name))
        (lookup-use_entries exec name (all_lines ls last) [])),
)
