-- ===== src/Server/Auth.antt =====
-- `CheckAuthorization` of netdj2/engine/Server.cpp.
use netdj.Prelude.{
  ℕ, Bool, true, false, ◌||◌, not, some, [], Text, codes, text_eq, is_empty, take, drop, ◌==◌,
  if◌then◌else◌,
}
use netdj.Access.{Checker, has_access}
use netdj.Base64.{Tables, base64_decode}
use netdj.Qt.{QtText}

-- `aAuthString.isEmpty() || !aAuthString.startsWith("Basic ")`
unfoldable pub is_refused : Text → Bool
is_refused auth = is_empty auth || not (text_eq (take 6 auth) (codes "Basic "))

-- the user's name, which is set whenever the text was decoded, and the answer
unfoldable pub check_authorization : QtText → Tables → Checker → ℕ → Text → Text × Bool
unfolding is_refused
check_authorization qt memory checker level auth_string =
    let auth = base64_decode memory (drop 6 auth_string) in
    let user = qt.section b':' 0 (some 0) auth in
    let pass = qt.section b':' 1 (some 1) auth in
    if level == 0
    then ([], true)
    else if is_refused auth_string
    then ([], false)
    else (user, has_access user pass level checker)
