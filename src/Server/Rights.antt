-- ===== src/Server/Rights.antt =====
-- What a request may do: which requests stop the server or skip a song, and what the others change.
use netdj.Prelude.{
  ℕ, ◌≡◌, refl, subst, inl, inr, Bool, false, not, ◌&&◌, Option, none, some, List, [], ◌∷◌, Text,
  codes, is_empty, text_eq, text_eq_iff, drop, if◌then◌else◌, arith, Bool-cases,
}
use netdj.Access.{Checker, has_access}
use netdj.Base64.{Tables, base64_decode}
use netdj.Collections.{World}
use netdj.Outcome.{Outcome, returns, throws, faults, spins}
use netdj.Qt.{QtText}
use netdj.SongInfo.{SongInfo}
use netdj.Xml.{Dom}
use netdj.Server.{
  Signal, sig_quit, sig_skip, SongPointer, null, wild, song_element, Server, Command, commands,
  find_command, shortcut, last_command, CmdType, help, current, requests, log, skip, shutdown,
}
use netdj.Server.Auth.{is_refused, check_authorization}
use netdj.Server.Commands.{
  requests_reply, cmd_requests, cmd_current, cmd_log, cmd_skip, cmd_shutdown, run_command, checked,
  dispatch, handle_command,
}

-- The signals that stop the server or skip a song; Player and the event loop act on these.
unfoldable pub orders : List Signal → List Signal
orders [] = []
orders (sig_quit user ∷ rest) = sig_quit user ∷ orders rest
orders (sig_skip user ∷ rest) = sig_skip user ∷ orders rest
orders (other ∷ rest) = orders rest

-- What holds of a row under its name, and of what else is found under the other texts, holds of the
-- command found.
at_name :
    (P : Text → Command → Type 0) (t n : Text) (c d : Command)
    → P n c
    → (text_eq n t ≡ false → P t d)
    → P t (if text_eq n t then c else d)
at_name P t n c d p q = elim (Bool-cases (text_eq n t)) [
  | inl e ↦ rw e (subst (λ x. P x c) ((text_eq_iff n t).0 e) p)
  | inr e ↦ rw e (q e)
]

abbrev row : CmdType → Text → ℕ → Text → Command
row t n l d = record { cmd_type = t; name = some n; auth_level = l; description = d }

-- The rows of the table, each under its name, and the last row under every other text.
found :
    (P : Text → Command → Type 0)
    → P (codes "/help") (row help (codes "/help") 0 (codes "This page"))
    → P
        (codes "/current.xml")
        (row current (codes "/current.xml") 0 (codes "XML: The currently playing song"))
    → P
        (codes "/requests.xml")
        (row requests (codes "/requests.xml") 0 (codes "XML: The request list"))
    → P (codes "/log") (row log (codes "/log") 0 (codes "Get log messages (continuous)"))
    → P (codes "/skip") (row skip (codes "/skip") 200 (codes "Skip the currently playing song"))
    → P (codes "/shutdown") (row shutdown (codes "/shutdown") 500 (codes "Shutdown NetDJ"))
    → ((t : Text)
        → text_eq (codes "/skip") t ≡ false
        → text_eq (codes "/shutdown") t ≡ false
        → P t last_command)
    → (t : Text) → P t (find_command commands t)
unfolding find_command commands
found P h c r l s q n t = at_name P t (codes "/help") _ _ h (λ _.
    at_name P t (codes "/current.xml") _ _ c (λ _. at_name P t (codes "/requests.xml") _ _ r (λ _.
      at_name P t (codes "/log") _ _ l (λ _.
        at_name P t (codes "/skip") _ _ s
          (λ e. at_name P t (codes "/shutdown") _ _ q (λ f. n t e f))))))

module _ (qt : QtText) (memory : Tables) where
  -- The name and the password that a Basic authorization carries.
  abbrev pub user_of : Text → Text
  user_of auth = qt.section b':' 0 (some 0) (base64_decode memory (drop 6 auth))

  abbrev pub password_of : Text → Text
  password_of auth = qt.section b':' 1 (some 1) (base64_decode memory (drop 6 auth))

  -- Basic, and of a user who has the level
  abbrev pub is_allowed : ℕ → Text → Checker → Bool
  is_allowed level auth checker =
      not (is_refused auth) && has_access (user_of auth) (password_of auth) level checker

  -- What a request may order.
  abbrev pub may_order : Text → Text → Checker → List Signal
  may_order cmdstr auth checker =
      if text_eq (codes "/shutdown") cmdstr && is_allowed 500 auth checker
      then sig_quit (user_of auth) ∷ []
      else if text_eq (codes "/skip") cmdstr && is_allowed 200 auth checker
      then sig_skip (user_of auth) ∷ []
      else []

module _ {X : Type 0} (dom : Dom X) (tags : Text → SongInfo) (qt : QtText) (memory : Tables)
    (w : World) where
  orders-cmd_current :
      (s : Server X) (p : SongPointer X)
      → orders (cmd_current dom tags qt memory w s p).signals ≡ []
  unfolding orders cmd_current
  orders-cmd_current s null = refl
  orders-cmd_current s wild = refl
  orders-cmd_current s (song_element x) = refl

  orders-requests_reply :
      (s : Server X) (o : Option (Outcome X))
      → orders (requests_reply dom tags qt memory w s o).signals ≡ []
  unfolding orders requests_reply
  orders-requests_reply s none = refl
  orders-requests_reply s (some (returns x)) = refl
  orders-requests_reply s (some (throws e)) = refl
  orders-requests_reply s (some faults) = refl
  orders-requests_reply s (some spins) = refl

  abbrev Orders : ℕ → Text → Server X → Text → Command → Type 0
  Orders socket auth s t c =
      orders (dispatch dom tags qt memory w c.cmd_type c t socket auth s).signals
      ≡ may_order qt memory t auth s.checker

  skip-Orders :
      (socket : ℕ) (auth : Text) (s : Server X)
      → Orders socket auth s
          (codes "/skip")
          (row skip (codes "/skip") 200 (codes "Skip the currently playing song"))
  unfolding orders dispatch checked run_command cmd_skip check_authorization text_eq
  skip-Orders socket auth s = elim (Bool-cases (is_refused auth)) [
    | inl e ↦ rw e
    | inr e ↦
        elim (Bool-cases
          (has_access (user_of qt memory auth) (password_of qt memory auth) 200 s.checker)) [
            | inl k ↦ rw (e, k)
            | inr k ↦ elim (Bool-cases (is_empty (user_of qt memory auth))) [
              | inl n ↦ rw (e, k, n)
              | inr n ↦ rw (e, k, n)
            ]
          ]
  ]

  shutdown-Orders :
      (socket : ℕ) (auth : Text) (s : Server X)
      → Orders socket auth s
          (codes "/shutdown")
          (row shutdown (codes "/shutdown") 500 (codes "Shutdown NetDJ"))
  unfolding orders dispatch checked run_command cmd_shutdown check_authorization text_eq
  shutdown-Orders socket auth s = elim (Bool-cases (is_refused auth)) [
    | inl e ↦ rw e
    | inr e ↦
        elim (Bool-cases
          (has_access (user_of qt memory auth) (password_of qt memory auth) 500 s.checker)) [
            | inl k ↦ rw (e, k)
            | inr k ↦ elim (Bool-cases (is_empty (user_of qt memory auth))) [
              | inl n ↦ rw (e, k, n)
              | inr n ↦ rw (e, k, n)
            ]
          ]
  ]

  -- A request makes the server emit a quit or a skip signal exactly if its path is `/shutdown` or
  -- `/skip` and its authorization is Basic and decodes to a user who has access with the password at
  -- level 500 or 200. The signal carries that user's name.
  pub orders-handle_command :
      (path : Text) (socket : ℕ) (auth : Text) (s : Server X)
      → orders (handle_command dom tags qt memory w path socket auth s).signals
        ≡ may_order qt memory (shortcut path) auth s.checker
  unfolding handle_command orders dispatch checked run_command check_authorization cmd_requests
      cmd_log text_eq
  orders-handle_command path socket auth s =
      found (Orders socket auth s) refl (orders-cmd_current s s.song) (orders-requests_reply _ _)
        (ground arith) (skip-Orders socket auth s) (shutdown-Orders socket auth s)
        (λ t e f. rw (e, f)) (shortcut path)
