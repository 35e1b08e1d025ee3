-- ===== src/Legacy/Daemon.antt =====
-- How the first version becomes a daemon and listens: the fork of main(), the name of the state file
-- and the start and the end of `http_thread` (netdj/src/main.cc). What fork() and the calls on sockets
-- return are arguments.
use mathlib.Core.Bool.{true≢false}
use netdj.Prelude.{
  ℕ, ◌%◌, ◌^◌, ◌≡◌, ◌↔◌, Bool, true, false, Option, none, some, List, [], ◌∷◌, ◌++◌, Text, codes,
  if◌then◌else◌, Option-cases, Bool-cases, inl, inr, sym, ap, ◌∙◌,
}
use netdj.Prelude.Int.{ℤ, pos, negsuc, to_u32}
use netdj.Legacy.Config.{Build, get_integer}
use netdj.Legacy.Directory.{Run, returns, undefined}
use netdj.Legacy.Main.{start_up}
use netdj.Legacy.Program.{Program, Env}
use netdj.Legacy.Commands.{Thread}
use netdj.Legacy.State.{StateFile}
use netdj.Legacy.Text.{with_slash}

-- the path that loadstate() puts together; the last character of an empty text is not there
unfoldable pub state_file_name : Build → Text → Option Text → Run Text
state_file_name build name none = returns (build.conf_dirname ++ name)
state_file_name build name (some []) = undefined
state_file_name build name (some (c ∷ home)) =
    returns (with_slash (c ∷ home) ++ (build.conf_dirname ++ name))

pub data Fork : Type 0 where
  failed parent child : Fork

-- main() exits or returns with a code, or is the daemon.
pub data Ended : Type 0 where
  exits : ℤ → Ended
  daemon : Run (Option (Program × List Thread)) → Ended

-- main(argc, argv)
unfoldable pub main : Fork → Env → StateFile → Program → Ended
main failed env state p = exits (negsuc 0)
main child env state p = daemon (start_up env state p)
main parent env state p = exits (pos 0)

-- The calls on sockets; `set_reuse` is called before the socket is tested.
pub data Call : Type 0 where
  socket : Call
  set_reuse : Option ℕ → Call
  bind : ℕ → ℕ → Call
  listen : ℕ → ℕ → Call
  close : ℕ → Call

-- What they return: a socket, `none` for -1, and whether the others succeed.
pub record Sockets : Type 0 where
  pub new_socket : Option ℕ
  pub binds : ℕ → ℕ → Bool
  pub listens : ℕ → ℕ → Bool

-- htons of an int
abbrev htons : ℤ → ℕ
htons z = to_u32 z % 2 ^ 16

-- http_cleanup, which runs when the thread exits
unfoldable pub http_cleanup : Option ℕ → List Call
http_cleanup none = []
http_cleanup (some sock) = close sock ∷ []

-- behind the socket: the calls, and whether the thread goes on to accept connections
set_up_socket : Sockets → ℕ → Option ℕ → List Call × Bool
set_up_socket s port none = ([], false)
set_up_socket s port (some sock) =
    if s.binds sock port
    then (bind sock port ∷ listen sock 5 ∷ [], s.listens sock 5)
    else (bind sock port ∷ [], false)

-- The start of http_thread: its calls up to the accepting of connections or the end of the thread, and
-- the socket on which it accepts them
unfoldable pub http_thread : Sockets → Program → List Call × Option ℕ
unfolding set_up_socket http_cleanup
http_thread s p =
    let sock = s.new_socket in
    let (calls, ready) = set_up_socket s (htons (get_integer (codes "HTTP_PORT") p.config)) sock in
    let started : List Call = socket ∷ set_reuse sock ∷ calls in
    if ready then (started, sock) else (started ++ http_cleanup sock, none)

-- A test on the socket that is another name for one on which it is known.
on_other : (f : ℕ → Bool) (n sock : ℕ) (b : Bool) → some n ≡ some sock → f n ≡ b → f sock ≡ b
on_other f n sock b e h = let same : n ≡ sock = cc in ap f (sym same) ∙ h

-- The thread accepts connections on a socket exactly if that is the one it was given and both bind and
-- listen succeed on it.
http_thread-accepts :
    (s : Sockets) (p : Program) (sock : ℕ)
    → ((http_thread s p).1 ≡ some sock) ↔ (
        (s.new_socket ≡ some sock)
        × (s.binds sock (htons (get_integer (codes "HTTP_PORT") p.config)) ≡ true)
        × (s.listens sock 5 ≡ true))
unfolding http_thread set_up_socket
http_thread-accepts s p sock =
    let port = htons (get_integer (codes "HTTP_PORT") p.config) in
    elim (Option-cases s.new_socket) [
      | inl e ↦ rw (http_thread, e) (λ h. cc, λ h. cc)
      | inr (n, e) ↦ elim (Bool-cases (s.binds n port)) [
        | inr b ↦
            rw (http_thread, e, b)
              (
                λ h. cc,
                λ h.
                    absurd
                      (true≢false (sym h.1 ∙ on_other (λ k. s.binds k port) n sock false h.0 b)),
              )
        | inl b ↦ elim (Bool-cases (s.listens n 5)) [
          | inr l ↦
              rw (http_thread, e, b, l)
                (
                  λ h. cc,
                  λ h.
                      absurd
                        (true≢false (sym h.2 ∙ on_other (λ k. s.listens k 5) n sock false h.0 l)),
                )
          | inl l ↦
              rw (http_thread, e, b, l)
                (
                  λ h. (
                    h,
                    on_other (λ k. s.binds k port) n sock true h b,
                    on_other (λ k. s.listens k 5) n sock true h l,
                  ),
                  λ h. h.0,
                )
        ]
      ]
    ]
