-- ===== src/Engine/Orders.antt =====
-- What a request does to the whole of the second version: whether it ends the program and whether it
-- makes the player skip its song.
use netdj.Prelude.{
  ℕ, ◌+◌, ◌≡◌, refl, sym, ap, ◌∙◌, Bool, true, false, ◌||◌, Option, List, [], ◌∷◌, Text, codes,
  text_eq, arith, if◌then◌else◌,
}
use netdj.Base64.{Tables}
use netdj.Collections.{World}
use netdj.Engine.{Engine, delivered, logged, server_signal, server_signals, request}
use netdj.Log.{Entry, emit, log_quit, log_skip, log_client_new, log_client_close, log_message}
use netdj.Qt.{QtText}
use netdj.Server.{
  Request, Server, Reply, Handled, close_con, cmd_invalid, cmd_unauthorized, fails, undefined,
  hangs, Signal, sig_quit, sig_skip, sig_message, sig_client_new, sig_client_close, shortcut,
}
use netdj.Server.Requests.{Served, read_client, serve, read_input, caught}
use netdj.Server.Commands.{handle_command}
use netdj.Server.Rights.{orders, may_order, orders-handle_command}
use netdj.SongInfo.{SongInfo}
use netdj.Xml.{Dom}

-- Whether some signals ask to quit, and how many ask to skip.
abbrev pub quits : List Signal → Bool
quits [] = false
quits (sig_quit user ∷ rest) = true
quits (other ∷ rest) = quits rest

abbrev pub skips : List Signal → ℕ
skips [] = 0
skips (sig_skip user ∷ rest) = 1 + skips rest
skips (other ∷ rest) = skips rest

pub or_false : (b : Bool) → b || false ≡ b
or_false true = refl
or_false false = refl

pub or_true : (b : Bool) → b || true ≡ true
or_true true = refl
or_true false = refl

pub or_assoc : (a b c : Bool) → (a || b) || c ≡ a || (b || c)
or_assoc true b c = refl
or_assoc false b c = refl

quits-cons : (s : Signal) (rest : List Signal) → quits (s ∷ rest) ≡ quits (s ∷ []) || quits rest
quits-cons (sig_quit user) rest = refl
quits-cons (sig_skip user) rest = refl
quits-cons sig_client_new rest = refl
quits-cons sig_client_close rest = refl
quits-cons (sig_message msg level class) rest = refl

skips-cons : (s : Signal) (rest : List Signal) → skips (s ∷ rest) ≡ skips (s ∷ []) + skips rest
skips-cons (sig_quit user) rest = omega arith
skips-cons (sig_skip user) rest = omega arith
skips-cons sig_client_new rest = omega arith
skips-cons sig_client_close rest = omega arith
skips-cons (sig_message msg level class) rest = omega arith

-- Those of its signals that are orders decide.
flags-orders : (l : List Signal) → (quits (orders l) ≡ quits l) × (skips (orders l) ≡ skips l)
unfolding orders
flags-orders [] = (refl, refl)
flags-orders (sig_quit user ∷ rest) = (refl, (flags-orders rest).1)
flags-orders (sig_skip user ∷ rest) = ((flags-orders rest).0, ap (λ n. 1 + n) (flags-orders rest).1)
flags-orders (sig_client_new ∷ rest) = flags-orders rest
flags-orders (sig_client_close ∷ rest) = flags-orders rest
flags-orders (sig_message msg level class ∷ rest) = flags-orders rest

-- The application is told to quit and the player to skip as some signals ask.
pub record Obeys {X : Type 0} (signals : List Signal) (e e' : Engine X) : Type 0 where
  pub quitting : e'.quitting ≡ e.quitting || quits signals
  pub skipping : e'.skips ≡ e.skips + skips signals

module _ {X : Type 0} (dom : Dom X) (tags : Text → SongInfo) (name : Option Text) where
  pub delivered-flags :
      (out : List (X × ℕ)) (e : Engine X)
      → ((delivered dom tags name out e).quitting ≡ e.quitting)
        × ((delivered dom tags name out e).skips ≡ e.skips)
  unfolding delivered
  delivered-flags [] e = (refl, refl)
  delivered-flags ((x, l) ∷ out) e = delivered-flags out _

  pub logged-flags :
      (b : Bool) (time : Text) (entry : Entry X) (e : Engine X)
      → ((logged dom tags name b time entry e).quitting ≡ e.quitting)
        × ((logged dom tags name b time entry e).skips ≡ e.skips)
  unfolding logged
  logged-flags b time entry e =
      let r = emit dom b time entry e.log in delivered-flags r.1 (record e { log = r.0 })

  quiet :
      (s : Signal) (e e' : Engine X)
      → quits (s ∷ []) ≡ false
      → skips (s ∷ []) ≡ 0
      → (e'.quitting ≡ e.quitting) × (e'.skips ≡ e.skips)
      → Obeys (s ∷ []) e e'
  quiet s e e' q k (h, i) = record {
    quitting = h ∙ sym (ap (λ b. e.quitting || b) q ∙ or_false e.quitting);
    skipping = omega arith;
  }

  server_signal-Obeys :
      (time : Text) (s : Signal) (e : Engine X)
      → Obeys (s ∷ []) e (server_signal dom tags name time s e)
  unfolding server_signal
  server_signal-Obeys time (sig_quit user) e = record {
    quitting = sym (or_true e.quitting);
    skipping = let h = (logged-flags true time (log_quit dom name user) e).1 in omega arith;
  }
  server_signal-Obeys time (sig_skip user) e = record {
    quitting = (logged-flags true time (log_skip dom name user) e).0 ∙ sym (or_false e.quitting);
    skipping = let h = (logged-flags true time (log_skip dom name user) e).1 in omega arith;
  }
  server_signal-Obeys time sig_client_new e =
      quiet sig_client_new e _ refl refl (logged-flags true time (log_client_new dom name) e)
  server_signal-Obeys time sig_client_close e =
      quiet sig_client_close e _ refl refl (logged-flags true time (log_client_close dom name) e)
  server_signal-Obeys time (sig_message msg level class) e =
      quiet (sig_message msg level class) e _ refl refl
        (logged-flags true time (log_message dom name msg level class) e)

  chained :
      (s : Signal) (rest : List Signal) (e e' e'' : Engine X)
      → Obeys (s ∷ []) e e'
      → Obeys rest e' e''
      → Obeys (s ∷ rest) e e''
  chained s rest e e' e'' h k = record {
    quitting =
        k.quitting
        ∙ ap (λ b. b || quits rest) h.quitting
        ∙ or_assoc e.quitting (quits (s ∷ [])) (quits rest)
        ∙ ap (λ b. e.quitting || b) (sym (quits-cons s rest));
    skipping = let c = skips-cons s rest in let a = h.skipping in let b = k.skipping in omega arith;
  }

  pub server_signals-Obeys :
      (time : Text) (signals : List Signal) (e : Engine X)
      → Obeys signals e (server_signals dom tags name time signals e)
  unfolding server_signals
  server_signals-Obeys time [] e = record {
    quitting = sym (or_false e.quitting);
    skipping = omega arith;
  }
  server_signals-Obeys time (s ∷ rest) e =
      let now = server_signal dom tags name time s e in
      chained s rest e now (server_signals dom tags name time rest now)
        (server_signal-Obeys time s e) (server_signals-Obeys time rest now)

  module _ (qt : QtText) (memory : Tables) (w : World) (parse : Text → Request)
      (url_path : Text → Text) where
    -- What the request in some lines may order.
    abbrev pub ordered : List Text → Server X → List Signal
    ordered lines s =
        let header = parse (read_input lines []).0 in
        if text_eq header.method (codes "GET")
        then may_order qt memory (shortcut (url_path header.path)) header.authorization s.checker
        else []

    caught-signals :
        (h : Handled) (r : Reply X)
        → (caught dom tags qt memory w parse url_path h r).reply.signals ≡ r.signals
    unfolding caught
    caught-signals (close_con b) r = refl
    caught-signals cmd_invalid r = refl
    caught-signals cmd_unauthorized r = refl
    caught-signals (fails e) r = refl
    caught-signals undefined r = refl
    caught-signals hangs r = refl

    orders-if :
        (b : Bool) (x y : Served X) (l : List Signal)
        → orders x.reply.signals ≡ l
        → orders y.reply.signals ≡ []
        → orders (if b then x else y).reply.signals ≡ (if b then l else [])
    orders-if true x y l h k = h
    orders-if false x y l h k = k

    orders-read_client :
        (socket : ℕ) (lines : List Text) (s : Server X)
        → orders (read_client dom tags qt memory w parse url_path socket lines s).reply.signals
          ≡ ordered lines s
    unfolding read_client serve orders
    orders-read_client socket lines s =
        let header = parse (read_input lines []).0 in
        let r =
          handle_command dom tags qt memory w (url_path header.path) socket header.authorization
            s in
        orders-if (text_eq header.method (codes "GET"))
          (caught dom tags qt memory w parse url_path r.handled r) _
          (may_order qt memory (shortcut (url_path header.path)) header.authorization s.checker)
          (ap orders (caught-signals r.handled r)
            ∙ orders-handle_command dom tags qt memory w (url_path header.path) socket
                header.authorization s)
          refl

    -- A request that the server reads tells the application to quit, or the player to skip its song,
    -- exactly if it is a GET whose path is `/shutdown` or `/skip` and whose authorization decodes to a
    -- user with access at level 500 or 200; whatever else it does, the log included, does neither.
    pub request-Obeys :
        (time : Text) (socket : ℕ) (lines : List Text) (e : Engine X)
        → Obeys
            (ordered lines e.server)
            e
            (request dom tags name qt memory w parse url_path time socket lines e)
    unfolding request
    request-Obeys time socket lines e =
        let served = read_client dom tags qt memory w parse url_path socket lines e.server in
        let l = served.reply.signals in
        let (q, k) = flags-orders l in
        let same = orders-read_client socket lines e.server in
        let done = server_signals-Obeys time l (record e { server = served.reply.server }) in
        record {
          quitting = done.quitting ∙ ap (λ b. e.quitting || b) (sym q ∙ ap quits same);
          skipping = done.skipping ∙ ap (λ n. e.skips + n) (sym k ∙ ap skips same);
        }
