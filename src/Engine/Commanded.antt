-- ===== src/Engine/Commanded.antt =====
-- Whatever the second version meets, it quits and skips exactly as the causes on the way command.
use netdj.Prelude.{
  ℕ, ◌+◌, ◌≡◌, refl, sym, ap, ◌∙◌, Bool, false, ◌||◌, Option, List, [], ◌∷◌, Text, arith,
}
use netdj.Base64.{Tables}
use netdj.Collections.{World}
use netdj.Engine.{Engine, server_signals, request}
use netdj.Engine.Same.{
  Same, logged-Same, log_event-Same, player_signal-Same, qt_message-Same, checker-server_signals,
}
use netdj.Engine.Reach.{
  Cause, asked, signalled, Reach, here, asks, connects, disconnects, plays, takes, wakes,
  interrupts, tells, orders_of, quits_by, skips_by,
}
use netdj.Engine.Events.{connect, disconnect, sig_handler}
use netdj.Engine.Orders.{
  quits, skips, or_assoc, or_false, or_true, ordered, server_signals-Obeys, request-Obeys,
}
use netdj.Qt.{QtText}
use netdj.Server.{Request, Server, Signal, sig_client_new, sig_client_close}
use netdj.Server.Kept.{checker-read_client}
use netdj.Server.Requests.{read_client, new_client, client_closed}
use netdj.SongInfo.{SongInfo}
use netdj.Xml.{Dom}

module _ {X : Type 0} (dom : Dom X) (tags : Text → SongInfo) (name : Option Text) (qt : QtText)
    (memory : Tables) (parse : Text → Request) (url_path : Text → Text) (level_of : X → ℕ) where
  -- What a state has become by causes that make it quit and skip as specified.
  pub record Commanded (e : Engine X) (l : List Cause) (e' : Engine X) : Type 0 where
    pub checker : e'.server.checker ≡ e.server.checker
    pub quitting :
        e'.quitting
        ≡ e.quitting || quits_by dom tags name qt memory parse url_path level_of e.server.checker l
    pub skipping :
        e'.skips
        ≡ e.skips + skips_by dom tags name qt memory parse url_path level_of e.server.checker l

  Commanded-Same :
      {e u v : Engine X} {l : List Cause}
      → Commanded e l u
      → Same dom tags name u v
      → Commanded e l v
  Commanded-Same c s = record {
    checker = s.checker ∙ c.checker;
    quitting = s.quitting ∙ c.quitting;
    skipping = s.skipping ∙ c.skipping;
  }

  -- A step that makes signals of the server, from a state with the same users.
  Commanded-server_signals :
      {e u : Engine X} {l : List Cause} (time : Text) (signals : List Signal) (s : Server X)
      → s.checker ≡ u.server.checker
      → Commanded e l u
      → quits signals ≡ false
      → skips signals ≡ 0
      → Commanded e l (server_signals dom tags name time signals (record u { server = s }))
  Commanded-server_signals {u} time signals s h c q k =
      let u' : Engine X = record u { server = s } in
      let done = server_signals-Obeys dom tags name time signals u' in
      Commanded-Same c (record {
        checker = checker-server_signals dom tags name time signals u' ∙ h;
        quitting = done.quitting ∙ ap (λ b. u.quitting || b) q ∙ or_false u.quitting;
        skipping = let r = done.skipping in omega arith;
      })

  Commanded-asks :
      {e u : Engine X} {l : List Cause}
      → Commanded e l u
      → (w : World) (time : Text) (socket : ℕ) (lines : List Text)
      → Commanded e
          (asked lines ∷ l)
          (request dom tags name qt memory w parse url_path time socket lines u)
  unfolding quits_by skips_by request
  Commanded-asks {e} {u} {l} c w time socket lines =
      let served = read_client dom tags qt memory w parse url_path socket lines u.server in
      let u' : Engine X = record u { server = served.reply.server } in
      let obeys = request-Obeys dom tags name qt memory w parse url_path time socket lines u in
      let same : ordered dom tags name qt memory w parse url_path lines u.server
          ≡ orders_of dom tags name qt memory parse url_path level_of e.server.checker lines =
        ap (λ k. orders_of dom tags name qt memory parse url_path level_of k lines) c.checker in
      record {
        checker =
            checker-server_signals dom tags name time served.reply.signals u'
            ∙ checker-read_client dom tags qt memory w parse url_path socket lines u.server
            ∙ c.checker;
        quitting =
            obeys.quitting
            ∙ ap (λ r. u.quitting || quits r) same
            ∙ ap
                (λ b.
                  b
                  || quits (
                      orders_of dom tags name qt memory parse url_path level_of e.server.checker
                        lines))
                c.quitting
            ∙ or_assoc e.quitting
                (quits_by dom tags name qt memory parse url_path level_of e.server.checker l)
                (quits (
                  orders_of dom tags name qt memory parse url_path level_of e.server.checker
                    lines));
        skipping =
            let a = obeys.skipping in let b = ap skips same in let d = c.skipping in omega arith;
      }

  Commanded-interrupts :
      {e u : Engine X} {l : List Cause}
      → Commanded e l u
      → (b : Bool) (time : Text) (signal : ℕ)
      → Commanded e (signalled signal ∷ l) (sig_handler dom tags name qt b time signal u)
  unfolding quits_by skips_by sig_handler
  Commanded-interrupts {e} {u} {l} c b time signal =
      let s = logged-Same dom tags name b time _ u in
      record {
        checker = s.checker ∙ c.checker;
        quitting = sym (or_true e.quitting);
        skipping = s.skipping ∙ c.skipping;
      }

  -- Whatever requests, connections, signals of the player, events, signals of the system and messages of
  -- Qt come, and in whatever order, the program has been told to quit exactly if it was at first, a
  -- signal of the system came or one of the requests was an authorized `/shutdown`, and the player to
  -- skip once more for every authorized `/skip`; the users are those that the server knew at first.
  pub Reach-Commanded :
      {e e' : Engine X} {l : List Cause}
      → Reach dom tags name qt memory parse url_path level_of e l e'
      → Commanded e l e'
  unfolding quits_by skips_by connect disconnect new_client client_closed
  Reach-Commanded {e} here = record {
    checker = refl;
    quitting = sym (or_false e.quitting);
    skipping = omega arith;
  }
  Reach-Commanded (asks r w time socket lines) =
      Commanded-asks (Reach-Commanded r) w time socket lines
  Reach-Commanded (connects r time socket) =
      Commanded-server_signals time (sig_client_new ∷ []) _ refl (Reach-Commanded r) refl refl
  Reach-Commanded (disconnects r time socket) =
      let c =
        Commanded-server_signals time (sig_client_close ∷ []) _ refl (Reach-Commanded r) refl
          refl in
      record { checker = c.checker; quitting = c.quitting; skipping = c.skipping }
  Reach-Commanded (plays {l} {u} {v} r time s h) =
      Commanded-Same (Reach-Commanded r) (player_signal-Same dom tags name time s u v h)
  Reach-Commanded (takes {l} {u} r w rand) =
      Commanded-Same (Reach-Commanded r)
        (record { checker = refl; quitting = refl; skipping = refl })
  Reach-Commanded (wakes {l} {u} r) =
      Commanded-Same (Reach-Commanded r) (log_event-Same dom tags name level_of u)
  Reach-Commanded (interrupts r b time signal) =
      Commanded-interrupts (Reach-Commanded r) b time signal
  Reach-Commanded (tells {l} {u} {v} r b time t msg h) =
      Commanded-Same (Reach-Commanded r) (qt_message-Same dom tags name b time t msg u v h)
