-- ===== src/Engine/Reach.antt =====
-- The whole of the second version as a machine whose steps come in any order: requests, connections,
-- songs that the player's thread takes and its signals, the event of the log service, signals of the system and messages of
-- Qt. What makes it quit and skip is specified by the causes alone.
use netdj.Prelude.{
  ℕ, ◌+◌, ◌≡◌, Bool, true, false, ◌||◌, Option, some, List, [], ◌∷◌, Text, codes, text_eq,
  if◌then◌else◌,
}
use netdj.Access.{Checker}
use netdj.Base64.{Tables}
use netdj.Collections.{World, next_song}
use netdj.Engine.{Engine, player_signal, log_event, request, QtMsgType}
use netdj.Engine.Events.{connect, disconnect, sig_handler, qt_message}
use netdj.Engine.Orders.{quits, skips}
use netdj.Player.{PlayerSignal}
use netdj.Qt.{QtText}
use netdj.Server.{Request, Signal, shortcut}
use netdj.Server.Requests.{read_input}
use netdj.Server.Rights.{may_order}
use netdj.SongInfo.{SongInfo}
use netdj.Xml.{Dom}

-- What can make the program quit or skip: the lines of a request, and a signal of the system.
pub data Cause : Type 0 where
  asked : List Text → Cause
  signalled : ℕ → Cause

module _ {X : Type 0} (dom : Dom X) (tags : Text → SongInfo) (name : Option Text) (qt : QtText)
    (memory : Tables) (parse : Text → Request) (url_path : Text → Text) (level_of : X → ℕ) where
  -- Where the program gets to, with the causes on the way; every request may find another world.
  pub data Reach (e : Engine X) : List Cause → Engine X → Type 0 where
    here : Reach e [] e
    asks :
        {l : List Cause} {u : Engine X}
        → Reach e l u
        → (w : World) (time : Text) (socket : ℕ) (lines : List Text)
        → Reach e
            (asked lines ∷ l)
            (request dom tags name qt memory w parse url_path time socket lines u)
    connects :
        {l : List Cause} {u : Engine X}
        → Reach e l u
        → (time : Text) (socket : ℕ) → Reach e l (connect dom tags name time socket u)
    disconnects :
        {l : List Cause} {u : Engine X}
        → Reach e l u
        → (time : Text) (socket : ℕ) → Reach e l (disconnect dom tags name time socket u)
    plays :
        {l : List Cause} {u v : Engine X}
        → Reach e l u
        → (time : Text) (s : PlayerSignal) → player_signal dom tags name time s u ≡ some v
        → Reach e l v
    -- The player's thread takes its next song from the collections, which it may update.
    takes :
        {l : List Cause} {u : Engine X}
        → Reach e l u
        → (w : World) (rand : ℕ)
        → Reach e l
            (record u { server = record u.server { cols = (next_song w rand u.server.cols).0 } })
    wakes :
        {l : List Cause} {u : Engine X}
        → Reach e l u
        → Reach e l (log_event dom tags name level_of u)
    interrupts :
        {l : List Cause} {u : Engine X}
        → Reach e l u
        → (in_owner : Bool) (time : Text) (signal : ℕ)
        → Reach e (signalled signal ∷ l) (sig_handler dom tags name qt in_owner time signal u)
    tells :
        {l : List Cause} {u v : Engine X}
        → Reach e l u
        → (in_owner : Bool) (time : Text) (t : QtMsgType) (msg : Text)
        → qt_message dom tags name in_owner time t msg u ≡ some v
        → Reach e l v

  -- What the lines of a request order, by the users that the server knows.
  abbrev pub orders_of : Checker → List Text → List Signal
  orders_of checker lines =
      let header = parse (read_input lines []).0 in
      if text_eq header.method (codes "GET")
      then may_order qt memory (shortcut (url_path header.path)) header.authorization checker
      else []

  unfoldable pub quits_by : Checker → List Cause → Bool
  quits_by checker [] = false
  quits_by checker (asked lines ∷ l) = quits_by checker l || quits (orders_of checker lines)
  quits_by checker (signalled n ∷ l) = true

  unfoldable pub skips_by : Checker → List Cause → ℕ
  skips_by checker [] = 0
  skips_by checker (asked lines ∷ l) = skips_by checker l + skips (orders_of checker lines)
  skips_by checker (signalled n ∷ l) = skips_by checker l
