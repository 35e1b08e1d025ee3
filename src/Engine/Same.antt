-- ===== src/Engine/Same.antt =====
-- The steps of the second version that neither make it quit or skip nor change what its server knows of
-- the users.
use netdj.Prelude.{
  ℕ, ◌≡◌, refl, ap, subst, ◌∙◌, Bool, true, false, Option, none, some, List, [], ◌∷◌, get_elem?,
  Text,
}
use mathlib.Core.Option.{none-ne-some}
use netdj.Engine.{
  Engine, delivered, logged, server_signal, server_signals, set_playing, log_playing, player_signal,
  log_event, QtMsgType, debug_msg, warning_msg, fatal_msg,
}
use netdj.Engine.Events.{qt_message}
use netdj.Engine.Orders.{delivered-flags, logged-flags}
use netdj.Log.{
  Entry, emit, event, log_song_playing, log_quit, log_skip, log_client_new, log_client_close,
  log_player_start, log_player_stop, log_message,
}
use netdj.Player.{PlayerSignal, sig_start, sig_stop, sig_song_playing}
use netdj.Player as Player
use netdj.Server.{
  Signal, sig_quit, sig_skip, sig_client_new, sig_client_close, sig_message, SongPointer, wild,
  null, song_element,
}
use netdj.Server.Requests.{song_playing, set_song}
use netdj.Song.{Song}
use netdj.SongInfo.{SongInfo}
use netdj.Songlist.{Songlist}
use netdj.Xml.{Dom}

some_injective : {A : Type 0} {a b : A} → some a ≡ some b → a ≡ b
some_injective h = cc

module _ {X : Type 0} (dom : Dom X) (tags : Text → SongInfo) (name : Option Text) where
  -- What a step leaves: the users, whether the program quits and how often the player skips.
  pub record Same (e e' : Engine X) : Type 0 where
    pub checker : e'.server.checker ≡ e.server.checker
    pub quitting : e'.quitting ≡ e.quitting
    pub skipping : e'.skips ≡ e.skips

  server-delivered :
      (out : List (X × ℕ)) (e : Engine X) → (delivered dom tags name out e).server ≡ e.server
  unfolding delivered
  server-delivered [] e = refl
  server-delivered ((x, l) ∷ out) e = server-delivered out _

  pub logged-Same :
      (b : Bool) (time : Text) (entry : Entry X) (e : Engine X)
      → Same e (logged dom tags name b time entry e)
  unfolding logged
  logged-Same b time entry e =
      let r = emit dom b time entry e.log in
      let flags = logged-flags dom tags name b time entry e in
      record {
        checker = ap (λ s. s.checker) (server-delivered r.1 (record e { log = r.0 }));
        quitting = flags.0;
        skipping = flags.1;
      }

  pub log_event-Same :
      (level_of : X → ℕ) (e : Engine X) → Same e (log_event dom tags name level_of e)
  unfolding log_event
  log_event-Same level_of e =
      let r = event dom level_of true e.log in
      let u : Engine X = record e { log = r.0.0 } in
      let flags = delivered-flags dom tags name r.0.1 u in
      record {
        checker = ap (λ s. s.checker) (server-delivered r.0.1 u);
        quitting = flags.0;
        skipping = flags.1;
      }

  Same-trans : {e u v : Engine X} → Same e u → Same u v → Same e v
  Same-trans a b = record {
    checker = b.checker ∙ a.checker;
    quitting = b.quitting ∙ a.quitting;
    skipping = b.skipping ∙ a.skipping;
  }

  Same-some : {e u v : Engine X} → Same e u → some u ≡ some v → Same e v
  Same-some {e} s h = subst (λ w. Same e w) (some_injective h) s

  set_song-Same :
      (p : SongPointer X) (song : Song) (col : Songlist) (e v : Engine X)
      → (elim (set_song dom tags p song col e.server) [
        | none ↦ none
        | some s ↦ some (record e { server = s })
      ])
        ≡ some v
      → Same e v
  unfolding set_song
  set_song-Same wild song col e v h = absurd (none-ne-some v h)
  set_song-Same null song col e v h =
      Same-some (record { checker = refl; quitting = refl; skipping = refl }) h
  set_song-Same (song_element x) song col e v h =
      Same-some (record { checker = refl; quitting = refl; skipping = refl }) h

  set_playing-Same :
      (time : Text) (song : Song) (o : Option Songlist) (e v : Engine X)
      → set_playing dom tags name song o (log_playing dom tags name time song o e) ≡ some v
      → Same e v
  unfolding set_playing log_playing song_playing
  set_playing-Same time song none e v h = absurd (none-ne-some v h)
  set_playing-Same time song (some col) e v h =
      let entry = log_song_playing dom tags name song col in
      let u = logged dom tags name false time entry e in
      Same-trans (logged-Same false time entry e) (set_song-Same u.server.song song col u v h)

  pub player_signal-Same :
      (time : Text) (s : PlayerSignal) (e v : Engine X)
      → player_signal dom tags name time s e ≡ some v
      → Same e v
  unfolding player_signal
  player_signal-Same time sig_start e v h =
      Same-some (logged-Same false time (log_player_start dom name) e) h
  player_signal-Same time sig_stop e v h =
      Same-some (logged-Same false time (log_player_stop dom name) e) h
  player_signal-Same time (Player.sig_message msg level class) e v h =
      Same-some (logged-Same false time (log_message dom name msg level class) e) h
  player_signal-Same time (sig_song_playing song i) e v h =
      set_playing-Same time song (get_elem? e.server.cols i) e v h

  pub qt_message-Same :
      (b : Bool) (time : Text) (t : QtMsgType) (msg : Text) (e v : Engine X)
      → qt_message dom tags name b time t msg e ≡ some v
      → Same e v
  unfolding qt_message
  qt_message-Same b time debug_msg msg e v h = Same-some (logged-Same b time _ e) h
  qt_message-Same b time warning_msg msg e v h = Same-some (logged-Same b time _ e) h
  qt_message-Same b time fatal_msg msg e v h = absurd (none-ne-some v h)

  checker-server_signal :
      (time : Text) (s : Signal) (e : Engine X)
      → (server_signal dom tags name time s e).server.checker ≡ e.server.checker
  unfolding server_signal
  checker-server_signal time (sig_quit user) e =
      (logged-Same true time (log_quit dom name user) e).checker
  checker-server_signal time (sig_skip user) e =
      (logged-Same true time (log_skip dom name user) e).checker
  checker-server_signal time sig_client_new e =
      (logged-Same true time (log_client_new dom name) e).checker
  checker-server_signal time sig_client_close e =
      (logged-Same true time (log_client_close dom name) e).checker
  checker-server_signal time (sig_message msg level class) e =
      (logged-Same true time (log_message dom name msg level class) e).checker

  pub checker-server_signals :
      (time : Text) (signals : List Signal) (e : Engine X)
      → (server_signals dom tags name time signals e).server.checker ≡ e.server.checker
  unfolding server_signals server_signal
  checker-server_signals time [] e = refl
  checker-server_signals time (s ∷ rest) e =
      checker-server_signals time rest (server_signal dom tags name time s e)
      ∙ checker-server_signal time s e
