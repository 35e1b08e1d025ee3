-- ===== src/Engine/Whole.antt =====
-- The second version from its start on: the user file decides who can shut it down.
use mathlib.Core.Bool.{false≢true}
use netdj.Prelude.{
  ℕ, ◌≤◌, ◌≡◌, refl, sym, ap, ◌∙◌, ◌↔◌, ◌⊎◌, inl, inr, Bool, true, false, not, ◌&&◌, ◌||◌, Option,
  some, List, [], ◌∷◌, Text, codes, text_eq, if◌then◌else◌,
}
use netdj.Prelude.Int.{ℤ}
use netdj.Access.{Checker, UserInfo, new_checker, init, has_access}
use netdj.Access.Entries.{last_entry, has_access-init_iff}
use netdj.Base64.{Tables}
use netdj.Collections.{World}
use netdj.Config.{Config, get_integer}
use netdj.Engine.{Engine, main_collections}
use netdj.Engine.Commanded.{Reach-Commanded}
use netdj.Engine.Orders.{quits}
use netdj.Engine.Reach.{Cause, asked, signalled, Reach, orders_of, quits_by}
use netdj.Engine.Start.{set_up, with_cols, with_server}
use netdj.Log.{LogService}
use netdj.Outcome.{Outcome, returns, throws, faults, spins}
use netdj.Qt.{QtText}
use netdj.Server.{Request, Server, SongPointer, Signal, sig_quit, sig_skip, shortcut}
use netdj.Server.Auth.{is_refused}
use netdj.Server.Requests.{read_input}
use netdj.Server.Rights.{user_of, password_of}
use netdj.Server.Start.{user_list_name, construct, with_checker, with_socket}
use netdj.SongInfo.{SongInfo}
use netdj.Songlist.{Songlist}
use netdj.Xml.{Dom}

returned : {A : Type 0} → A → Outcome A → A
returned d (returns a) = a
returned d other = d

returns_injective : {A : Type 0} {a b : A} → returns a ≡ returns b → a ≡ b
unfolding returned
returns_injective {a} h = ap (returned a) h

quits_if :
    (y s : Bool) (user : Text)
    → quits (if y then sig_quit user ∷ [] else if s then sig_skip user ∷ [] else []) ≡ y
quits_if true s user = refl
quits_if false true user = refl
quits_if false false user = refl

quits_get : (g y : Bool) (l : List Signal) → quits l ≡ y → quits (if g then l else []) ≡ g && y
quits_get true y l h = h
quits_get false y l h = refl

all_four :
    (g b r a : Bool)
    → (g && (b && (not r && a)) ≡ true) ↔ ((g ≡ true) × (b ≡ true) × (r ≡ false) × (a ≡ true))
all_four true true false true = (λ h. (refl, refl, refl, refl), λ h. refl)
all_four false b r a = (λ h. absurd (false≢true h), λ h. absurd (false≢true h.0))
all_four true false r a = (λ h. absurd (false≢true h), λ h. absurd (false≢true h.1))
all_four true true true a = (λ h. absurd (false≢true h), λ h. absurd (false≢true (sym h.2)))
all_four true true false false = (λ h. absurd (false≢true h), λ h. absurd (false≢true h.3))

or_iff : (a b : Bool) {A B : Type 0} → (a ≡ true) ↔ A → (b ≡ true) ↔ B → (a || b ≡ true) ↔ (A ⊎ B)
or_iff true b (f, g) (h, k) = (λ e. inl (f refl), λ e. refl)
or_iff false b (f, g) (h, k) =
    (λ e. inr (h e), λ e. elim e [ inl x ↦ absurd (false≢true (g x)) | inr y ↦ k y ])

module _ {X : Type 0} (dom : Dom X) (tags : Text → SongInfo) (name : Option Text) (qt : QtText)
    (memory : Tables) (parse : Text → Request) (url_path : Text → Text) (level_of : X → ℕ)
    (held : SongPointer X) where
  -- The lines of a request shut the program down by the lines of the user file: a GET of `/shutdown`
  -- with the password of the last line about a user whose level is at least 500.
  abbrev pub Shuts : List Text → List Text → Type 0
  Shuts users lines =
      let header = parse (read_input lines []).0 in
      let auth = header.authorization in
      (text_eq header.method (codes "GET") ≡ true)
      × (text_eq (codes "/shutdown") (shortcut (url_path header.path)) ≡ true)
      × (is_refused auth ≡ false)
      × ((u : UserInfo) × (last_entry qt (user_of qt memory auth) users ≡ some u)
          × (u.password ≡ password_of qt memory auth)
          × (500 ≤ u.level))

  pub Ends : List Text → List Cause → Type 0
  Ends users [] = ⊥
  Ends users (asked lines ∷ l) = Ends users l ⊎ Shuts users lines
  Ends users (signalled n ∷ l) = Unit

  abbrev checker_of : List Text → Checker
  checker_of users = (init qt (some users) new_checker).0

  quits-orders_of :
      (users lines : List Text)
      → (quits (orders_of dom tags name qt memory parse url_path level_of (checker_of users) lines)
          ≡ true)
        ↔ Shuts users lines
  quits-orders_of users lines =
      let header = parse (read_input lines []).0 in
      let auth = header.authorization in
      let user = user_of qt memory auth in
      let (f, g) = has_access-init_iff qt user (password_of qt memory auth) 500 users in
      let is_get = text_eq header.method (codes "GET") in
      let asked_for = text_eq (codes "/shutdown") (shortcut (url_path header.path)) in
      let access = has_access user (password_of qt memory auth) 500 (checker_of users) in
      let whole = all_four is_get asked_for (is_refused auth) access in
      let same =
        quits_get is_get (asked_for && (not (is_refused auth) && access)) _ (quits_if _ _ user) in
      (
        λ h. let (a, b, c, d) = whole.0 (sym same ∙ h) in (a, b, c, f d),
        λ h. let (a, b, c, d) = h in same ∙ whole.1 (a, b, c, g d),
      )

  quits_by-Ends :
      (users : List Text) (l : List Cause)
      → (quits_by dom tags name qt memory parse url_path level_of (checker_of users) l ≡ true)
        ↔ Ends users l
  unfolding quits_by Ends
  quits_by-Ends users [] = (λ h. absurd (false≢true h), λ h. absurd h)
  quits_by-Ends users (asked lines ∷ l) =
      or_iff (quits_by dom tags name qt memory parse url_path level_of (checker_of users) l)
        (quits (orders_of dom tags name qt memory parse url_path level_of (checker_of users) lines))
        (quits_by-Ends users l) (quits-orders_of users lines)
  quits_by-Ends users (signalled n ∷ l) = (λ h. tt, λ h. refl)

  with_socket-checker :
      (b : Bool) (c : Config) (cols : List Songlist) (k : Checker) (s : Server X)
      → with_socket qt held b c cols k ≡ returns s
      → s.checker ≡ k
  unfolding with_socket
  with_socket-checker true c cols k s h = sym (ap (λ t. t.checker) (returns_injective h))
  with_socket-checker false c cols k s h = cc

  -- What the constructor of the server leaves.
  construct-checker :
      (user_file : Text → Option (List Text)) (listens : ℤ → Bool) (c : Config)
      (cols : List Songlist) (port : ℤ) (users : List Text) (s : Server X)
      → user_file (user_list_name c) ≡ some users
      → construct qt held user_file listens c cols port ≡ returns s
      → s.checker ≡ checker_of users
  unfolding construct with_checker init
  construct-checker user_file listens c cols port users s u h =
      let given : with_checker qt held (listens port) c cols (init qt (some users) new_checker)
          ≡ returns s =
        ap (λ o. with_checker qt held (listens port) c cols (init qt o new_checker)) (sym u) ∙ h in
      with_socket-checker (listens port) c cols (checker_of users) s given

  with_server-same :
      (logged : LogService X × Text) (o : Outcome (Server X)) (e : Engine X)
      → with_server dom name held logged o ≡ returns e
      → (o ≡ returns e.server) × (e.quitting ≡ false)
  unfolding with_server
  with_server-same (log, file) (returns s) e h =
      let same = returns_injective h in
      (ap (λ u. returns u.server) same, sym (ap (λ u. u.quitting) same))
  with_server-same logged (throws x) e h = cc
  with_server-same logged faults e h = cc
  with_server-same logged spins e h = cc

  set_up-checker :
      (user_file : Text → Option (List Text)) (listens : ℤ → Bool) (time : Text) (c : Config)
      (o : Outcome (List Songlist)) (users : List Text) (e : Engine X)
      → user_file (user_list_name c) ≡ some users
      → with_cols dom name held qt user_file listens time c o ≡ returns e
      → (e.server.checker ≡ checker_of users) × (e.quitting ≡ false)
  unfolding with_cols
  set_up-checker user_file listens time c (returns cols) users e u h =
      let (made, fresh) = with_server-same _ _ e h in
      (
        construct-checker user_file listens c cols (get_integer qt (codes "SERVER_PORT") c) users
            e.server u made,
        fresh,
      )
  set_up-checker user_file listens time c (throws x) users e u h = cc
  set_up-checker user_file listens time c faults users e u h = cc
  set_up-checker user_file listens time c spins users e u h = cc

  -- From its start on, whatever comes in whatever order, and whatever the memory of the pointer to the
  -- song held, the program has been told to quit exactly if a
  -- signal of the system came, or a request: a GET of `/shutdown` with Basic authorization of a user with
  -- the password and a level of at least 500 that the last line about the user has in the user file.
  pub set_up-Ends :
      (w : World) (user_file : Text → Option (List Text)) (listens : ℤ → Bool) (time : Text)
      (c : Config) (users : List Text) (e e' : Engine X) (l : List Cause)
      → user_file (user_list_name c) ≡ some users
      → set_up dom name held qt w user_file listens time c ≡ returns e
      → Reach dom tags name qt memory parse url_path level_of e l e'
      → (e'.quitting ≡ true) ↔ Ends users l
  unfolding set_up
  set_up-Ends w user_file listens time c users e e' l u h r =
      let (known, fresh) =
        set_up-checker user_file listens time c (main_collections w c) users e u h in
      let told = (Reach-Commanded dom tags name qt memory parse url_path level_of r).quitting in
      let same : e'.quitting
          ≡ quits_by dom tags name qt memory parse url_path level_of (checker_of users) l =
        told
        ∙ ap (λ b. b || quits_by dom tags name qt memory parse url_path level_of e.server.checker l)
            fresh
        ∙ ap (λ k. quits_by dom tags name qt memory parse url_path level_of k l) known in
      let (f, g) = quits_by-Ends users l in (λ k. f (sym same ∙ k), λ k. same ∙ g k)
