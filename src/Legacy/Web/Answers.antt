-- ===== src/Legacy/Web/Answers.antt =====
-- What a connection may do.
use netdj.Prelude.{
  ℕ, zero, suc, ◌+◌, ◌-◌, ◌≤◌, ◌≡◌, ◌≢◌, ◌⊎◌, inl, inr, refl, ap, Bool, true, false, some, List, [],
  ◌∷◌, ◌++◌, map, Text, take, drop, All, length, length-append, Bool-cases, Option-cases, arith,
  if◌then◌else◌,
}
use netdj.Prelude.{leb}
use netdj.Base64.{Tables}
use netdj.Legacy.File.{File}
use netdj.Legacy.Directory.{Directory, returns, get_entries}
use netdj.Legacy.Access.{is_access_allowed}
use netdj.Legacy.Program.{Program, Env}
use netdj.Legacy.Commands.{Command, find_command}
use netdj.Legacy.Commands.Web.{Untouched, run-find_command}
use netdj.Legacy.Web.{
  Web, Answer, sends, packet, credentials, redirected, answer_command, level_power_user,
}
use netdj.Legacy.Web.Pages.{legal, xml_page, xbuf, picked}

-- Why a command is run.
pub record Allowed (env : Env) (memory : Tables) (w : Web) (p : Program) : Type 0 where
  pub login : Text
  pub command : Command
  pub sent_login : credentials memory w.req ≡ some login
  pub may : (is_access_allowed env.exec login level_power_user p.acc).0 ≡ true
  pub called : find_command (drop 9 w.req.name) false ≡ some command

untouched : (p : Program) → Untouched p p
untouched p = record {
  same_request = refl;
  same_cache = refl;
  same_share = refl;
  same_config = refl;
  same_users = refl;
  same_lock = refl;
  same_song = refl;
}

-- A request for a command is answered, and with one packet. It changes nothing but the two flags of
-- the player, and nothing at all unless the credentials that came with it are those of a user of level
-- 100 or more and the name is that of a command for users.
pub answer_command-Allowed :
    (env : Env) (memory : Tables) (w : Web) (p : Program)
    → (a : Answer) × (answer_command env memory w p ≡ returns (some a))
      × (length a.sent ≡ 1)
      × Untouched p a.program
      × ((a.program ≡ p) ⊎ Allowed env memory w p)
unfolding answer_command redirected
answer_command-Allowed env memory w p = elim (Option-cases (credentials memory w.req)) [
  | inl e ↦
      (sends (packet w.auth ∷ []) w p, rw (answer_command, e) refl, refl, untouched p, inl refl)
  | inr (login, e) ↦ elim (Bool-cases (is_access_allowed env.exec login level_power_user p.acc).0) [
    | inr n ↦ (
      sends (packet w.auth ∷ []) w p,
      rw (answer_command, e, n) refl,
      refl,
      untouched p,
      inl refl,
    )
    | inl y ↦ elim (Option-cases (find_command (drop 9 w.req.name) false)) [
      | inl k ↦ (
        sends (packet w.redirect ∷ []) w p,
        rw (answer_command, e, y, k) refl,
        refl,
        untouched p,
        inl refl,
      )
      | inr (c, k) ↦
          let ((r, ran, same, no_links), named) = run-find_command env p (drop 9 w.req.name) c k in
          (
            record {
              web = w;
              program = r.program;
              sent = packet w.redirect ∷ [];
              threads = r.threads;
            },
            rw (answer_command, e, y, k, ran) refl,
            refl,
            same,
            inr (record { login = login; command = c; sent_login = e; may = y; called = k }),
          )
    ]
  ]
]

-- LF, CR, or one of 32 to 127, but no `&` and no backquote.
abbrev pub Legal : ℕ → Type 0
Legal c = ((c ≡ 10) ⊎ ((c ≡ 13) ⊎ (32 ≤ c))) × (c ≤ 127) × (c ≢ b'&') × (c ≢ b'`')

legal-Legal : (c : ℕ) → Legal (legal c)
unfolding legal
legal-Legal c = (ground arith, ground arith, ground arith, ground arith)

map-All {ℓ κ} :
    {A : Type ℓ} (P : A → Type κ) (f : A → A)
    → ((x : A) → P (f x))
    → (xs : List A) → All P (map f xs)
map-All P f h [] = tt
map-All P f h (x ∷ xs) = (h x, map-All P f h xs)

-- The bytes of the XML page are LF, CR and 32 to 127, where 127 is DEL, and none of them is `&` or a
-- backquote, whatever the names and tags of the songs hold.
pub xml_page-Legal :
    (env : Env) (f : File) (before dirs : List Directory) (ns : List ℕ)
    → All Legal (xml_page env.outside.disk f before dirs ns)
unfolding xml_page
xml_page-Legal env f before dirs ns =
    map-All Legal legal legal-Legal (xbuf env.outside.disk f before dirs ns)

length-take {ℓ} : {A : Type ℓ} (n : ℕ) (xs : List A) → length (take n xs) ≤ n
length-take zero xs = omega arith
length-take (suc n) [] = omega arith
length-take (suc n) (x ∷ xs) = let h = length-take n xs in omega arith

at_most {ℓ} :
    {A : Type ℓ} (n : ℕ) (xs : List A) (b : Bool)
    → length xs ≤ n
    → length (if b then xs else []) ≤ n
at_most n xs true h = h
at_most n xs false h = omega arith

length-map {ℓ κ} :
    {A : Type ℓ} {B : Type κ} (f : A → B) (xs : List A) → length (map f xs) ≡ length xs
length-map f [] = refl
length-map f (x ∷ xs) = ap suc (length-map f xs)

within {ℓ} :
    {A : Type ℓ} (got : ℕ) (b : Bool) (here later : List A)
    → got + length here ≤ 10
    → got + length here + length later ≤ 10
    → got + length (here ++ (if b then [] else later)) ≤ 10
within got true here later h k = let sum = length-append here [] in omega arith
within got false here later h k = let sum = length-append here later in omega arith

length-get_entries : (n : ℕ) (d : Directory) → length (get_entries n d) ≤ n
unfolding get_entries
length-get_entries n d = at_most _ _ d.playlist (length-take n d.files)

length-picked : (got : ℕ) (ds : List Directory) → got ≤ 10 → got + length (picked got ds) ≤ 10
unfolding picked
length-picked got [] h = omega arith
length-picked got (d ∷ ds) h =
    let songs : List File = get_entries (10 - got) d in
    let few = length-get_entries (10 - got) d in
    let more = length-picked (got + length songs) ds (omega arith) in
    let here : List (Text × File) = map (λ f. (d.shname, f)) songs in
    let same = length-map {B = Text × File} (λ f. (d.shname, f)) songs in
    within got (leb 10 (got + length songs)) here (picked (got + length songs) ds) (omega arith)
      (omega arith)

-- However many lists there are and however long they are, the XML page shows at most 10 of their songs.
pub length-picked_le : (ds : List Directory) → length (picked 0 ds) ≤ 10
length-picked_le ds = let h = length-picked 0 ds (omega arith) in omega arith
