-- ===== src/Shout.antt =====
-- `Shout` of netdj2/engine/Shout.cpp, the wrapper of libshout, which is not part of the repository: its
-- calls are an interface. An operation gives the connection and, where the library reports an error,
-- the text of the exception.
use netdj.Prelude.{
  ℕ, ◌≡◌, ◌≢◌, arith, Bool, Option, none, some, List, [], ◌∷◌, ◌++◌, Text, codes, ◌==◌,
  if◌then◌else◌, ◌⊎◌, inl, inr, ◌∙◌,
}

-- The calls that the class makes, with what they pass.
pub data Call : Type 0 where
  connect disconnect sync : Call
  send set_metadata : Text → Call
  set_host set_mount set_user set_password set_name set_genre set_description : Text → Call
  set_port set_format set_protocol : ℕ → Call
  set_public : Bool → Call

-- libshout on a handle of type S: the handle of `shout_new`, the handle and the error number after a
-- call (0 is SHOUTERR_SUCCESS), the text of `shout_get_error`, and the metadata object with its entry.
pub record Libshout (S : Type 0) : Type 0 where
  pub new : Option S
  pub call : Call → S → S × ℕ
  pub get_error : S → Text
  pub metadata_new : Bool
  pub metadata_add : Text → Text → ℕ

-- A connection, and the exception that was thrown
abbrev pub Result : Type 0 → Type 0
Result S = S × Option Text

module _ {S : Type 0} (lib : Libshout S) where
  -- ErrorWrapper(aFunc, aErr)
  unfoldable pub error_wrapper : Text → S × ℕ → Result S
  error_wrapper func (s, err) =
      if err == 0
      then (s, none)
      else (s, some (codes "[" ++ (func ++ (codes "] " ++ lib.get_error s))))

  -- the function's name that an operation reports
  pub func_name : Call → Text
  func_name connect = codes "shout_open"
  func_name disconnect = codes "shout_close"
  func_name sync = codes "shout_sync"
  func_name (send block) = codes "shout_send"
  func_name (set_metadata song) = codes "[shout_set_metadata]"
  func_name (set_host host) = codes "shout_set_host"
  func_name (set_mount mount) = codes "shout_set_mount"
  func_name (set_user user) = codes "shout_set_user"
  func_name (set_password pass) = codes "shout_set_password"
  func_name (set_name name) = codes "shout_set_name"
  func_name (set_genre genre) = codes "shout_set_genre"
  func_name (set_description descr) = codes "shout_set_description"
  func_name (set_port port) = codes "shout_set_port"
  func_name (set_format format) = codes "shout_set_format"
  func_name (set_protocol prot) = codes "shout_protocol"
  func_name (set_public visible) = codes "shout_set_public"

  -- SetName and the other operations that wrap one call
  unfoldable pub wrapped : Call → S → Result S
  unfolding error_wrapper func_name
  wrapped c s = error_wrapper (func_name c) (lib.call c s)

  -- Sleep() ignores the result.
  unfoldable pub sleep : S → S
  sleep s = (lib.call sync s).0

  -- SetSongName(aName), with the class Shout_Metadata
  unfoldable pub set_song_name : Text → S → Result S
  unfolding wrapped
  set_song_name name s =
      if lib.metadata_new
      then (if lib.metadata_add (codes "song") name == 0 then wrapped (set_metadata name) s else (
        s,
        some
            (codes "[shout_metadata_add] Could not add metadata 'song' = '" ++ (name ++ codes "'")),
      ))
      else (s, some (codes "[shout_metadata_new] Could not create new metadata_t!"))

  -- Operations one after the other; an exception ends them.
  unfoldable pub in_order : List Call → S → Result S
  in_order [] s = (s, none)
  in_order (c ∷ rest) s =
      let first = wrapped c s in
      let others = in_order rest first.0 in
      elim first.1 [ none ↦ others | some e ↦ (first.0, some e) ]

  -- Init() and Shout(aName, aGenre, aDescr): `inl` is the exception without a connection.
  unfoldable pub construct : Text → Text → Text → Text ⊎ Result S
  construct name genre descr = elim lib.new [
    | none ↦ inl (codes "[shout_new] Could not create shout_t!")
    | some s ↦ inr (in_order (set_name name ∷ set_genre genre ∷ set_description descr ∷ []) s)
  ]

module _ {S : Type 0} (lib : Libshout S) where
  -- The connection after calls that all report success.
  unfoldable pub Succeeds : List Call → S → S → Type 0
  Succeeds [] s end = s ≡ end
  Succeeds (c ∷ rest) s end = ((lib.call c s).1 ≡ 0) × Succeeds rest (lib.call c s).0 end

  in_order-cons :
      (c : Call) (rest : List Call) (s : S)
      → (lib.call c s).1 ≡ 0
      → in_order lib (c ∷ rest) s ≡ in_order lib rest (lib.call c s).0
  unfolding in_order wrapped error_wrapper
  in_order-cons c rest s e = ground arith

  -- The operations of a list are done in its order up to the first that fails, which is reported by
  -- its name with the library's message; the operations after it are not done.
  pub in_order_first_error :
      (before after : List Call) (c : Call) (s end : S)
      → Succeeds before s end
      → (lib.call c end).1 ≢ 0
      → in_order lib (before ++ c ∷ after) s ≡ (
        (lib.call c end).0,
        some (codes "[" ++ (func_name lib c ++ (codes "] " ++ lib.get_error (lib.call c end).0))),
      )
  unfolding in_order wrapped error_wrapper Succeeds
  in_order_first_error [] after c s end h f = ground arith
  in_order_first_error (b ∷ before) after c s end h f =
      in_order-cons b (before ++ c ∷ after) s h.0
      ∙ in_order_first_error before after c (lib.call b s).0 end h.1 f
