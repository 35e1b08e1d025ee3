-- ===== src/Access/Entries.antt =====
-- Who has access after the user file was read, stated over the lines of the file.
use netdj.Prelude.{
  ℕ, ◌+◌, ◌≤◌, ◌<◌, ◌^◌, ◌≡◌, refl, ap, ◌∙◌, Bool, true, false, Option, none, some, List, [], ◌∷◌,
  ◌++◌, Text, text_eq, text_eq_iff, lookup, lookup-insert, if◌then◌else◌, arith, Bool-cases, inl,
  inr, ◌↔◌, append_assoc, append-nil,
}
use netdj.Prelude.Int.{negsuc, to_u32}
use netdj.Qt.{QtText}
use netdj.Access.{
  UserInfo, Checker, new_checker, is_comment, parse_line, store, read_users, init, grants,
  has_access,
}

grants_iff :
    (o : Option UserInfo) (password : Text) (level : ℕ)
    → (grants o password level ≡ true)
      ↔ ((u : UserInfo) × (o ≡ some u) × (u.password ≡ password) × (level ≤ u.level))
unfolding grants
grants_iff none password level = (λ h. cc, λ h. cc (h.1))
grants_iff (some v) password level = (
  λ h. (v, refl, ground (arith, text_eq_iff v.password password), ground arith),
  λ h.
      let e : v ≡ h.0 = cc in
      let same : v.password ≡ password = ap (λ (u : UserInfo). u.password) e ∙ h.2 in
      let enough : level ≤ v.level = rw e h.3 in ground (arith, text_eq_iff v.password password),
)

module _ (qt : QtText) where
  -- What a line says of a user: nothing for a comment, a line that does not parse, and other users.
  unfoldable pub entry_for : Text → Text → Option UserInfo
  entry_for user line = if is_comment line then none else elim (parse_line qt line) [
    | none ↦ none
    | some p ↦ if text_eq p.0 user then some p.1 else none
  ]

  -- The last line that says something of the user counts.
  unfoldable pub last_entry : Text → List Text → Option UserInfo
  last_entry user [] = none
  last_entry user (line ∷ rest) = elim (last_entry user rest) [
    | some u ↦ some u
    | none ↦ entry_for user line
  ]

  abbrev or_else : Option UserInfo → Option UserInfo → Option UserInfo
  or_else none o = o
  or_else (some u) o = some u

  lookup-store :
      (user line : Text) (o : Option (Text × UserInfo)) (i : ℕ) (c : Checker)
      → parse_line qt line ≡ o
      → is_comment line ≡ false
      → lookup user (store qt o i line c).users
        ≡ or_else (entry_for user line) (lookup user c.users)
  unfolding store entry_for
  lookup-store user line none i c e k = rw (k, e)
  lookup-store user line (some (name, info)) i c e k =
      rw (k, e) (lookup-insert name user info c.users ∙ split (text_eq name user))
    where
      split :
          (b : Bool)
          → (if b then some info else lookup user c.users)
            ≡ or_else (if b then some info else none) (lookup user c.users)
      split true = refl
      split false = refl

  -- One line more in front: its entry counts where the rest has none.
  front :
      (user line : Text) (later here old : Option UserInfo)
      → entry_for user line ≡ here
      → or_else later (or_else here old)
        ≡ or_else (elim later [ some u ↦ some u | none ↦ entry_for user line ]) old
  front user line none here old e = rw e
  front user line (some u) here old e = refl

  lookup-read_users :
      (user : Text) (lines : List Text) (i : ℕ) (c : Checker)
      → lookup user (read_users qt lines i c).users
        ≡ or_else (last_entry user lines) (lookup user c.users)
  unfolding read_users last_entry
  lookup-read_users user [] i c = refl
  lookup-read_users user (line ∷ rest) i c = elim (Bool-cases (is_comment line)) [
    | inl k ↦
        let silent : entry_for user line ≡ none = unfold entry_for in rw k in
        rw k (
          lookup-read_users user rest i c
          ∙ front user line (last_entry user rest) none (lookup user c.users) silent)
    | inr k ↦
        let stored = store qt (parse_line qt line) i line c in
        rw k (
          lookup-read_users user rest (i + 1) stored
          ∙ rw (lookup-store user line (parse_line qt line) i c refl k) (
              front user line (last_entry user rest) (entry_for user line) (lookup user c.users)
                refl))
  ]

  or_else-none : (o : Option UserInfo) → or_else o none ≡ o
  or_else-none none = refl
  or_else-none (some u) = refl

  -- After the user file was read into a new checker, a user has access at a level exactly if the last
  -- line of the file that is about the user has the password and at least the level.
  pub has_access-init_iff :
      (user password : Text) (level : ℕ) (lines : List Text)
      → (has_access user password level (init qt (some lines) new_checker).0 ≡ true) ↔ (
          (u : UserInfo) × (last_entry user lines ≡ some u)
          × (u.password ≡ password)
          × (level ≤ u.level))
  unfolding init has_access lookup
  has_access-init_iff user password level lines =
      let whole : lookup user (read_users qt lines 1 new_checker).users ≡ last_entry user lines =
        lookup-read_users user lines 1 new_checker ∙ or_else-none (last_entry user lines) in
      rw whole (grants_iff (last_entry user lines) password level)

  -- If the last line about a user has the password and a negative level, not below -(2 ^ 31), the user has
  -- access at every level up to 2 ^ 31.
  pub negative_level_grants :
      (user password : Text) (u : UserInfo) (n level : ℕ) (lines : List Text)
      → last_entry user lines ≡ some u
      → u.password ≡ password
      → u.level ≡ to_u32 (negsuc n)
      → n < 2 ^ 31
      → level ≤ 2 ^ 31
      → has_access user password level (init qt (some lines) new_checker).0 ≡ true
  negative_level_grants user password u n level lines e p l h k =
      (has_access-init_iff user password level lines).1 (u, e, p, omega (arith, l))

  -- The lines that are no comments and do not parse, each with the number of lines before it that are
  -- no comments, and one.
  pub bad_lines : List Text → ℕ → List (ℕ × Text)
  bad_lines [] i = []
  bad_lines (line ∷ rest) i =
      let same = bad_lines rest i in
      let next = bad_lines rest (i + 1) in
      if is_comment line
      then same
      else elim (parse_line qt line) [ none ↦ (i, line) ∷ next | some p ↦ next ]

  errors-store :
      (line : Text) (o : Option (Text × UserInfo)) (i : ℕ) (c : Checker) (next : List (ℕ × Text))
      → (store qt o i line c).errors ++ next
        ≡ c.errors ++ (elim o [ none ↦ (i, line) ∷ next | some p ↦ next ])
  unfolding store
  errors-store line none i c next = append_assoc c.errors ((i, line) ∷ []) next
  errors-store line (some (name, info)) i c next = refl

  -- Reading the file reports exactly the lines that are no comments and do not parse, each with the
  -- number of lines before it that are no comments, on from the first number.
  pub errors-read_users :
      (lines : List Text) (i : ℕ) (c : Checker)
      → (read_users qt lines i c).errors ≡ c.errors ++ bad_lines lines i
  unfolding read_users bad_lines
  errors-read_users [] i c = rw append-nil
  errors-read_users (line ∷ rest) i c = elim (Bool-cases (is_comment line)) [
    | inl k ↦ rw k (errors-read_users rest i c)
    | inr k ↦ rw k (
        errors-read_users rest (i + 1) (store qt (parse_line qt line) i line c)
        ∙ errors-store line (parse_line qt line) i c (bad_lines rest (i + 1)))
  ]
