-- ===== src/Config/Values.antt =====
-- What the program reads from its configuration.
use netdj.Prelude.{
  ℕ, ◌+◌, ◌≡◌, ◌≢◌, refl, ap, ◌∙◌, Bool, true, false, ◌||◌, Option, none, some, List, [], ◌∷◌, Text,
  codes, text_eq, text_eq_ne, lookup-insert_self, lookup, insert, lookup-insert, if◌then◌else◌,
  arith, Bool-cases, inl, inr,
}
use netdj.Prelude.Int.{ℤ, pos}
use netdj.Qt.{QtText, ReadsBack}
use netdj.Config.{
  Config, ConfFile, new_config, def_values, fill_defaults, is_comment, first_open, parse_line,
  store, read_lines, read_file, init, or_empty, get_string, set_string, get_integer, set_integer,
  get_bool, set_bool, is_one,
}

abbrev pub or_else : Option Text → Option Text → Option Text
or_else none o = o
or_else (some u) o = some u

-- The last pair of that name.
pub last_value : Text → List (Text × Text) → Option Text
last_value key [] = none
last_value key ((name, value) ∷ rest) = elim (last_value key rest) [
  | some v ↦ some v
  | none ↦ if text_eq name key then some value else none
]

-- The pairs of the lines that are no comments and parse, in order.
pub pairs : QtText → List Text → List (Text × Text)
pairs qt [] = []
pairs qt (line ∷ rest) =
    let more = pairs qt rest in
    if is_comment line then more else elim (parse_line qt line) [ none ↦ more | some p ↦ p ∷ more ]

front :
    (key name value : Text) (later old : Option Text)
    → or_else later (if text_eq name key then some value else old)
      ≡ or_else
          (elim later [ some v ↦ some v | none ↦ if text_eq name key then some value else none ])
          old
front key name value none old = ground arith
front key name value (some v) old = refl

or_else-none : (o : Option Text) → or_else o none ≡ o
or_else-none none = refl
or_else-none (some u) = refl

lookup-fill_defaults :
    (key : Text) (ds values : List (Text × Text))
    → lookup key (fill_defaults ds values) ≡ or_else (last_value key ds) (lookup key values)
unfolding fill_defaults last_value
lookup-fill_defaults key [] values = refl
lookup-fill_defaults key ((name, value) ∷ ds) values =
    lookup-fill_defaults key ds (insert name value values)
    ∙ rw (lookup-insert name key value values)
        (front key name value (last_value key ds) (lookup key values))

lookup-store :
    (qt : QtText) (key line : Text) (o : Option (Text × Text)) (ps : List (Text × Text)) (i : ℕ)
    (c : Config)
    → or_else (last_value key ps) (lookup key (store qt o i line c).values)
      ≡ or_else (last_value key (elim o [ none ↦ ps | some p ↦ p ∷ ps ])) (lookup key c.values)
unfolding store last_value
lookup-store qt key line none ps i c = refl
lookup-store qt key line (some (name, value)) ps i c =
    rw (lookup-insert name key value c.values)
      (front key name value (last_value key ps) (lookup key c.values))

lookup-read_lines :
    (qt : QtText) (key : Text) (lines : List Text) (i : ℕ) (c : Config)
    → lookup key (read_lines qt lines i c).values
      ≡ or_else (last_value key (pairs qt lines)) (lookup key c.values)
unfolding read_lines pairs
lookup-read_lines qt key [] i c = unfold last_value in refl
lookup-read_lines qt key (line ∷ rest) i c = elim (Bool-cases (is_comment line)) [
  | inl k ↦ rw k (lookup-read_lines qt key rest i c)
  | inr k ↦ rw k (
      lookup-read_lines qt key rest (i + 1) (store qt (parse_line qt line) i line c)
      ∙ lookup-store qt key line (parse_line qt line) (pairs qt rest) i c)
]

lookup-read_file :
    (qt : QtText) (key : Text) (f : ConfFile) (c : Config)
    → text_eq (codes "CONFIG_DIR") key ≡ false
    → lookup key (read_file qt (some f) c).0.values
      ≡ or_else (last_value key (pairs qt f.lines)) (lookup key c.values)
unfolding read_file
lookup-read_file qt key f c h =
    rw (lookup-insert (codes "CONFIG_DIR") key f.dir_path (read_lines qt f.lines 1 c).values, h)
      (lookup-read_lines qt key f.lines 1 c)

-- A value in a new configuration that was read from a file is the one of the last line of the file
-- that sets it, else the default value, else empty. The key of the file's directory is the exception:
-- it has that directory, whatever the lines say.
pub get_string-init :
    (qt : QtText) (places : List (Option ConfFile)) (f : ConfFile) (key : Text)
    → first_open places ≡ some f
    → text_eq (codes "CONFIG_DIR") key ≡ false
    → (get_string key (init qt places new_config).0
        ≡ or_empty (or_else (last_value key (pairs qt f.lines)) (last_value key def_values)))
      × (get_string (codes "CONFIG_DIR") (init qt places new_config).0 ≡ f.dir_path)
      × ((init qt places new_config).1 ≡ true)
unfolding init get_string lookup
get_string-init qt places f key e h = rw e (
  ap or_empty (
      lookup-read_file qt key f filled h
      ∙ ap (or_else (last_value key (pairs qt f.lines))) (defaults key)),
  unfold read_file or_empty in rw lookup-insert_self,
  unfold read_file in refl,
)
  where
    filled : Config
    filled = record new_config { values = fill_defaults def_values [] }

    defaults : (k : Text) → lookup k (fill_defaults def_values []) ≡ last_value k def_values
    defaults k = lookup-fill_defaults k def_values [] ∙ or_else-none (last_value k def_values)

-- With no file to be read `Init` returns false, and each value is the default or empty.
get_string-init-none :
    (qt : QtText) (places : List (Option ConfFile)) (key : Text)
    → first_open places ≡ none
    → (get_string key (init qt places new_config).0 ≡ or_empty (last_value key def_values))
      × ((init qt places new_config).1 ≡ false)
unfolding init get_string lookup
get_string-init-none qt places key e = rw e (
  unfold read_file in
      ap or_empty
        (lookup-fill_defaults key def_values [] ∙ or_else-none (last_value key def_values)),
  unfold read_file in refl,
)

get-insert_self :
    (key value : Text) (m : List (Text × Text)) → or_empty (lookup key (insert key value m)) ≡ value
unfolding or_empty
get-insert_self key value m = rw lookup-insert_self

get-insert_ne :
    (key other value : Text) (m : List (Text × Text))
    → key ≢ other
    → or_empty (lookup other (insert key value m)) ≡ or_empty (lookup other m)
get-insert_ne key other value m h = rw (lookup-insert key other value m, text_eq_ne key other h)

-- What is set is read back, as text, as a truth value if Qt reads neither `true` nor `false` as
-- another number than 0, and as a number if Qt reads back the text that it made of it.
pub get-set :
    (qt : QtText) (key text : Text) (b : Bool) (n : ℤ) (c : Config)
    → ReadsBack qt n
    → qt.to_int (codes "true") ≡ pos 0
    → qt.to_int (codes "false") ≡ pos 0
    → (get_string key (set_string key text c) ≡ text)
      × (get_bool qt key (set_bool key b c) ≡ b)
      × (get_integer qt key (set_integer qt key n c) ≡ n)
unfolding get_string set_string get_bool set_bool get_integer set_integer
get-set qt key text b n c back t f = (
  get-insert_self key text c.values,
  bool b,
  ap qt.to_int (get-insert_self key (qt.set_num n) c.values) ∙ back,
)
  where
    bool : (b : Bool) → get_bool qt key (set_bool key b c) ≡ b
    bool true =
        ap (λ v. is_one qt (qt.to_int v) || text_eq v (codes "true"))
          (get-insert_self key (codes "true") c.values)
        ∙ rw t (unfold text_eq in refl)
    bool false =
        ap (λ v. is_one qt (qt.to_int v) || text_eq v (codes "true"))
          (get-insert_self key (codes "false") c.values)
        ∙ rw f (unfold text_eq in refl)

-- Setting a value leaves the values of the other keys.
pub get-set_other :
    (qt : QtText) (key other text : Text) (b : Bool) (n : ℤ) (c : Config)
    → key ≢ other
    → (get_string other (set_string key text c) ≡ get_string other c)
      × (get_string other (set_bool key b c) ≡ get_string other c)
      × (get_string other (set_integer qt key n c) ≡ get_string other c)
unfolding get_string set_string set_bool set_integer
get-set_other qt key other text b n c h = (
  get-insert_ne key other text c.values h,
  get-insert_ne key other (if b then codes "true" else codes "false") c.values h,
  get-insert_ne key other (qt.set_num n) c.values h,
)
