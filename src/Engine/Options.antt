-- ===== src/Engine/Options.antt =====
-- What the second version runs with: its options, its configuration file and the defaults.
use mathlib.Core.Bool.{false≢true}
use netdj.Prelude.{
  ◌≡◌, refl, sym, ap, subst, ◌∙◌, Bool, true, false, Option, some, List, Text, codes, text_eq,
  lookup, insert, lookup-insert, ◌==◌, if◌then◌else◌, ◌⊎◌, Bool-cases, inl, inr,
}
use netdj.Prelude.Int.{ℤ, pos, negsuc}
use netdj.Config.{
  Config, ConfFile, new_config, def_values, first_open, init, or_empty, get_string, get_bool,
  set_bool, set_integer,
}
use netdj.Config.Values.{or_else, last_value, pairs, get_string-init}
use netdj.Engine.{Accounts, change_user}
use netdj.Engine.Start.{
  Options, Fork, failed, parent, child, Started, runs, after_init, after_dump, after_fork,
  after_user, with_port, configured, start,
}
use netdj.Qt.{QtText}

-- Neither of these ends main() where mainloop() is called.
after_init-runs : (b : Bool) (s : Started) (c : Config) → after_init b s ≡ runs c → s ≡ runs c
unfolding after_init
after_init-runs true s c h = h
after_init-runs false s c h = cc

after_dump-runs : (b : Bool) (s : Started) (c : Config) → after_dump b s ≡ runs c → s ≡ runs c
unfolding after_dump
after_dump-runs true s c h = cc
after_dump-runs false s c h = h

after_fork-runs :
    (b : Bool) (k : Fork) (s : Started) (c : Config)
    → after_fork b k s ≡ runs c
    → (s ≡ runs c) × (b ≡ true → k ≡ child)
unfolding after_fork
after_fork-runs true failed s c h = cc
after_fork-runs true parent s c h = cc
after_fork-runs true child s c h = (h, λ e. refl)
after_fork-runs false k s c h = (h, λ e. absurd (false≢true e))

after_user-runs : (b : Bool) (d c : Config) → after_user b d ≡ runs c → d ≡ c
unfolding after_user
after_user-runs true d c h = cc
after_user-runs false d c h = cc

module _ (qt : QtText) where
  start-configured :
      (a : Accounts) (k : Fork) (places : List (Option ConfFile)) (o : Options) (c : Config)
      → start qt a k places (some o) ≡ runs c
      → (configured qt o (init qt places new_config).0 ≡ c)
        × (get_bool qt (codes "DAEMON_MODE") c ≡ true → k ≡ child)
  unfolding start
  start-configured a k places o c h =
      let d = configured qt o (init qt places new_config).0 in
      let forked =
        after_dump-runs o.dump _ c (after_init-runs (init qt places new_config).1 _ c h) in
      let (user, is_child) = after_fork-runs (get_bool qt (codes "DAEMON_MODE") d) k _ c forked in
      let same = after_user-runs (change_user qt a d) d c user in
      (same, subst (λ e. get_bool qt (codes "DAEMON_MODE") e ≡ true → k ≡ child) same is_child)

  or_empty-insert :
      (key value k : Text) (m : List (Text × Text))
      → or_empty (lookup k (insert key value m))
        ≡ (if text_eq key k then value else or_empty (lookup k m))
  unfolding or_empty
  or_empty-insert key value k m = elim (Bool-cases (text_eq key k)) [
    | inl e ↦ rw (lookup-insert key k value m, e) refl
    | inr e ↦ rw (lookup-insert key k value m, e) refl
  ]

  -- A port of the arguments, but for 0, overrules what is else the value of its key.
  pub by_port : ℤ → Text → Text → Text
  by_port (pos n) key value =
      if n == 0
      then value
      else if text_eq (codes "SERVER_PORT") key
      then qt.set_num (pos n)
      else value
  by_port (negsuc n) key value =
      if text_eq (codes "SERVER_PORT") key then qt.set_num (negsuc n) else value

  -- The option of the daemon does so with its key.
  abbrev pub by_daemon : Bool → Text → Text → Text
  by_daemon b key value =
      if b then (if text_eq (codes "DAEMON_MODE") key then codes "true" else value) else value

  get_string-with_port :
      (n : ℤ) (c : Config) (key : Text)
      → get_string key (with_port qt n c) ≡ by_port n key (get_string key c)
  unfolding with_port get_string set_integer by_port
  get_string-with_port (pos n) c key = elim (Bool-cases (n == 0)) [
    | inl e ↦ rw e refl
    | inr e ↦ rw e (or_empty-insert (codes "SERVER_PORT") (qt.set_num (pos n)) key c.values)
  ]
  get_string-with_port (negsuc n) c key =
      or_empty-insert (codes "SERVER_PORT") (qt.set_num (negsuc n)) key c.values

  by_daemon-set_bool :
      (b : Bool) (c : Config) (key : Text)
      → get_string key (if b then set_bool (codes "DAEMON_MODE") true c else c)
        ≡ by_daemon b key (get_string key c)
  unfolding get_string set_bool
  by_daemon-set_bool true c key = or_empty-insert (codes "DAEMON_MODE") (codes "true") key c.values
  by_daemon-set_bool false c key = refl

  child_or_off : (b : Bool) (k : Fork) → (b ≡ true → k ≡ child) → (k ≡ child) ⊎ (b ≡ false)
  child_or_off true k h = inl (h refl)
  child_or_off false k h = inr refl

  -- Where main() calls mainloop() and a configuration file can be opened, each value of the configuration,
  -- but for the directory of that file, is the one of the arguments, else the one of the last line of the
  -- file that sets it, else the default, else empty; and the program is the child of a fork or is not
  -- configured as a daemon.
  pub start-runs :
      (a : Accounts) (k : Fork) (places : List (Option ConfFile)) (f : ConfFile) (o : Options)
      (c : Config) (key : Text)
      → first_open places ≡ some f
      → start qt a k places (some o) ≡ runs c
      → text_eq (codes "CONFIG_DIR") key ≡ false
      → (get_string key c
          ≡ by_daemon o.daemon key (
              by_port o.port key (
                or_empty
                  (or_else (last_value key (pairs qt f.lines)) (last_value key def_values)))))
        × ((k ≡ child) ⊎ (get_bool qt (codes "DAEMON_MODE") c ≡ false))
  unfolding configured
  start-runs a k places f o c key e h ne =
      let (same, is_child) = start-configured a k places o c h in
      let read = (init qt places new_config).0 in
      (
        ap (get_string key) (sym same)
            ∙ by_daemon-set_bool o.daemon (with_port qt o.port read) key
            ∙ ap (by_daemon o.daemon key) (
                get_string-with_port o.port read key
                ∙ ap (by_port o.port key) (get_string-init qt places f key e ne).0),
        child_or_off (get_bool qt (codes "DAEMON_MODE") c) k is_child,
      )
