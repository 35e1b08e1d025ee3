-- ===== src/Legacy/Commands/Web.antt =====
-- Which commands the web reaches: `find_command(name, false)`, called with a null pointer.
use netdj.Prelude.{
  Bool-cases, ◌≡◌, ◌≢◌, subst, sym, ap, ◌∙◌, text_eq_iff, refl, inl, inr, Bool, true, false, ◌&&◌,
  ◌||◌, none, some, List, [], ◌∷◌, Text, text_eq, if◌then◌else◌, All,
}
use netdj.Legacy.Directory.{returns}
use netdj.Legacy.Program.{Program, Env}
use netdj.Legacy.Commands.{
  Command, Func, commands, find_in, find_command, run, Result, next, start, stop,
}

-- The lists, the configuration, the users, the lock and the song that plays are those of before.
pub record Untouched (p q : Program) : Type 0 where
  pub same_request : q.request ≡ p.request
  pub same_cache : q.cache ≡ p.cache
  pub same_share : q.share ≡ p.share
  pub same_config : q.config ≡ p.config
  pub same_users : q.acc ≡ p.acc
  pub same_lock : q.http_locked ≡ p.http_locked
  pub same_song : q.current ≡ p.current

-- Run with a null pointer it comes to its end, changes nothing but the two flags of the player and
-- asks for no link.
abbrev pub Harmless : Env → Program → Func → Type 0
Harmless env p f =
    (r : Result) × (run env f none p ≡ returns (some r)) × Untouched p r.program × (r.links ≡ [])

none-ne_some {ℓ} : {A : Type ℓ} (a : A) → none ≢ some a
none-ne_some a e = cc

some_injective {ℓ} : {A : Type ℓ} {a b : A} → some a ≡ some b → a ≡ b
some_injective e = cc

found-then {ℓ} : {A : Type ℓ} (x y : A) (b : Bool) → b ≡ true → x ≡ (if b then x else y)
found-then x y true e = refl
found-then x y false e = absurd cc

found-else {ℓ} : {A : Type ℓ} (x y : A) (b : Bool) → b ≡ false → y ≡ (if b then x else y)
found-else x y true e = absurd cc
found-else x y false e = refl

and_both : (a b : Bool) → a && (b || false) ≡ true → (a ≡ true) × (b ≡ true)
and_both true true e = (refl, refl)
and_both true false e = absurd cc
and_both false b e = absurd cc

-- What is so for each user function among some commands is so for what is found of them.
find_in-All {ℓ} :
    (P : Func → Type ℓ) (cs : List Command) (name : Text) (c : Command)
    → All (λ d. d.userfunc ≡ true → P d.func) cs
    → find_in cs name false ≡ some c
    → P c.func × (c.name ≡ name)
unfolding find_in
find_in-All P [] name c h e = absurd (none-ne_some c e)
find_in-All P (d ∷ cs) name c (h, hs) e =
    elim (Bool-cases (text_eq name d.name && (d.userfunc || false))) [
      | inl y ↦
          let same =
            some_injective (found-then _ _ (text_eq name d.name && (d.userfunc || false)) y ∙ e) in
          let both = and_both (text_eq name d.name) d.userfunc y in
          (
            subst (λ x. P x.func) same (h both.1),
            ap (λ x. x.name) (sym same) ∙ sym ((text_eq_iff name d.name).0 both.0),
          )
      | inr n ↦
          find_in-All P cs name c hs
            (found-else _ _ (text_eq name d.name && (d.userfunc || false)) n ∙ e)
    ]

not_user : {P : Type 0} → false ≡ true → P
not_user e = absurd cc

user_functions :
    (env : Env) (p : Program) → All (λ d. d.userfunc ≡ true → Harmless env p d.func) commands
unfolding commands run next start stop
user_functions env p = (
  not_user,
  (
    not_user,
    (
      not_user,
      (
        not_user,
        (
          not_user,
          (
            not_user,
            (
              λ e. (
                _,
                refl,
                record {
                  same_request = refl;
                  same_cache = refl;
                  same_share = refl;
                  same_config = refl;
                  same_users = refl;
                  same_lock = refl;
                  same_song = refl;
                },
                refl,
              ),
              (
                not_user,
                (
                  not_user,
                  (
                    not_user,
                    (
                      λ e. (
                        _,
                        refl,
                        record {
                          same_request = refl;
                          same_cache = refl;
                          same_share = refl;
                          same_config = refl;
                          same_users = refl;
                          same_lock = refl;
                          same_song = refl;
                        },
                        refl,
                      ),
                      (
                        λ e. (
                          _,
                          refl,
                          record {
                            same_request = refl;
                            same_cache = refl;
                            same_share = refl;
                            same_config = refl;
                            same_users = refl;
                            same_lock = refl;
                            same_song = refl;
                          },
                          refl,
                        ),
                        (not_user, (not_user, (not_user, tt))),
                      ),
                    ),
                  ),
                ),
              ),
            ),
          ),
        ),
      ),
    ),
  ),
)

-- Whatever name the web asks for: a command that it finds has this name, is run with a null pointer to
-- its end, changes nothing but the two flags of the player and asks for no link.
pub run-find_command :
    (env : Env) (p : Program) (name : Text) (c : Command)
    → find_command name false ≡ some c
    → Harmless env p c.func × (c.name ≡ name)
unfolding find_command
run-find_command env p name c e =
    find_in-All (Harmless env p) commands name c (user_functions env p) e
