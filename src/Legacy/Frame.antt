-- ===== src/Legacy/Frame.antt =====
-- What a call of the first version keeps of the state, whatever else it does.
pub mod Songs
pub mod Pages
use netdj.Prelude.{
  ℕ, zero, suc, ◌≡◌, refl, sym, ap, subst, ◌∙◌, Bool, true, false, not, ◌&&◌, ◌||◌, Option, none,
  some, List, [], ◌∷◌, Text, codes, take, text_eq, is_empty, Bool-cases, inl, inr, if◌then◌else◌,
}
use netdj.Base64.{Tables}
use netdj.Legacy.Access.{Users}
use netdj.Legacy.Commands.Web.{Untouched}
use netdj.Legacy.Config.{Values}
use netdj.Legacy.Config
use netdj.Legacy.Directory.{
  Run, returns, exits, out_of_range, undefined, ◌>>=◌, Outside, get_size, get_song,
}
use netdj.Legacy.File.{File, exists}
use netdj.Legacy.Http.{HttpRequest}
use netdj.Legacy.Http.Parse.{parse}
use netdj.Legacy.Player.{
  Block, Round, delete_it, first_song, stream, take_song, play, quiet, no_song, round,
}
use netdj.Legacy.CurrentSong.{get, set}
use netdj.Legacy.Program.{Program, Env, sizes}
use netdj.Legacy.Web.{
  Web, Answer, Received, nothing, failed, got, c_string, answer, answer_command, answer_text,
  answer_xml, answer_html, connection, sends,
}
use netdj.Legacy.Web.Answers.{answer_command-Allowed}

-- The parts of the state that neither the web nor the player changes.
pub record Frame (p q : Program) : Type 0 where
  pub same_config : q.config ≡ p.config
  pub same_users : q.acc ≡ p.acc
  pub same_lock : q.http_locked ≡ p.http_locked

pub Frame-refl : (p : Program) → Frame p p
Frame-refl p = record { same_config = refl; same_users = refl; same_lock = refl }

pub Frame-trans : {p q r : Program} → Frame p q → Frame q r → Frame p r
Frame-trans a b = record {
  same_config = b.same_config ∙ a.same_config;
  same_users = b.same_users ∙ a.same_users;
  same_lock = b.same_lock ∙ a.same_lock;
}

-- Where the program is after a call that returns.
returned {ℓ} : {A : Type ℓ} → A → Run A → A
returned a (returns b) = b
returned a other = a

pub returns_injective {ℓ} : {A : Type ℓ} {a b : A} → returns a ≡ returns b → a ≡ b
unfolding returned
returns_injective {a} h = ap (returned a) h

-- What holds of all results of a call holds of its result.
abbrev pub AllResults {ℓ} : {A : Type ℓ} → (A → Type 0) → Run A → Type ℓ
AllResults {A} P r = (a : A) → r ≡ returns a → P a

pub bind-results {ℓ κ} :
    {A : Type ℓ} {B : Type κ} (P : A → Type 0) (Q : B → Type 0) (r : Run A) (f : A → Run B)
    → AllResults P r
    → ((a : A) → P a → AllResults Q (f a))
    → AllResults Q (r >>= f)
bind-results P Q (returns a) f h k b e = k a (h a refl) b e
bind-results P Q (exits n) f h k b e = cc
bind-results P Q out_of_range f h k b e = cc
bind-results P Q undefined f h k b e = cc

pub returns-results {ℓ} : {A : Type ℓ} (P : A → Type 0) (a : A) → P a → AllResults P (returns a)
returns-results P a h b e = subst P (returns_injective e) h

pub any_result {ℓ} : {A : Type ℓ} (r : Run A) → AllResults (λ a. Unit) r
any_result r a e = tt
