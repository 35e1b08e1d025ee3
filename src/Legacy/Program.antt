-- ===== src/Legacy/Program.antt =====
-- The global state of netdj/src/main.cc and what its functions find outside. A call of `ReadFile`
-- reads with fuel.
use netdj.Prelude.{ℕ, Bool, true, false, Option, List, [], ◌∷◌, Text, codes}
use netdj.Legacy.File.{File}
use netdj.Legacy.Directory.{Directory, Run, returns, ◌>>=◌, Outside, new_directory, get_size}
use netdj.Legacy.CurrentSong.{CurrentSong, new_current_song}
use netdj.Legacy.Http.{Exec}
use netdj.Legacy.Config.{Build, Values}
use netdj.Legacy.Access.{Users}

pub record Program : Type 0 where
  pub request : Directory
  pub cache : Directory
  pub share : Directory
  pub config : Values
  pub acc : Users
  pub http_locked : Bool
  pub current : CurrentSong
  pub stop_player : Bool
  pub next_song : Bool

pub record Env : Type 0 where
  pub outside : Outside
  pub build : Build
  pub exec : Exec
  pub files : Text → Option Text
  pub home : Option Text
  pub pwd : Option Text
  pub fuel : ℕ
  pub megabytes : ℕ → Text
  pub date : ℕ → Text
  pub version : List Text

-- The globals before main()
unfoldable pub new_program : File → Program
new_program memory = record {
  request = new_directory (codes "request") (codes "Requested songs") true;
  cache = new_directory (codes "cache") (codes "Cache-dir") true;
  share = new_directory (codes "share") (codes "Share-dir") false;
  config = [];
  acc = [];
  http_locked = false;
  current = new_current_song memory;
  stop_player = false;
  next_song = false;
}

-- lists
abbrev pub lists : Program → List Directory
lists p = p.request ∷ p.cache ∷ p.share ∷ []

-- GetSize() of each list, which brings it up to date
unfoldable pub sizes : Outside → Program → Run (Program × List ℕ)
sizes o p = get_size o p.request >>= (λ r. get_size o p.cache >>= (λ c. get_size o p.share >>= (λ s.
    returns (record p { request = r.0; cache = c.0; share = s.0 }, r.1 ∷ c.1 ∷ s.1 ∷ []))))

-- kill_current()
abbrev pub kill_current : Program → Program
kill_current p = record p { next_song = true }
