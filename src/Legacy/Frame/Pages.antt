-- ===== src/Legacy/Frame/Pages.antt =====
-- No connection changes the configuration, the users or the lock of the web.
use netdj.Prelude.{
  refl, sym, subst, ◌∙◌, Bool, true, false, not, Option, none, some, [], codes, take, text_eq,
  is_empty, Bool-cases, inl, inr, if◌then◌else◌,
}
use netdj.Base64.{Tables}
use netdj.Legacy.Config.{Values}
use netdj.Legacy.Config
use netdj.Legacy.Directory.{Run, returns, ◌>>=◌, Outside, get_size}
use netdj.Legacy.Http.{HttpRequest}
use netdj.Legacy.Http.Parse.{parse}
use netdj.Legacy.CurrentSong.{get}
use netdj.Legacy.Program.{Program, Env, sizes}
use netdj.Legacy.Web.{
  Web, Answer, Received, nothing, failed, got, c_string, answer, answer_command, answer_text,
  answer_xml, answer_html, connection, sends,
}
use netdj.Legacy.Web.Answers.{answer_command-Allowed}
use netdj.Legacy.Frame.{
  Frame, Frame-refl, AllResults, bind-results, returns-results, any_result, returns_injective,
}

sizes-Frame : (o : Outside) (p : Program) → AllResults (λ r. Frame p r.0) (sizes o p)
unfolding sizes
sizes-Frame o p = bind-results _ _ _ _ (any_result (get_size o p.request)) (λ r u.
    bind-results _ _ _ _ (any_result (get_size o p.cache)) (λ c u.
      bind-results _ _ _ _ (any_result (get_size o p.share)) (λ s u.
        returns-results _ _ (record { same_config = refl; same_users = refl; same_lock = refl }))))

-- Nothing is claimed where a loop has not ended within the fuel.
abbrev pub MaybeFrame : Program → Option Answer → Type 0
MaybeFrame p none = Unit
MaybeFrame p (some a) = Frame p a.program

answer_command-Frame :
    (env : Env) (memory : Tables) (w : Web) (p : Program)
    → AllResults (MaybeFrame p) (answer_command env memory w p)
answer_command-Frame env memory w p b e =
    let (a, ran, one, same, why) = answer_command-Allowed env memory w p in
    subst (MaybeFrame p) (returns_injective (sym ran ∙ e)) (record {
      same_config = same.same_config;
      same_users = same.same_users;
      same_lock = same.same_lock;
    })

answer_xml-Frame :
    (env : Env) (w : Web) (p : Program) → AllResults (λ a. Frame p a.program) (answer_xml env w p)
unfolding answer_xml
answer_xml-Frame env w p = elim (Bool-cases (text_eq w.o_xsongname (get p.current).name)) [
  | inl e ↦ rw e (returns-results _ _ (Frame-refl p))
  | inr e ↦ rw e (bind-results _ _ _ _ (sizes-Frame env.outside p) (λ r h. returns-results _ _ h))
]

answer_html-Frame :
    (env : Env) (w : Web) (p : Program) → AllResults (λ a. Frame p a.program) (answer_html env w p)
unfolding answer_html
answer_html-Frame env w p =
    elim (Bool-cases (not (is_empty (Config.get (codes "HTTP_REDIRECT") p.config)))) [
      | inl e ↦ rw e (returns-results _ _ (Frame-refl p))
      | inr e ↦ elim (Bool-cases (text_eq w.o_hsongname (get p.current).name)) [
        | inl k ↦ rw (e, k) (returns-results _ _ (Frame-refl p))
        | inr k ↦
            rw (e, k)
              (bind-results _ _ _ _ (sizes-Frame env.outside p) (λ r h. returns-results _ _ h))
      ]
    ]

answer-Frame :
    (env : Env) (memory : Tables) (w : Web) (p : Program)
    → AllResults (MaybeFrame p) (answer env memory w p)
unfolding answer answer_text
answer-Frame env memory w p = elim (Bool-cases (text_eq w.req.command (codes "GET"))) [
  | inr a ↦ rw a (returns-results _ _ (Frame-refl p))
  | inl a ↦ elim (Bool-cases (text_eq (take 9 w.req.name) (codes "/cgi-bin/"))) [
    | inl b ↦ rw (a, b) (answer_command-Frame env memory w p)
    | inr b ↦ elim (Bool-cases (text_eq w.req.name (codes "/index.txt"))) [
      | inl c ↦ rw (a, b, c) (returns-results _ _ (Frame-refl p))
      | inr c ↦ elim (Bool-cases (text_eq w.req.name (codes "/index.xml"))) [
        | inl d ↦
            rw (a, b, c, d)
              (bind-results _ _ _ _ (answer_xml-Frame env w p) (λ r h. returns-results _ _ h))
        | inr d ↦
            rw (a, b, c, d)
              (bind-results _ _ _ _ (answer_html-Frame env w p) (λ r h. returns-results _ _ h))
      ]
    ]
  ]
]

if_parsed :
    (env : Env) (memory : Tables) (w : Web) (p : Program) (b : Bool)
    → AllResults (MaybeFrame p) (if b then answer env memory w p else returns (some (sends [] w p)))
if_parsed env memory w p true = answer-Frame env memory w p
if_parsed env memory w p false = returns-results _ _ (Frame-refl p)

if_open :
    (env : Env) (memory : Tables) (w : Web) (p : Program) (parsed : Run (HttpRequest × Bool))
    (locked : Bool)
    → AllResults (MaybeFrame p) (
        if locked
        then returns (some (sends [] w p))
        else parsed >>= (λ r.
          let w' = record w { req = r.0 } in
          if r.1 then answer env memory w' p else returns (some (sends [] w' p))))
if_open env memory w p parsed true = returns-results _ _ (Frame-refl p)
if_open env memory w p parsed false =
    bind-results _ _ _ _ (any_result parsed)
      (λ r u. if_parsed env memory (record w { req = r.0 }) p r.1)

pub connection-Frame :
    (env : Env) (memory : Tables) (received : Received) (w : Web) (p : Program)
    → AllResults (λ a. MaybeFrame p a) (connection env memory received w p)
unfolding connection
connection-Frame env memory nothing w p = returns-results _ _ (Frame-refl p)
connection-Frame env memory failed w p = λ a e. cc
connection-Frame env memory (got rbuf) w p =
    if_open env memory w p (parse env.exec (c_string rbuf) false w.req) p.http_locked
