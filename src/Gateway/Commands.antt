-- ===== src/Gateway/Commands.antt =====
-- Which commands the handlers of internal/gateway/gateway.go let through, over all requests.
use agent_ssh.Base.{Option, ◌≡◌, ◌≢◌, ◌⊎◌, inl, inr, refl, ◌∙◌, Bool, List, [], ◌∷◌, ◌++◌, All}
use agent_ssh.Base.Result.{ok, Result-cases}
use agent_ssh.Base.Text.{Text}
use agent_ssh.Executor.Filter.{Regexp, Executor, validate}
use agent_ssh.Executor.WorkDir.{resolve_work_dir}
use agent_ssh.Auth.Model.{Io, verify_token}
use agent_ssh.TaskManager.Commands.{work_of, submit-keeps, cancel-keeps}
use agent_ssh.Gateway.Types.{ExecRequest, unauthorized, nothing, Server}
use agent_ssh.Gateway.Handlers.{
  respond, bearer, auth_middleware, request_duration, admit, handle_exec, handle_create_task,
  handle_get_task, handle_delete_task, handle_rotate,
}
use agent_ssh.Gateway.Routes.{
  Request, health, rotate, exec, create_task, get_task, delete_task, upload, handle_health,
  handle_upload_form, route, serve,
}
use agent_ssh.Gateway.Guard.{Accepted, auth_middleware_lem}
use agent_ssh.Gateway.Answers.{admit-ok}

module _ (re : Regexp) (e : Executor re) (mkdir_all : Text → Bool) where
  -- The command passed Validate, and the directory is one that ResolveWorkDir gave.
  abbrev pub IsAdmitted : Text × Text → Type 0
  IsAdmitted (command, dir) =
      (validate re e command ≡ ok tt)
      × ((requested : Text) × (resolve_work_dir mkdir_all e.cfg.work_dir requested ≡ ok dir))

  -- Every command that was started or stands in a task was admitted to its directory.
  abbrev pub IsGuarded : Server → Type 0
  IsGuarded s = All IsAdmitted s.started × All (λ t. IsAdmitted (work_of t)) s.tm.heap

  admit-IsAdmitted :
      (body : Option ExecRequest) (r : ExecRequest) (dir : Text)
      → admit re e mkdir_all body ≡ ok (r, dir)
      → IsAdmitted (r.command, dir)
  admit-IsAdmitted body r dir f =
      let (_, v, d) = admit-ok re e mkdir_all body r dir f in (v, (r.work_dir, d))

  -- A handler that is given a state in which every command is admitted leaves one.
  route-IsGuarded :
      (r : Request re e mkdir_all) (s : Server)
      → IsGuarded s
      → IsGuarded (route re e mkdir_all r s).0
  unfolding route handle_exec handle_create_task handle_get_task handle_delete_task handle_rotate
      handle_health handle_upload_form
  route-IsGuarded health s g = g
  route-IsGuarded rotate s g = g
  route-IsGuarded (upload io bytes ctx parse) s g = g
  route-IsGuarded (get_task id) s g = g
  route-IsGuarded (delete_task id now) s g = (g.0, cancel-keeps IsAdmitted id now s.tm g.1)
  route-IsGuarded (exec world body) s g = elim (Result-cases (admit re e mkdir_all body)) [
    | inr (x, f) ↦ rw (handle_exec, f) g
    | inl ((r, dir), f) ↦ rw (handle_exec, f) (((admit-IsAdmitted body r dir f), g.0), g.1)
  ]
  route-IsGuarded (create_task id now body) s g = elim (Result-cases (admit re e mkdir_all body)) [
    | inr (x, f) ↦ rw (handle_create_task, f) g
    | inl ((r, dir), f) ↦
        rw (handle_create_task, f)
          (
            g.0,
            submit-keeps IsAdmitted id r.command dir (request_duration r.timeout) now s.tm
                (admit-IsAdmitted body r dir f) g.1,
          )
  ]

  pub serve_cases :
      (io : Io) (header : Text) (r : Request re e mkdir_all) (s : Server)
      → (serve re e mkdir_all io header r s ≡ route re e mkdir_all r s)
        ⊎ (serve re e mkdir_all io header r s
            ≡ auth_middleware io header (route re e mkdir_all r) s)
  unfolding serve
  serve_cases io header health s = inl refl
  serve_cases io header rotate s = inr refl
  serve_cases io header (exec world body) s = inr refl
  serve_cases io header (create_task id now body) s = inr refl
  serve_cases io header (get_task id) s = inr refl
  serve_cases io header (upload _ _ _ _) s = inr refl
  serve_cases io header (delete_task id now) s = inr refl

  behind :
      (io : Io) (header : Text) (r : Request re e mkdir_all) (s : Server)
      → r ≢ health
      → serve re e mkdir_all io header r s ≡ auth_middleware io header (route re e mkdir_all r) s
  unfolding serve
  behind io header health s other = elim (other refl) [ ]
  behind io header rotate s other = refl
  behind io header (exec world body) s other = refl
  behind io header (create_task id now body) s other = refl
  behind io header (get_task id) s other = refl
  behind io header (upload _ _ _ _) s other = refl
  behind io header (delete_task id now) s other = refl

  pub serve-IsGuarded :
      (io : Io) (header : Text) (r : Request re e mkdir_all) (s : Server)
      → IsGuarded s
      → IsGuarded (serve re e mkdir_all io header r s).0
  serve-IsGuarded io header r s g = elim (serve_cases io header r s) [
    | inl f ↦ rw f (route-IsGuarded r s g)
    | inr f ↦ elim (auth_middleware_lem io header (route re e mkdir_all r) s) [
      | inl (t, h, a, k) ↦
          rw (f, k) (route-IsGuarded r (record s { auth = (verify_token io t s.auth).0 }) g)
      | inr k ↦ rw (f, k) g
    ]
  ]

  -- Requests, one after the other.
  unfoldable pub serve_all : List (Io × Text × Request re e mkdir_all) → Server → Server
  serve_all [] s = s
  serve_all ((io, header, r) ∷ rs) s = serve_all rs (serve re e mkdir_all io header r s).0

  -- Over all requests, of clients with a token or without, every command that POST /exec has
  -- started and every command of a task has passed Validate and is to run in a
  -- directory that ResolveWorkDir gave, if this held before the first.
  pub serve_all-IsGuarded :
      (rs : List (Io × Text × Request re e mkdir_all)) (s : Server)
      → IsGuarded s
      → IsGuarded (serve_all rs s)
  unfolding serve_all
  serve_all-IsGuarded [] s g = g
  serve_all-IsGuarded ((io, header, r) ∷ rs) s g =
      serve_all-IsGuarded rs (serve re e mkdir_all io header r s).0
        (serve-IsGuarded io header r s g)

  -- A request, other than the health check, whose header is not "Bearer " and a token in memory or
  -- in the file is answered with 401, and nothing is changed.
  pub serve-refuses :
      (io : Io) (header : Text) (r : Request re e mkdir_all) (s : Server)
      → r ≢ health
      → ((t : Text) → header ≡ bearer ++ t → Accepted io t s.auth → ⊥)
      → serve re e mkdir_all io header r s ≡ (s, respond 401 unauthorized nothing)
  serve-refuses io header r s other unknown =
      elim (auth_middleware_lem io header (route re e mkdir_all r) s) [
        | inl (t, h, a, k) ↦ elim (unknown t h a) [ ]
        | inr k ↦ behind io header r s other ∙ k
      ]
