-- ===== src/Gateway/Steady.antt =====
-- What internal/gateway/gateway.go keeps while the agent serves: which commands get through, which
-- tokens are accepted, and which files change.
use agent_ssh.Base.{
  ℕ, ◌≡◌, ◌≢◌, inl, inr, refl, sym, ap, subst, ◌∙◌, List, [], ◌∷◌, ◌++◌, All, All-split, All-OneOf,
  OneOf, Bool,
}
use agent_ssh.Base.Result.{Result-cases}
use agent_ssh.Base.Text.{Text}
use agent_ssh.Executor.Filter.{Regexp, Executor}
use agent_ssh.Auth.Model.{Io, TokenManager, generate_token, verify_token, trigger_manual_rotation}
use agent_ssh.Auth.Rotation.{Starts, content_of}
use agent_ssh.Auth.History.{
  Known, token_of, contents, some_text, verify_token-Known, round-Known, intrudes-Known,
}
use agent_ssh.TaskManager.Model.{TaskManager}
use agent_ssh.TaskManager.Events as Tasks
use agent_ssh.TaskManager.Commands.{work_of, step-keeps}
use agent_ssh.Gateway.Types.{unauthorized, nothing, Server}
use agent_ssh.Gateway.Handlers.{
  respond, bearer, admit, handle_exec, handle_create_task, handle_get_task, handle_delete_task,
  handle_rotate,
}
use agent_ssh.Gateway.Routes.{
  Context, Request, health, rotate, exec, create_task, get_task, delete_task, upload, handle_health,
  handle_upload_form, route, serve, call, request_id_middleware,
}
use agent_ssh.Gateway.Guard.{auth_middleware_lem}
use agent_ssh.Gateway.Commands.{IsAdmitted, IsGuarded, serve-IsGuarded, serve_cases, serve-refuses}
use agent_ssh.Gateway.Service.{
  Work, begins, expires, finishes, cleans, cancels_all, task_event, Event, calls, wakes, works,
  intrudes, writes, step, run, drawn, placed,
}

work-keeps :
    (Good : Text × Text → Type 0) (w : Work) (tm : TaskManager)
    → All (λ t. Good (work_of t)) tm.heap
    → All (λ t. Good (work_of t)) (Tasks.step tm (task_event w)).heap
unfolding task_event
work-keeps Good (begins now p) tm g = step-keeps Good (Tasks.begins now p) tm tt g
work-keeps Good (expires now p) tm g = step-keeps Good (Tasks.expires now p) tm tt g
work-keeps Good (finishes now r p) tm g = step-keeps Good (Tasks.finishes now r p) tm tt g
work-keeps Good (cleans now) tm g = step-keeps Good (Tasks.cleans now) tm tt g
work-keeps Good (cancels_all now) tm g = step-keeps Good (Tasks.cancels_all now) tm tt g

module _ (re : Regexp) (e : Executor re) (mkdir_all : Text → Bool) where
  step-IsGuarded :
      (x : Event re e mkdir_all) (s : Server)
      → IsGuarded re e mkdir_all s
      → IsGuarded re e mkdir_all (step re e mkdir_all s x)
  unfolding step call request_id_middleware
  step-IsGuarded (calls io bytes authorization id r) s g =
      serve-IsGuarded re e mkdir_all io authorization (r _) s g
  step-IsGuarded (wakes io w) s g = g
  step-IsGuarded (intrudes file temp) s g = g
  step-IsGuarded (writes path content) s g = g
  step-IsGuarded (works w) s g = (g.0, work-keeps (IsAdmitted re e mkdir_all) w s.tm g.1)

  -- Whatever happens, every command that POST /exec has started and every command of a task has passed
  -- Validate, and its directory is one that ResolveWorkDir gave, if this held at the start.
  pub run-IsGuarded :
      (xs : List (Event re e mkdir_all)) (s : Server)
      → IsGuarded re e mkdir_all s
      → IsGuarded re e mkdir_all (run re e mkdir_all s xs)
  unfolding run
  run-IsGuarded [] s g = g
  run-IsGuarded (x ∷ xs) s g = run-IsGuarded xs (step re e mkdir_all s x) (step-IsGuarded x s g)

  -- What VerifyToken and TriggerManualRotation keep, a request keeps.
  route-auth :
      (P : TokenManager → Type 0) (r : Request re e mkdir_all) (s : Server)
      → ((tm : TokenManager) → P tm → P (trigger_manual_rotation tm))
      → P s.auth
      → P (route re e mkdir_all r s).0.auth
  unfolding route handle_health handle_rotate handle_exec handle_create_task handle_get_task
      handle_delete_task handle_upload_form
  route-auth P health s t h = h
  route-auth P rotate s t h = t s.auth h
  route-auth P (get_task id) s t h = h
  route-auth P (delete_task id now) s t h = h
  route-auth P (upload io bytes ctx parse) s t h = h
  route-auth P (exec world body) s t h = elim (Result-cases (admit re e mkdir_all body)) [
    | inr (x, f) ↦ rw (handle_exec, f) h
    | inl (x, f) ↦ rw (handle_exec, f) h
  ]
  route-auth P (create_task id now body) s t h = elim (Result-cases (admit re e mkdir_all body)) [
    | inr (x, f) ↦ rw (handle_create_task, f) h
    | inl (x, f) ↦ rw (handle_create_task, f) h
  ]

  serve-auth :
      (P : TokenManager → Type 0) (io : Io) (header : Text) (r : Request re e mkdir_all)
      (s : Server)
      → ((tm : TokenManager) → P tm → P (trigger_manual_rotation tm))
      → ((t : Text) (tm : TokenManager) → P tm → P (verify_token io t tm).0)
      → P s.auth
      → P (serve re e mkdir_all io header r s).0.auth
  serve-auth P io header r s trigger check h = elim (serve_cases re e mkdir_all io header r s) [
    | inl f ↦ rw f (route-auth P r s trigger h)
    | inr f ↦ elim (auth_middleware_lem io header (route re e mkdir_all r) s) [
      | inl (t, _, _, k) ↦
          rw (f, k)
            (route-auth P r (record s { auth = (verify_token io t s.auth).0 }) trigger
              (check t s.auth h))
      | inr k ↦ rw (f, k) h
    ]
  ]

  run-Known :
      (tokens : List Text) (xs : List (Event re e mkdir_all)) (s : Server)
      → All (λ t. OneOf t tokens) (drawn re e mkdir_all xs)
      → All (λ t. OneOf t tokens) (placed re e mkdir_all xs)
      → Known tokens s.auth
      → Known tokens (run re e mkdir_all s xs).auth
  unfolding run step drawn placed call request_id_middleware
  run-Known tokens [] s a p h = h
  run-Known tokens (wakes io w ∷ xs) s a p h =
      let (x, y) =
        All-split (λ t. OneOf t tokens) (token_of (generate_token io)) (drawn re e mkdir_all xs)
          a in
      run-Known tokens xs (step re e mkdir_all s (wakes io w)) y p
        (round-Known tokens io w s.auth x h)
  run-Known tokens (works w ∷ xs) s a p h =
      run-Known tokens xs (step re e mkdir_all s (works w)) a p h
  run-Known tokens (writes path content ∷ xs) s a p h =
      run-Known tokens xs (step re e mkdir_all s (writes path content)) a p h
  run-Known tokens (intrudes file temp ∷ xs) s a p h =
      let (x, y) = All-split (λ t. OneOf t tokens) (contents file) (placed re e mkdir_all xs) p in
      run-Known tokens xs (step re e mkdir_all s (intrudes file temp)) a y
        (intrudes-Known tokens file temp s.auth x h)
  run-Known tokens (calls io bytes authorization id r ∷ xs) s a p h =
      run-Known tokens xs (step re e mkdir_all s (calls io bytes authorization id r)) a p (
        serve-auth (Known tokens) io authorization (r _) s
          (λ tm k. unfold trigger_manual_rotation in record { memory = k.memory; disk = k.disk })
          (λ t tm k. verify_token-Known tokens io t tm k) h)

  -- From a start that succeeded on, and whatever happens, a request other than the health check is
  -- answered with 401 and changes nothing, unless its header is "Bearer " and the first token, one that
  -- a rotation has drawn at random since, or one that another program, such as a command that the
  -- agent ran, has put into the token file since.
  pub run-refuses :
      (xs : List (Event re e mkdir_all)) (s : Server) (io : Io) (bytes : List ℕ)
      (authorization id : Text) (r : Context → Request re e mkdir_all)
      → let now = run re e mkdir_all s xs in
        Starts s.auth
        → ((ctx : Context) → r ctx ≢ health)
        → ((t : Text)
            → authorization ≡ bearer ++ t
            → OneOf t (s.auth.token ∷ drawn re e mkdir_all xs ++ placed re e mkdir_all xs)
            → ⊥)
        → call re e mkdir_all io bytes authorization id r now
          ≡ (now, respond 401 unauthorized nothing)
  unfolding call request_id_middleware
  run-refuses xs s io bytes authorization id r started other unknown =
      let tokens = s.auth.token ∷ drawn re e mkdir_all xs ++ placed re e mkdir_all xs in
      let first : Known tokens s.auth = record {
        memory = inl refl;
        disk = λ t q. inl (some_text (sym q ∙ ap content_of started.0.disk));
      } in
      let (a, p) =
        All-split (λ t. OneOf t tokens) (drawn re e mkdir_all xs) (placed re e mkdir_all xs)
          (All-OneOf tokens).1 in
      let known = run-Known tokens xs s a p first in
      serve-refuses re e mkdir_all io authorization (r _) (run re e mkdir_all s xs) (other _)
        (λ t q a. unknown t q (elim a [
          | inl same ↦ subst (λ y. OneOf y tokens) (sym same) known.memory
          | inr there ↦ known.disk t there.1
        ]))
