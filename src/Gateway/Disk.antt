-- ===== src/Gateway/Disk.antt =====
-- Which files internal/gateway/gateway.go leaves alone while the agent serves.
use agent_ssh.Base.{◌≡◌, inl, inr, refl, ap, ◌∙◌, Bool, true, List, [], ◌∷◌}
use agent_ssh.Base.Files.{Files, put}
use agent_ssh.Base.Path.{clean, is_abs}
use agent_ssh.Base.Result.{Result-cases}
use agent_ssh.Base.Text.{Text}
use agent_ssh.Base.Within.{Below}
use agent_ssh.Config.Types.{ExecutorConfig}
use agent_ssh.Executor.Filter.{Regexp, Executor, upload_dir}
use agent_ssh.Auth.Model.{Io, verify_token}
use agent_ssh.Gateway.Types.{Server}
use agent_ssh.Gateway.Handlers.{
  admit, handle_exec, handle_create_task, handle_get_task, handle_delete_task, handle_rotate,
}
use agent_ssh.Gateway.Upload.{
  SaveIo, Form, too_large, invalid, missing, file, body_limit, handle_upload,
}
use agent_ssh.Gateway.Routes.{
  Request, health, rotate, exec, create_task, get_task, delete_task, upload,
  request_id_from_context, handle_health, handle_upload_form, route, serve, call,
  request_id_middleware,
}
use agent_ssh.Gateway.Guard.{auth_middleware_lem}
use agent_ssh.Gateway.Commands.{serve_cases}
use agent_ssh.Gateway.Inside.{handle_upload-inside}
use agent_ssh.Gateway.Service.{Event, calls, wakes, works, intrudes, writes, step, run, last_write}

form-inside :
    (io : SaveIo) (mkdir_all : Text → Bool) (cfg : ExecutorConfig) (id : Text) (form : Form)
    (files : Files) (q : Text)
    → is_abs (upload_dir cfg) ≡ true
    → (Below (clean (upload_dir cfg)) q → ⊥)
    → (handle_upload io mkdir_all cfg id form files).0 q ≡ files q
form-inside io mkdir_all cfg id (file original content) files q rooted out =
    handle_upload-inside io mkdir_all cfg id original content files q rooted out
form-inside io mkdir_all cfg id too_large files q rooted out = unfold handle_upload in refl
form-inside io mkdir_all cfg id invalid files q rooted out = unfold handle_upload in refl
form-inside io mkdir_all cfg id missing files q rooted out = unfold handle_upload in refl

module _ (re : Regexp) (e : Executor re) (mkdir_all : Text → Bool) where
  route-inside :
      (r : Request re e mkdir_all) (s : Server) (q : Text)
      → is_abs (upload_dir e.cfg) ≡ true
      → (Below (clean (upload_dir e.cfg)) q → ⊥)
      → (route re e mkdir_all r s).0.files q ≡ s.files q
  unfolding route handle_health handle_rotate handle_exec handle_create_task handle_get_task
      handle_delete_task handle_upload_form
  route-inside health s q rooted out = refl
  route-inside rotate s q rooted out = refl
  route-inside (get_task id) s q rooted out = refl
  route-inside (delete_task id now) s q rooted out = refl
  route-inside (upload io bytes ctx parse) s q rooted out =
      form-inside io mkdir_all e.cfg (request_id_from_context bytes ctx) (parse (body_limit e.cfg))
        s.files q rooted out
  route-inside (exec world body) s q rooted out = elim (Result-cases (admit re e mkdir_all body)) [
    | inr (x, f) ↦ rw (handle_exec, f) refl
    | inl (x, f) ↦ rw (handle_exec, f) refl
  ]
  route-inside (create_task id now body) s q rooted out =
      elim (Result-cases (admit re e mkdir_all body)) [
        | inr (x, f) ↦ rw (handle_create_task, f) refl
        | inl (x, f) ↦ rw (handle_create_task, f) refl
      ]

  serve-inside :
      (io : Io) (header : Text) (r : Request re e mkdir_all) (s : Server) (q : Text)
      → is_abs (upload_dir e.cfg) ≡ true
      → (Below (clean (upload_dir e.cfg)) q → ⊥)
      → (serve re e mkdir_all io header r s).0.files q ≡ s.files q
  serve-inside io header r s q rooted out = elim (serve_cases re e mkdir_all io header r s) [
    | inl f ↦ rw f (route-inside r s q rooted out)
    | inr f ↦ elim (auth_middleware_lem io header (route re e mkdir_all r) s) [
      | inl (t, _, _, k) ↦
          rw (f, k) (route-inside r (record s { auth = (verify_token io t s.auth).0 }) q rooted out)
      | inr k ↦ rw (f, k) refl
    ]
  ]

  -- With an upload directory that is an absolute path, a path that does not lie below that directory
  -- holds, after any requests, rotations, work on tasks and writes of other programs, what the last
  -- write of another program left there, or else what was there at the start: no upload writes it. The
  -- commands that the agent runs are other programs, and the token file and the log are not among
  -- these files.
  pub run-inside :
      (xs : List (Event re e mkdir_all)) (s : Server) (q : Text)
      → is_abs (upload_dir e.cfg) ≡ true
      → (Below (clean (upload_dir e.cfg)) q → ⊥)
      → (run re e mkdir_all s xs).files q ≡ last_write re e mkdir_all q (s.files q) xs
  unfolding run step call request_id_middleware last_write put
  run-inside [] s q rooted out = refl
  run-inside (calls io bytes authorization id r ∷ xs) s q rooted out =
      run-inside xs (step re e mkdir_all s (calls io bytes authorization id r)) q rooted out
      ∙ ap (λ o. last_write re e mkdir_all q o xs)
          (serve-inside io authorization (r _) s q rooted out)
  run-inside (wakes io w ∷ xs) s q rooted out =
      run-inside xs (step re e mkdir_all s (wakes io w)) q rooted out
  run-inside (works w ∷ xs) s q rooted out =
      run-inside xs (step re e mkdir_all s (works w)) q rooted out
  run-inside (intrudes left temp ∷ xs) s q rooted out =
      run-inside xs (step re e mkdir_all s (intrudes left temp)) q rooted out
  run-inside (writes path content ∷ xs) s q rooted out =
      run-inside xs (step re e mkdir_all s (writes path content)) q rooted out
