-- ===== src/Gateway/Handlers.antt =====
-- authMiddleware and the handlers of internal/gateway/gateway.go, but for handleUpload. A body is
-- `none` if it is not the JSON of a request. The identifier of a new task and the clock are inputs.
use agent_ssh.Base.{ℕ, Bool, not, ◌&&◌, Option, none, some, [], ◌∷◌, if◌then◌else◌}
use agent_ssh.Base.Int.{ℤ, pos, leb_ℤ}
use agent_ssh.Base.Result.{Result, ok, err}
use agent_ssh.Base.Text.{Text, codes, text_eq, trim_space, has_prefix, trim_prefix, contains}
use agent_ssh.Executor.Filter.{Regexp, Executor, validate}
use agent_ssh.Executor.Types.{ExecResult}
use agent_ssh.Executor.WorkDir.{resolve_work_dir}
use agent_ssh.Executor.Run.{Process, execute, seconds, timeout_mark}
use agent_ssh.Auth.Model.{Io, verify_token, trigger_manual_rotation}
use agent_ssh.TaskManager.Model.{Task, SubmitError, LookupError, submit, get, cancel}
use agent_ssh.Gateway.Types.{
  ExecRequest, Code, code_ok, bad_request, unauthorized, forbidden, not_found, request_timeout,
  too_many_requests, Payload, nothing, result, task, task_id, Response, Server,
}

abbrev pub respond : ℕ → Code → Payload → Response
respond status code payload = record { status = status; code = code; payload = payload }

abbrev pub bearer : Text
bearer = codes "Bearer "

-- What authMiddleware does with the answer of VerifyToken.
unfoldable pub pass_on : (Server → Server × Response) → Server → Bool → Server × Response
pass_on next s accepted = if accepted then next s else (s, respond 401 unauthorized nothing)

-- authMiddleware: an absent header is empty.
unfoldable pub auth_middleware :
    Io → Text → (Server → Server × Response) → Server → Server × Response
unfolding pass_on
auth_middleware io header next s =
    if not (has_prefix header bearer)
    then (s, respond 401 unauthorized nothing)
    else let (tm, accepted) = verify_token io (trim_prefix header bearer) s.auth in
      pass_on next (record s { auth = tm }) accepted

-- The timeout of the request as a duration; 0 stands for the default.
unfoldable pub request_duration : ℤ → ℤ
request_duration t = if leb_ℤ t (pos 0) then pos 0 else seconds t

unfoldable pub exec_response : ExecResult → Response
exec_response r =
    if not (text_eq r.stderr []) && contains r.stderr timeout_mark
    then respond 408 request_timeout (result r)
    else respond 200 code_ok (result r)

unfoldable pub submit_response : Result SubmitError Text → Response
submit_response (ok id) = respond 202 code_ok (task_id id)
submit_response (err e) = respond 429 too_many_requests nothing

unfoldable pub task_response : Result LookupError Task → Response
task_response (ok t) = respond 200 code_ok (task t)
task_response (err e) = respond 404 not_found nothing

unfoldable pub handle_get_task : Text → Server → Server × Response
unfolding task_response
handle_get_task id s = (s, task_response (get id s.tm))

unfoldable pub handle_delete_task : Text → ℤ → Server → Server × Response
unfolding task_response
handle_delete_task id now s =
    let (tm, answer) = cancel id now s.tm in (record s { tm = tm }, task_response answer)

-- The rotation itself is the work of the goroutine of the token manager.
unfoldable pub handle_rotate : Server → Server × Response
handle_rotate s = (record s { auth = trigger_manual_rotation s.auth }, respond 200 code_ok nothing)

module _ (re : Regexp) (e : Executor re) (mkdir_all : Text → Bool) where
  -- The checks that handleExec and handleCreateTask both begin with: the request and its directory.
  unfoldable pub admit : Option ExecRequest → Result Response (ExecRequest × Text)
  admit none = err (respond 400 bad_request nothing)
  admit (some r) =
      if text_eq (trim_space r.command) []
      then err (respond 400 bad_request nothing)
      else elim (validate re e r.command) [
        | err _ ↦ err (respond 403 forbidden nothing)
        | ok _ ↦ elim (resolve_work_dir mkdir_all e.cfg.work_dir r.work_dir) [
          | err _ ↦ err (respond 400 bad_request nothing)
          | ok dir ↦ ok (r, dir)
        ]
      ]

  -- What the command does to files while the handler waits are events of Gateway/Service.
  unfoldable pub handle_exec :
      (Text → Text → ℤ → Process) → Option ExecRequest → Server → Server × Response
  unfolding exec_response request_duration
  handle_exec world body s = elim (admit body) [
    | err answer ↦ (s, answer)
    | ok (r, dir) ↦ (
      record s { started = (r.command, dir) ∷ s.started },
      exec_response (execute world e.cfg dir r.command (request_duration r.timeout)),
    )
  ]

  unfoldable pub handle_create_task : Text → ℤ → Option ExecRequest → Server → Server × Response
  unfolding submit_response request_duration
  handle_create_task id now body s = elim (admit body) [
    | err answer ↦ (s, answer)
    | ok (r, dir) ↦
        let (tm, answer) = submit id r.command dir (request_duration r.timeout) now s.tm in
        (record s { tm = tm }, submit_response answer)
  ]
