-- ===== src/Gateway/Routes.antt =====
-- The routes of internal/gateway/gateway.go, and the middleware around them: every request gets an
-- identifier, all but the health check pass authMiddleware, and a panic is answered.
use agent_ssh.Base.{ℕ, Bool, Option, none, some, List, [], if◌then◌else◌}
use agent_ssh.Base.Hex
use agent_ssh.Base.Int.{ℤ}
use agent_ssh.Base.Text.{Text, text_eq}
use agent_ssh.Executor.Filter.{Regexp, Executor}
use agent_ssh.Executor.Run.{Process}
use agent_ssh.Auth.Model.{Io}
use agent_ssh.Gateway.Types.{ExecRequest, code_ok, internal_error, nothing, alive, Response, Server}
use agent_ssh.Gateway.Handlers.{
  respond, auth_middleware, handle_exec, handle_create_task, handle_get_task, handle_delete_task,
  handle_rotate,
}
use agent_ssh.Gateway.Upload.{SaveIo, Form, body_limit, handle_upload}

-- On the 16 bytes of rand.Read.
unfoldable pub generate_request_id : List ℕ → Text
generate_request_id bytes = Hex.encode bytes

-- The request identifier of a context, if it has one.
abbrev pub Context : Type 0
Context = Option Text

unfoldable pub with_request_id : Context → Text → Context
with_request_id _ id = some id

unfoldable pub request_id_from_context : List ℕ → Context → Text
unfolding generate_request_id
request_id_from_context bytes none = generate_request_id bytes
request_id_from_context bytes (some id) = if text_eq id [] then generate_request_id bytes else id

-- The X-Request-ID of the client, which is empty if there is none.
unfoldable pub request_id_middleware :
    {A : Type 0} → List ℕ → Text → (Context → Server → A) → Server → A
unfolding generate_request_id with_request_id
request_id_middleware bytes header next s =
    next (with_request_id none (if text_eq header [] then generate_request_id bytes else header)) s

-- The answer of recoverMiddleware to what a handler gave, where `none` is a panic.
unfoldable pub recover_middleware : Option Response → Response
recover_middleware none = respond 500 internal_error nothing
recover_middleware (some answer) = answer

unfoldable pub handle_health : Server → Server × Response
handle_health s = (s, respond 200 code_ok alive)

module _ (re : Regexp) (e : Executor re) (mkdir_all : Text → Bool) where
  -- An upload has the form that ParseMultipartForm and FormFile give under a limit for the body.
  pub data Request : Type 0 where
    health rotate : Request
    exec : (Text → Text → ℤ → Process) → Option ExecRequest → Request
    create_task : Text → ℤ → Option ExecRequest → Request
    get_task : Text → Request
    delete_task : Text → ℤ → Request
    upload : SaveIo → List ℕ → Context → (ℤ → Form) → Request

  unfoldable pub handle_upload_form :
      SaveIo → List ℕ → Context → (ℤ → Form) → Server → Server × Response
  unfolding request_id_from_context recover_middleware handle_upload
  handle_upload_form io bytes ctx parse s =
      let id = request_id_from_context bytes ctx in
      let (files, answer) =
        handle_upload io mkdir_all e.cfg id (parse (body_limit e.cfg)) s.files in
      (record s { files = files }, recover_middleware answer)

  unfoldable pub route : Request → Server → Server × Response
  unfolding handle_exec handle_create_task handle_get_task handle_delete_task handle_rotate
      handle_health handle_upload_form
  route health s = handle_health s
  route rotate s = handle_rotate s
  route (exec world body) s = handle_exec re e mkdir_all world body s
  route (create_task id now body) s = handle_create_task re e mkdir_all id now body s
  route (get_task id) s = handle_get_task id s
  route (delete_task id now) s = handle_delete_task id now s
  route (upload io bytes ctx parse) s = handle_upload_form io bytes ctx parse s

  -- registerRoutes: all but the health check are behind authMiddleware.
  unfoldable pub serve : Io → Text → Request → Server → Server × Response
  unfolding route auth_middleware
  serve io header health s = route health s
  serve io header r s = auth_middleware io header (route r) s

  -- The handler of New, on the headers Authorization and X-Request-ID and a request of the mux,
  -- which has its context.
  unfoldable pub call : Io → List ℕ → Text → Text → (Context → Request) → Server → Server × Response
  unfolding serve request_id_middleware
  call io bytes authorization request_id r s =
      request_id_middleware bytes request_id (λ ctx. serve io authorization (r ctx)) s
