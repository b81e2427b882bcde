-- ===== src/Gateway/Tests.antt =====
-- Runs of the model of internal/gateway/gateway.go at concrete inputs.
use agent_ssh.Base.{
  Option, ◌≡◌, ◌≢◌, ◌⊎◌, refl, sym, ◌∙◌, Bool, true, false, none, some, List, [], ◌∷◌, ◌++◌, OneOf,
  if◌then◌else◌, ◌↔◌, ◌<◌, length,
}
use agent_ssh.Base.Int.{pos}
use agent_ssh.Base.Files.{Files}
use agent_ssh.Base.Path.{join, clean, is_abs}
use agent_ssh.Base.Result.{ok}
use agent_ssh.Base.Text.{Text, codes, text_eq, contains}
use agent_ssh.Config.Types.{default_config}
use agent_ssh.Executor.WorkDir.{resolve_work_dir}
use agent_ssh.Executor.Filter.{Regexp, Executor}
use agent_ssh.Executor.Run.{Process}
use agent_ssh.Auth.Model.{Io, timer, owner_only}
use agent_ssh.Auth.Rotation.{Starts}
use agent_ssh.Gateway.Types.{ExecRequest, unauthorized, nothing, Server}
use agent_ssh.Gateway.Handlers.{respond, bearer}
use agent_ssh.Gateway.Routes.{Context, Request, health, rotate, exec, create_task, upload, call}
use agent_ssh.Gateway.Upload.{SaveIo, temp_path, save_uploaded_file}
use agent_ssh.Gateway.Answers.{Answers, Refuses, handle_exec_lem}
use agent_ssh.Gateway.Handlers.{handle_exec}
use agent_ssh.Executor.Filter.{validate}
use agent_ssh.Executor.Run.{execute}
use agent_ssh.Gateway.Handlers.{request_duration}
use agent_ssh.Base.Within.{Below}
use agent_ssh.Executor.Filter.{upload_dir}
use agent_ssh.Gateway.Upload.{file, handle_upload, sanitize_filename, extension_allowed}
use agent_ssh.Gateway.Targets.{handle_upload-panics_iff}
use agent_ssh.Gateway.Commands.{IsGuarded}
use agent_ssh.Gateway.Service.{
  Event, calls, wakes, works, begins, intrudes, writes, run, drawn, placed, last_write,
}
use agent_ssh.Gateway.Steady.{run-IsGuarded, run-refuses}
use agent_ssh.Gateway.Disk.{run-inside}
use agent_ssh.Gateway.Names.{Saves, save_uploaded_file-Saves}

abbrev fine : Io
fine = record {
  mkdir = true;
  stat = true;
  read = true;
  random = some (1 ∷ []);
  write = true;
  partial = none;
  rename = true;
  remove = true;
  chmod = true;
}

abbrev server : Server
server = record {
  auth = record {
    token = codes "abcd";
    token_length = pos 2;
    rotation_hour = pos 0;
    on_rotate = true;
    manual = false;
    announced = [];
    file = none;
    temp = none;
  };
  tm = record {
    heap = [];
    tasks = [];
    max_running = pos 1;
    retention = pos 60;
    running_count = pos 0;
  };
  started = [];
  files = λ _. none;
}

-- The server with its token in the file.
abbrev started_server : Server
started_server = record server {
  auth = record server.auth { file = some (record { content = codes "abcd"; mode = owner_only }) };
}

abbrev substrings : Regexp
substrings = record {
  Pattern = Text;
  compile = λ k. some k;
  matches = λ p s. contains s p;
  source = λ p. p;
}

abbrev guarded : Executor substrings
guarded = record { cfg = default_config.executor; block_list = codes "mkfs" ∷ [] }

abbrev works_all : SaveIo
works_all = record {
  create = none;
  copy = true;
  partial = [];
  close = true;
  rename = none;
  remove = true;
}

abbrev made : Text → Bool
made _ = true

abbrev quick : Process
quick = record {
  failure = none;
  stdout = codes "x";
  stderr = [];
  wait_error = none;
  deadline_exceeded = false;
  milliseconds = pos 1;
}

abbrev request : ExecRequest
request = record { command = codes "ls"; timeout = pos 1; work_dir = [] }

handle_exec_lem_example :
    let (s', answer) = handle_exec substrings guarded made (λ _ _ _. quick) (some request) server in
    ((s' ≡ server) × Refuses substrings guarded made (some request) answer)
    ⊎ ((r : ExecRequest) × (dir : Text) × (◌≡◌ {A = Option ExecRequest} (some request) (some r))
        × (validate substrings guarded r.command ≡ ok tt)
        × (resolve_work_dir made guarded.cfg.work_dir r.work_dir ≡ ok dir)
        × (s' ≡ record server { started = (r.command, dir) ∷ server.started })
        × Answers
            (execute (λ _ _ _. quick) guarded.cfg dir r.command (request_duration r.timeout))
            answer)
handle_exec_lem_example =
    handle_exec_lem substrings guarded made (λ _ _ _. quick) (some request) server

-- A command, which writes a file and the token file, a rotation, a task and its goroutine, and an
-- upload.
abbrev happens : List (Event substrings guarded made)
happens =
    calls fine [] (codes "Bearer abcd") [] (λ _. exec (λ _ _ _. quick) (some request))
    ∷ writes (codes "up/a") (some (codes "mine"))
    ∷ intrudes (some (record { content = codes "ff"; mode = owner_only })) none
    ∷ wakes fine timer
    ∷ calls fine [] (codes "Bearer 01") [] (λ _. create_task (codes "job-1") (pos 5) (some request))
    ∷ works (begins (pos 6) 0)
    ∷ calls fine [] (codes "Bearer 01") (codes "0123456789")
        (λ ctx. upload works_all [] ctx (λ _. file (codes "a b.txt") (codes "new")))
    ∷ []

run-IsGuarded_example :
    IsGuarded substrings guarded made (run substrings guarded made server happens)
run-IsGuarded_example = run-IsGuarded substrings guarded made happens server (tt, tt)

rotate_ne : (ctx : Context) → ◌≢◌ {A = Request substrings guarded made} rotate health
rotate_ne ctx h = cc

-- No bearer token is the empty header.
none_given :
    (t : Text)
    → [] ≡ bearer ++ t
    → OneOf t (
        started_server.auth.token ∷ drawn substrings guarded made happens
        ++ placed substrings guarded made happens)
    → ⊥
none_given t h a = cc

started_server-Starts : Starts started_server.auth
started_server-Starts = (record { memory = refl; disk = refl }, λ h. cc)

run-refuses_example :
    call substrings guarded made fine [] [] []
      (λ _. rotate)
      (run substrings guarded made started_server happens)
    ≡ (run substrings guarded made started_server happens, respond 401 unauthorized nothing)
run-refuses_example =
    run-refuses substrings guarded made happens started_server fine [] [] [] (λ _. rotate)
      started_server-Starts rotate_ne none_given

-- A file stands under the path.
abbrev files : Files
files p = if text_eq p (codes "/up/a") then some (codes "old") else none

save_uploaded_file-Saves_example :
    Saves works_all
      (codes "new")
      (codes "/up/a")
      files
      (save_uploaded_file works_all (codes "new") (codes "/up/a") files).0
      (save_uploaded_file works_all (codes "new") (codes "/up/a") files).1
save_uploaded_file-Saves_example =
    save_uploaded_file-Saves works_all (codes "new") (codes "/up/a") files

temp_is_free : files (temp_path (codes "/up/a")) ≡ none
unfolding temp_path text_eq
temp_is_free = refl

rooted_uploads : is_abs (upload_dir default_config.executor) ≡ true
unfolding upload_dir join clean is_abs
rooted_uploads = refl

up_root : is_abs (clean (upload_dir default_config.executor)) ≡ true
unfolding upload_dir join clean is_abs
up_root = refl

-- A path that is not rooted is nowhere below.
a_is_elsewhere : Below (clean (upload_dir default_config.executor)) (codes "up/a") → ⊥
unfolding is_abs
a_is_elsewhere b = let q = sym up_root ∙ b.root in cc

run-inside_example :
    (run substrings guarded made server happens).files (codes "up/a")
    ≡ last_write substrings guarded made (codes "up/a") (server.files (codes "up/a")) happens
run-inside_example =
    run-inside substrings guarded made happens server (codes "up/a") rooted_uploads a_is_elsewhere

written_last : last_write substrings guarded made (codes "up/a") none happens ≡ some (codes "mine")
unfolding last_write text_eq
written_last = refl

-- A request id of two bytes.
handle_upload-panics_iff_example :
    ((handle_upload works_all made default_config.executor
        (codes "ab")
        (file (codes "a.txt") (codes "new"))
        files).1
      ≡ none)
    ↔ ((safe : Text) × (sanitize_filename (codes "a.txt") ≡ ok safe)
        × (extension_allowed default_config.executor.allowed_extensions safe ≡ true)
        × (length (codes "ab") < 8))
handle_upload-panics_iff_example =
    handle_upload-panics_iff works_all made default_config.executor (codes "ab") (codes "a.txt")
      (codes "new") files
