-- ===== src/Gateway/Types.antt =====
-- The requests and the answers of internal/gateway/gateway.go. The texts of messages are left out.
use agent_ssh.Base.{ℕ, List}
use agent_ssh.Base.Files.{Files}
use agent_ssh.Base.Int.{ℤ}
use agent_ssh.Base.Text.{Text}
use agent_ssh.Executor.Types.{ExecResult}
use agent_ssh.Auth.Model.{TokenManager}
use agent_ssh.TaskManager.Model.{TaskManager, Task}

-- execRequest without the variables of the environment, which no handler reads.
pub record ExecRequest : Type 0 where
  pub command : Text
  pub timeout : ℤ
  pub work_dir : Text

pub data Code : Type 0 where
  code_ok bad_request unauthorized forbidden not_found request_timeout too_many_requests : Code
  file_too_large invalid_file_name internal_error upload_failed file_already_exists : Code

-- The number of a code on the wire.
abbrev pub number : Code → ℕ
number code_ok = 0
number bad_request = 1001
number unauthorized = 1002
number forbidden = 1003
number not_found = 1004
number request_timeout = 1005
number too_many_requests = 1006
number file_too_large = 1011
number invalid_file_name = 1012
number internal_error = 2001
number upload_failed = 2002
number file_already_exists = 2003

pub data Payload : Type 0 where
  nothing alive : Payload
  result : ExecResult → Payload
  task : Task → Payload
  task_id : Text → Payload
  uploaded : Text → Text → Text → ℕ → Payload

pub record Response : Type 0 where
  pub status : ℕ
  pub code : Code
  pub payload : Payload

-- The managers behind the handlers, the commands that POST /exec has started and their directories,
-- the latest first, and the files that uploads write to.
pub record Server : Type 0 where
  pub auth : TokenManager
  pub tm : TaskManager
  pub started : List (Text × Text)
  pub files : Files
