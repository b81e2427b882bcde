-- ===== src/Executor/Types.antt =====
-- The result of a command and the texts about it that internal/executor/executor.go makes.
use agent_ssh.Base.{Bool, ◌++◌, leb, if◌then◌else◌, length, take}
use agent_ssh.Base.Int.{ℤ}
use agent_ssh.Base.Text.{Text, codes}

pub record ExecResult : Type 0 where
  pub exit_code : ℤ
  pub stdout : Text
  pub stderr : Text
  pub duration : ℤ
  pub truncated : Bool

-- previewCommand, which internal/taskmanager/taskmanager.go has too.
unfoldable pub preview_command : Text → Text
preview_command command =
    if leb (length command) 80 then command else take 80 command ++ codes "..."
