-- ===== src/Executor/SysWindows.antt =====
-- internal/executor/executor_sys_windows.go.
use agent_ssh.Base.{false, none, some, [], ◌∷◌}
use agent_ssh.Base.Result.{Result, ok}
use agent_ssh.Base.Text.{Text, codes}
use agent_ssh.Executor.Processes.{Table, Cmd, SystemError, kill_process}

unfoldable pub new_shell_command : Text → Cmd
new_shell_command command = record {
  path = codes "cmd.exe";
  arguments = codes "/C" ∷ command ∷ [];
  setpgid = false;
  process = none;
  waited = false;
}

unfoldable pub set_process_group : Cmd → Cmd
set_process_group cmd = cmd

unfoldable pub kill_process_tree : Cmd → Table → Table × Result SystemError (Unit {0})
unfolding kill_process
kill_process_tree cmd t = elim cmd.process [
  | none ↦ (t, ok tt)
  | some pid ↦ kill_process cmd.waited pid t
]
