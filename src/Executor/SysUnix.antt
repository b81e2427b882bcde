-- ===== src/Executor/SysUnix.antt =====
-- internal/executor/executor_sys_unix.go.
use agent_ssh.Base.{true, false, none, some, [], ◌∷◌}
use agent_ssh.Base.Result.{Result, ok}
use agent_ssh.Base.Text.{Text, codes}
use agent_ssh.Executor.Processes.{Table, Cmd, SystemError, getpgid, kill_process, kill_group}

unfoldable pub new_shell_command : Text → Cmd
new_shell_command command = record {
  path = codes "/bin/sh";
  arguments = codes "-c" ∷ command ∷ [];
  setpgid = false;
  process = none;
  waited = false;
}

unfoldable pub set_process_group : Cmd → Cmd
set_process_group cmd = record cmd { setpgid = true }

unfoldable pub kill_process_tree : Cmd → Table → Table × Result SystemError (Unit {0})
unfolding getpgid kill_process kill_group
kill_process_tree cmd t = elim cmd.process [
  | none ↦ (t, ok tt)
  | some pid ↦ elim (getpgid pid t) [
    | none ↦ kill_process cmd.waited pid t
    | some pgid ↦ kill_group pgid t
  ]
]
