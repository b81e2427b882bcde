-- ===== src/Executor/Run.antt =====
-- Execute of internal/executor/executor.go. The process is a parameter of the model: how it starts,
-- what it writes to its two pipes until they close, how Wait returns, and whether the context's
-- deadline has passed by then. Durations are int64 nanoseconds.
use agent_ssh.Base.{
  Bool, true, false, ◌&&◌, Option, none, some, [], ◌∷◌, ◌++◌, leb, if◌then◌else◌, length, take,
}
use agent_ssh.Base.Int.{ℤ, pos, negsuc, pos_part, ◌*ℤ◌, leb_ℤ, ltb_ℤ, wrap64}
use agent_ssh.Base.Text.{Text, codes}
use agent_ssh.Config.Types.{ExecutorConfig}
use agent_ssh.Config.Load.{max_output_size}
use agent_ssh.Executor.Types.{ExecResult}

-- time.Duration(n) * time.Second
unfoldable pub seconds : ℤ → ℤ
seconds n = wrap64 (n *ℤ pos 1000000000)

-- The timeout under which the command runs.
unfoldable pub effective_timeout : ExecutorConfig → ℤ → ℤ
effective_timeout cfg timeout =
    let wanted = if leb_ℤ timeout (pos 0) then seconds cfg.default_timeout else timeout in
    let most = seconds cfg.max_timeout in if ltb_ℤ most wanted then most else wanted

unfoldable pub effective_dir : ExecutorConfig → Text → Text
effective_dir cfg [] = cfg.work_dir
effective_dir cfg (c ∷ s) = c ∷ s

pub record LimitedRead : Type 0 where
  pub content : Text
  pub truncated : Bool

-- io.ReadAll of an io.LimitedReader: at most `limit` bytes; N is what is left of the limit.
unfoldable pub read_limited : Text → ℤ → LimitedRead
read_limited stream limit = record {
  content = take (pos_part limit) stream;
  truncated = leb_ℤ (pos 0) limit && leb (pos_part limit) (length stream);
}

-- The ways in which cmd.Wait fails: with an exit code, or otherwise.
pub data WaitError : Type 0 where
  exit_error : ℤ → WaitError
  other_error : WaitError

pub data StartError : Type 0 where
  stdout_pipe stderr_pipe start_command : Text → StartError

pub record Process : Type 0 where
  pub failure : Option StartError
  pub stdout : Text
  pub stderr : Text
  pub wait_error : Option WaitError
  pub deadline_exceeded : Bool
  pub milliseconds : ℤ

unfoldable pub start_message : StartError → Text
start_message (stdout_pipe e) = codes "stdout pipe error: " ++ e
start_message (stderr_pipe e) = codes "stderr pipe error: " ++ e
start_message (start_command e) = codes "start command error: " ++ e

abbrev pub truncated_mark : Text
truncated_mark = codes "[TRUNCATED: output exceeded limit]"

abbrev pub timeout_mark : Text
timeout_mark = codes "[timeout]"

unfoldable pub mark_truncated : Bool → ExecResult → ExecResult
mark_truncated true r = record r { stderr = r.stderr ++ truncated_mark; truncated = true }
mark_truncated false r = r

unfoldable pub exit_code_of : WaitError → ℤ
exit_code_of (exit_error n) = n
exit_code_of other_error = negsuc 0

unfoldable pub mark_wait : Option WaitError → Bool → ExecResult → ExecResult
unfolding exit_code_of
mark_wait none deadline r = r
mark_wait (some e) true r = record r { stderr = r.stderr ++ timeout_mark; exit_code = negsuc 0 }
mark_wait (some e) false r = record r { exit_code = exit_code_of e }

-- Execute from the pipes on: the command has been given its directory and its deadline.
unfoldable pub collect : ExecutorConfig → Process → ExecResult
collect cfg p =
    let limit = max_output_size cfg in
    let out = read_limited p.stdout limit in
    let error = read_limited p.stderr limit in
    let plain : ExecResult = record {
      exit_code = pos 0;
      stdout = out.content;
      stderr = error.content;
      duration = p.milliseconds;
      truncated = false;
    } in
    mark_wait p.wait_error p.deadline_exceeded
      (mark_truncated error.truncated (mark_truncated out.truncated plain))

unfoldable pub failed_start : StartError → ℤ → ExecResult
unfolding start_message
failed_start e ms = record {
  exit_code = negsuc 0;
  stdout = [];
  stderr = start_message e;
  duration = ms;
  truncated = false;
}

-- `world` runs a command in a directory under a timeout.
unfoldable pub execute : (Text → Text → ℤ → Process) → ExecutorConfig → Text → Text → ℤ → ExecResult
unfolding failed_start
execute world cfg work_dir command timeout =
    let p = world command (effective_dir cfg work_dir) (effective_timeout cfg timeout) in
    elim p.failure [ none ↦ collect cfg p | some e ↦ failed_start e p.milliseconds ]

-- ExecuteWithID, whose identifier is for the log alone.
unfoldable pub execute_with_id :
    Text → (Text → Text → ℤ → Process) → ExecutorConfig → Text → Text → ℤ → ExecResult
unfolding execute
execute_with_id id world cfg dir command timeout = execute world cfg dir command timeout
