-- ===== src/TaskManager/Context.antt =====
-- What internal/taskmanager/taskmanager.go uses of the package context: a context with a deadline,
-- whose first cause of cancellation stays. Times are nanoseconds.
use agent_ssh.Base.{Option, none, some, if◌then◌else◌}
use agent_ssh.Base.Int.{ℤ, pos, ◌+ℤ◌, leb_ℤ}

pub data ContextError : Type 0 where
  canceled deadline_exceeded : ContextError

pub record Context : Type 0 where
  pub deadline : ℤ
  pub error : Option ContextError

-- context.WithTimeout of the background context: without time left it is done at once.
unfoldable pub with_timeout : ℤ → ℤ → Context
with_timeout now timeout = record {
  deadline = now +ℤ timeout;
  error = if leb_ℤ timeout (pos 0) then some deadline_exceeded else none;
}

first_cause : Option ContextError → ContextError → Option ContextError
first_cause none e = some e
first_cause (some e) _ = some e

-- A call of the context's CancelFunc.
unfoldable pub cancel_context : Context → Context
unfolding first_cause
cancel_context c = record c { error = first_cause c.error canceled }

-- The context's timer, which does nothing before the deadline.
unfoldable pub expire_context : ℤ → Context → Context
unfolding first_cause
expire_context now c =
    if leb_ℤ c.deadline now then record c { error = first_cause c.error deadline_exceeded } else c
