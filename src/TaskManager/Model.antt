-- ===== src/TaskManager/Model.antt =====
-- The state and the operations of internal/taskmanager/taskmanager.go. Task objects stand on a heap
-- in the order of their allocation, since the goroutine of a task and the map `tasks` share them;
-- the map takes an id to the object's place. `phase` is where the goroutine `go tm.runTask` stands.
-- A critical section under `mu` is one function, with the reading of the clock that it makes.
use agent_ssh.Base.{
  ℕ, zero, suc, Bool, true, false, ◌&&◌, Option, none, some, List, [], ◌∷◌, ◌++◌, if◌then◌else◌,
  length, get_elem?,
}
use agent_ssh.Base.Int.{ℤ, pos, ◌+ℤ◌, ◌-ℤ◌, ltb_ℤ, leb_ℤ}
use agent_ssh.Base.Result.{Result, ok, err}
use agent_ssh.Base.Text.{Text, text_eq}
use agent_ssh.Config.Types.{TaskManagerConfig}
use agent_ssh.Config.Load
use agent_ssh.Executor.Types.{ExecResult}
use agent_ssh.TaskManager.Context.{
  Context, ContextError, deadline_exceeded, with_timeout, cancel_context,
}

pub data TaskStatus : Type 0 where
  pending running completed failed killed timeout : TaskStatus

pub data Phase : Type 0 where
  spawned executing finished : Phase

pub record Task : Type 0 where
  pub id : Text
  pub command : Text
  pub work_dir : Text
  pub status : TaskStatus
  pub result : Option ExecResult
  pub created_at : ℤ
  pub updated_at : ℤ
  pub started_at : Option ℤ
  pub finished_at : Option ℤ
  pub context : Context
  pub phase : Phase

pub record TaskManager : Type 0 where
  pub heap : List Task
  pub tasks : List (Text × ℕ)
  pub max_running : ℤ
  pub retention : ℤ
  pub running_count : ℤ

pub data SubmitError : Type 0 where
  max_running_reached : ℤ → SubmitError

pub data LookupError : Type 0 where
  not_found : Text → LookupError

-- New of internal/taskmanager/taskmanager.go.
unfoldable pub new : TaskManagerConfig → TaskManager
new cfg = record {
  heap = [];
  tasks = [];
  max_running = cfg.max_running_tasks;
  retention = Load.retention cfg;
  running_count = pos 0;
}

unfoldable pub lookup : Text → List (Text × ℕ) → Option ℕ
lookup k [] = none
lookup k ((j, p) ∷ m) = if text_eq j k then some p else lookup k m

-- `m[k] = p`
unfoldable pub insert : Text → ℕ → List (Text × ℕ) → List (Text × ℕ)
insert k p [] = (k, p) ∷ []
insert k p ((j, q) ∷ m) = if text_eq j k then (k, p) ∷ m else (j, q) ∷ insert k p m

-- A write through the pointer at place p.
unfoldable pub modify : (Task → Task) → ℕ → List Task → List Task
modify f p [] = []
modify f zero (t ∷ ts) = f t ∷ ts
modify f (suc p) (t ∷ ts) = t ∷ modify f p ts

abbrev pub is_terminal : TaskStatus → Bool
is_terminal completed = true
is_terminal failed = true
is_terminal killed = true
is_terminal timeout = true
is_terminal _ = false

unfoldable pub new_task : Text → Text → Text → ℤ → ℤ → Task
unfolding with_timeout
new_task id command work_dir limit now = record {
  id = id;
  command = command;
  work_dir = work_dir;
  status = pending;
  result = none;
  created_at = now;
  updated_at = now;
  started_at = none;
  finished_at = none;
  context = with_timeout now limit;
  phase = spawned;
}

-- Submit up to and including `go tm.runTask`; the id is that of executor.GenerateTaskID.
unfoldable pub submit :
    Text → Text → Text → ℤ → ℤ → TaskManager → TaskManager × Result SubmitError Text
unfolding new_task
submit id command work_dir limit now tm =
    if leb_ℤ tm.max_running tm.running_count
    then (tm, err (max_running_reached tm.max_running))
    else (
      record tm {
        heap = tm.heap ++ new_task id command work_dir limit now ∷ [];
        tasks = insert id (length tm.heap) tm.tasks;
        running_count = tm.running_count +ℤ pos 1;
      },
      ok id,
    )

unfoldable pub or_missing : Text → Option Task → Result LookupError Task
or_missing id none = err (not_found id)
or_missing id (some t) = ok t

unfoldable pub deref : List Task → Option ℕ → Option Task
deref heap none = none
deref heap (some p) = get_elem? heap p

unfoldable pub get : Text → TaskManager → Result LookupError Task
unfolding or_missing deref
get id tm = or_missing id (deref tm.heap (lookup id tm.tasks))

-- `task.cancel(); task.Status = TaskKilled; task.UpdatedAt = time.Now()`
unfoldable pub kill_task : ℤ → Task → Task
unfolding cancel_context
kill_task now t = record t { context = cancel_context t.context; status = killed; updated_at = now }

unfoldable pub kill_at : ℤ → ℕ → TaskManager → TaskManager
kill_at now p tm = record tm {
  heap = modify (kill_task now) p tm.heap;
  running_count = tm.running_count -ℤ pos 1;
}

unfoldable pub cancel_at : Text → ℤ → Option ℕ → TaskManager → TaskManager × Result LookupError Task
unfolding kill_at
cancel_at id now none tm = (tm, err (not_found id))
cancel_at id now (some p) tm = elim (get_elem? tm.heap p) [
  | none ↦ (tm, err (not_found id))
  | some t ↦ if is_terminal t.status then (tm, ok t) else (kill_at now p tm, ok (kill_task now t))
]

unfoldable pub cancel : Text → ℤ → TaskManager → TaskManager × Result LookupError Task
unfolding cancel_at
cancel id now tm = cancel_at id now (lookup id tm.tasks) tm

-- The body of the loop of CancelAll, for the task at place p.
unfoldable pub cancel_if_live : ℤ → ℕ → TaskManager → TaskManager
cancel_if_live now p tm = elim (get_elem? tm.heap p) [
  | none ↦ tm
  | some t ↦ if is_terminal t.status then tm else kill_at now p tm
]

unfoldable pub cancel_each : ℤ → List (Text × ℕ) → TaskManager → TaskManager
cancel_each now [] tm = tm
cancel_each now ((k, p) ∷ m) tm = cancel_each now m (cancel_if_live now p tm)

unfoldable pub cancel_all : ℤ → TaskManager → TaskManager
unfolding cancel_each
cancel_all now tm = cancel_each now tm.tasks tm

-- The first critical section of runTask.
unfoldable pub begin_task : ℤ → Task → Task
begin_task now t = record t {
  status = running;
  started_at = some now;
  updated_at = now;
  phase = executing;
}

unfoldable pub final_status : Option ContextError → TaskStatus → ℤ → TaskStatus
final_status (some deadline_exceeded) status code = timeout
final_status _ killed code = killed
final_status _ status (pos zero) = completed
final_status _ status _ = failed

-- The second critical section of runTask, but for the counter.
unfoldable pub finish_task : ℤ → ExecResult → Task → Task
unfolding final_status
finish_task now result t = record t {
  result = some result;
  finished_at = some now;
  updated_at = now;
  status = final_status t.context.error t.status result.exit_code;
  phase = finished;
}

unfoldable pub begin : ℤ → ℕ → TaskManager → TaskManager
begin now p tm = record tm { heap = modify (begin_task now) p tm.heap }

unfoldable pub finish : ℤ → ExecResult → ℕ → TaskManager → TaskManager
finish now result p tm = record tm {
  heap = modify (finish_task now result) p tm.heap;
  running_count = tm.running_count -ℤ pos 1;
}

-- `task.FinishedAt != nil && task.FinishedAt.Before(cutoff)` for a task that has ended.
unfoldable pub is_expired : ℤ → Task → Bool
is_expired cutoff t =
    is_terminal t.status && (elim t.finished_at [ none ↦ false | some at ↦ ltb_ℤ at cutoff ])

unfoldable pub expired_at : ℤ → Option Task → Bool
expired_at cutoff none = false
expired_at cutoff (some t) = is_expired cutoff t

unfoldable pub sweep : ℤ → List Task → List (Text × ℕ) → List (Text × ℕ)
unfolding expired_at
sweep cutoff heap [] = []
sweep cutoff heap ((k, p) ∷ m) =
    let rest = sweep cutoff heap m in
    if expired_at cutoff (get_elem? heap p) then rest else (k, p) ∷ rest

unfoldable pub cleanup : ℤ → TaskManager → TaskManager
cleanup now tm = record tm { tasks = sweep (now -ℤ tm.retention) tm.heap tm.tasks }
