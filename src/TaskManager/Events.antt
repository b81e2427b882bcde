-- ===== src/TaskManager/Events.antt =====
-- Histories of the task manager of internal/taskmanager/taskmanager.go. The requests, the two
-- sections of each runTask goroutine, the contexts' timers, the cleanup ticker and CancelAll may come
-- in any order; a goroutine runs its sections in their order, once each.
use agent_ssh.Base.{
  ℕ, ◌+◌, Bool, true, false, Option, none, some, List, [], ◌∷◌, if◌then◌else◌, get_elem?,
}
use agent_ssh.Base.Int.{ℤ}
use agent_ssh.Base.Text.{Text}
use agent_ssh.Executor.Types.{ExecResult}
use agent_ssh.TaskManager.Context.{expire_context}
use agent_ssh.TaskManager.Model.{
  TaskManager, Task, Phase, spawned, executing, finished, is_terminal, lookup, modify, submit,
  cancel, cancel_if_live, cancel_all, begin, finish, cleanup,
}

pub data Event : Type 0 where
  submits : Text → Text → Text → ℤ → ℤ → Event
  begins : ℤ → ℕ → Event
  finishes : ℤ → ExecResult → ℕ → Event
  expires : ℤ → ℕ → Event
  cancels : Text → ℤ → Event
  cancels_all : ℤ → Event
  cleans : ℤ → Event

abbrev pub phase_at : ℕ → List Task → Option Phase
phase_at p heap = elim (get_elem? heap p) [ none ↦ none | some t ↦ some t.phase ]

unfoldable pub expire_task : ℤ → Task → Task
expire_task now t = record t { context = expire_context now t.context }

abbrev pub is_spawned : Option Phase → Bool
is_spawned (some spawned) = true
is_spawned _ = false

abbrev pub is_executing : Option Phase → Bool
is_executing (some executing) = true
is_executing _ = false

-- A section that is not the goroutine's next one does not run. The second one is given whatever result
-- there is; which one the call between the sections returns is run_command of TaskManager/Races.
unfoldable pub step : TaskManager → Event → TaskManager
step s (submits id command work_dir limit now) = (submit id command work_dir limit now s).0
step s (begins now p) = if is_spawned (phase_at p s.heap) then begin now p s else s
step s (finishes now result p) =
    if is_executing (phase_at p s.heap) then finish now result p s else s
step s (expires now p) = record s { heap = modify (expire_task now) p s.heap }
step s (cancels id now) = (cancel id now s).0
step s (cancels_all now) = cancel_all now s
step s (cleans now) = cleanup now s

unfoldable pub run : TaskManager → List Event → TaskManager
run s [] = s
run s (e ∷ es) = run (step s e) es

-- The tasks whose goroutine has not ended.
abbrev pub is_live : Task → ℕ
is_live t = elim t.phase [ finished ↦ 0 | _ ↦ 1 ]

unfoldable pub live : List Task → ℕ
live [] = 0
live (t ∷ ts) = is_live t + live ts

-- 1 if the task at place p has not ended by its status, so that a cancellation kills it.
unfoldable pub kill_count : Option ℕ → List Task → ℕ
kill_count none heap = 0
kill_count (some p) heap = elim (get_elem? heap p) [
  | none ↦ 0
  | some t ↦ if is_terminal t.status then 0 else 1
]

unfoldable pub kill_counts : ℤ → List (Text × ℕ) → TaskManager → ℕ
kill_counts now [] s = 0
kill_counts now ((k, p) ∷ m) s =
    kill_count (some p) s.heap + kill_counts now m (cancel_if_live now p s)

-- How many tasks an event kills by Cancel or CancelAll.
unfoldable pub kills_of : TaskManager → Event → ℕ
kills_of s (cancels id now) = kill_count (lookup id s.tasks) s.heap
kills_of s (cancels_all now) = kill_counts now s.tasks s
kills_of s _ = 0

unfoldable pub kills : TaskManager → List Event → ℕ
kills s [] = 0
kills s (e ∷ es) = kills_of s e + kills (step s e) es
