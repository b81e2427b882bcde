-- ===== src/TaskManager/Tests.antt =====
-- Runs of the model of internal/taskmanager/taskmanager.go at concrete inputs.
use agent_ssh.Base.{
  ◌≡◌, ◌≢◌, refl, ◌⊎◌, true, false, none, some, List, [], ◌∷◌, ◌++◌, arith, get_elem?,
}
use agent_ssh.Base.Int.{pos, ◌+ℤ◌, ◌-ℤ◌, ◌≤ℤ◌}
use agent_ssh.Base.Result.{ok, err}
use agent_ssh.Base.Text.{Text, codes, text_eq}
use agent_ssh.Config.Types.{TaskManagerConfig, default_config}
use agent_ssh.Executor.Types.{ExecResult}
use agent_ssh.Executor.Run.{Process, StartError, start_command, failed_start}
use agent_ssh.TaskManager.Context.{canceled, with_timeout, cancel_context}
use agent_ssh.TaskManager.Model.{
  TaskManager, Task, spawned, executing, finished, pending, running, failed, killed, timeout,
  is_terminal, lookup, new, submit, new_task, insert, modify, begin, begin_task, cancel, cancel_at,
  kill_at, kill_task, finish, finish_task, final_status, get, max_running_reached, cleanup,
}
use agent_ssh.TaskManager.Events.{Event, submits, begins, finishes, cancels, step, run, live, kills}
use agent_ssh.TaskManager.Count.{running_count_exact}
use agent_ssh.TaskManager.Settled.{settled_forever}
use agent_ssh.TaskManager.Admission.{IsStored, submit_lem, submit_without_time, cancel_overcommits}
use agent_ssh.TaskManager.Retention.{forget_ended, get-cleanup}
use agent_ssh.TaskManager.Races.{run_command, cancel_while_running, cancel_before_begin}

abbrev one_at_a_time : TaskManagerConfig
one_at_a_time = record { max_running_tasks = pos 1; retention_minutes = pos 1 }

abbrev job : Text
job = codes "job-1"

abbrev submission : Event
submission = submits job (codes "ls") [] (pos 1000) (pos 5)

abbrev result : ExecResult
result = record {
  exit_code = pos 0;
  stdout = codes "a";
  stderr = [];
  duration = pos 1;
  truncated = false;
}

-- The command is cancelled while it runs, and its goroutine ends later.
abbrev history : List Event
history = submission ∷ begins (pos 6) 0 ∷ cancels job (pos 7) ∷ finishes (pos 8) result 0 ∷ []

running_count_exact_example :
    let s = run (new one_at_a_time) history in
    let k = kills (new one_at_a_time) history in
    (s.running_count +ℤ pos k ≡ pos (live s.heap))
    × (pos (live s.heap) ≤ℤ one_at_a_time.max_running_tasks +ℤ pos k)
running_count_exact_example = running_count_exact one_at_a_time history (omega arith)

-- The task as the history leaves it.
abbrev ended : Task
ended = record {
  id = job;
  command = codes "ls";
  work_dir = [];
  status = killed;
  result = some result;
  created_at = pos 5;
  updated_at = pos 8;
  started_at = some (pos 6);
  finished_at = some (pos 8);
  context = record { deadline = pos 1005; error = some canceled };
  phase = finished;
}

history_ends : get_elem? (run (new one_at_a_time) history).heap 0 ≡ some ended
unfolding run step new submit new_task with_timeout insert modify begin begin_task cancel cancel_at
    kill_at kill_task lookup text_eq finish finish_task final_status cancel_context ◌+ℤ◌
history_ends = refl

settled_forever_example :
    (u : Task) × (get_elem?
        (run (run (new one_at_a_time) history) (cancels job (pos 9) ∷ [])).heap
        0
      ≡ some u)
    × (u.id ≡ ended.id)
    × (u.command ≡ ended.command)
    × (u.work_dir ≡ ended.work_dir)
    × (u.created_at ≡ ended.created_at)
    × (ended.phase ≡ finished
        → (is_terminal ended.status ≡ true)
          × (ended.result ≢ none)
          × (ended.finished_at ≢ none)
          × (u.status ≡ ended.status)
          × (u.result ≡ ended.result)
          × (u.finished_at ≡ ended.finished_at))
settled_forever_example =
    settled_forever one_at_a_time history (cancels job (pos 9) ∷ []) 0 ended history_ends

-- An empty manager that takes one task at a time.
abbrev idle : TaskManager
idle = record {
  heap = [];
  tasks = [];
  max_running = pos 1;
  retention = pos 60;
  running_count = pos 0;
}

idle-IsStored : IsStored idle
unfolding lookup
idle-IsStored j p h = cc

submit_lem_example :
    let (after, answer) = submit job (codes "ls") [] (pos 1000) (pos 5) idle in
    ((idle.max_running ≤ℤ idle.running_count)
      × (after ≡ idle)
      × (answer ≡ err (max_running_reached idle.max_running)))
    ⊎ ((idle.running_count +ℤ pos 1 ≤ℤ idle.max_running)
        × (answer ≡ ok job)
        × (after.running_count ≡ idle.running_count +ℤ pos 1)
        × (t : Task) × (after.heap ≡ idle.heap ++ t ∷ [])
        × (get job after ≡ ok t)
        × (t.id ≡ job)
        × (t.status ≡ pending)
        × (t.command ≡ codes "ls")
        × (t.work_dir ≡ [])
        × (t.created_at ≡ pos 5)
        × ((j : Text) → text_eq job j ≡ false → get j after ≡ get j idle))
submit_lem_example = submit_lem job (codes "ls") [] (pos 1000) (pos 5) idle idle-IsStored

submit_without_time_example :
    let v = run idle (
      submits job (codes "ls") [] (pos 0) (pos 5)
      ∷ begins (pos 6) 0
      ∷ finishes (pos 7) result 0
      ∷ []) in
    (u : Task) × (get_elem? v.heap 0 ≡ some u) × (u.status ≡ timeout)
submit_without_time_example =
    submit_without_time job (codes "ls") [] (pos 0) (pos 5) idle (pos 6) (pos 7) result
      (omega arith) refl

abbrev waiting : Task
waiting = record {
  id = job;
  command = codes "ls";
  work_dir = [];
  status = pending;
  result = none;
  created_at = pos 5;
  updated_at = pos 5;
  started_at = none;
  finished_at = none;
  context = record { deadline = pos 1005; error = none };
  phase = spawned;
}

abbrev at_work : Task
at_work = record waiting { status = running; started_at = some (pos 6); phase = executing }

-- The manager of one task.
abbrev busy : Task → TaskManager
busy t = record {
  heap = t ∷ [];
  tasks = (job, 0) ∷ [];
  max_running = pos 1;
  retention = pos 60;
  running_count = pos 1;
}

job_found : lookup job ((job, 0) ∷ []) ≡ some 0
unfolding lookup text_eq
job_found = refl

one_live : pos (live (at_work ∷ [])) ≡ pos 1
unfolding live
one_live = refl

cancel_overcommits_example :
    let v =
      run
        (busy at_work)
        (cancels job (pos 7) ∷ submits (codes "b") (codes "ls") [] (pos 9) (pos 8) ∷ []) in
    (pos (live v.heap) ≡ (busy at_work).max_running +ℤ pos 1)
    × (v.running_count ≡ (busy at_work).max_running)
cancel_overcommits_example =
    cancel_overcommits job 0 at_work (pos 7) (codes "b") (codes "ls") [] (pos 9) (pos 8)
      (busy at_work) job_found refl refl refl one_live

cancel_while_running_example :
    let v = run (busy at_work) (cancels job (pos 7) ∷ finishes (pos 8) result 0 ∷ []) in
    (u : Task) × (get_elem? v.heap 0 ≡ some u)
    × (u.status ≡ killed)
    × (u.result ≡ some result)
    × (v.running_count ≡ (busy at_work).running_count -ℤ pos 1 -ℤ pos 1)
cancel_while_running_example =
    cancel_while_running job 0 (busy at_work) at_work job_found refl refl (pos 7) (pos 8) result
      refl refl

-- The command writes one byte, if it starts.
abbrev quick : Process
quick = record {
  failure = none;
  stdout = codes "x";
  stderr = [];
  wait_error = none;
  deadline_exceeded = false;
  milliseconds = pos 1;
}

abbrev done : StartError
done = start_command (codes "context canceled")

cancel_before_begin_example :
    let began = run (busy waiting) (cancels job (pos 6) ∷ begins (pos 7) 0 ∷ []) in
    let r = run_command (λ _ _ _. quick) default_config.executor done (pos 2) (pos 9) 0 began in
    let v = step began (finishes (pos 8) r 0) in
    (u : Task) × (get_elem? v.heap 0 ≡ some u)
    × (u.status ≡ failed)
    × (u.result ≡ some (failed_start done (pos 2)))
    × (v.running_count ≡ (busy waiting).running_count -ℤ pos 1 -ℤ pos 1)
cancel_before_begin_example =
    cancel_before_begin job 0 (busy waiting) waiting job_found refl refl (pos 6) (pos 7) (pos 8)
      (λ _ _ _. quick) default_config.executor done (pos 2) (pos 9) refl refl

get-cleanup_example :
    let s = run (new one_at_a_time) history in
    get job (cleanup (pos 90000000000) s)
    ≡ forget_ended job (pos 90000000000 -ℤ s.retention) (get job s)
get-cleanup_example = get-cleanup one_at_a_time history job (pos 90000000000)
