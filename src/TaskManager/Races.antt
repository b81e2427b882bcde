-- ===== src/TaskManager/Races.antt =====
-- Cancel and Submit of internal/taskmanager/taskmanager.go against the goroutine of runTask.
use agent_ssh.Base.{
  ℕ, zero, suc, ◌≡◌, refl, ap, true, false, none, some, List, [], ◌∷◌, arith, get_elem?,
  if◌then◌else◌,
}
use agent_ssh.Base.Int.{ℤ, pos, ◌-ℤ◌}
use agent_ssh.Base.Text.{Text}
use agent_ssh.Config.Types.{ExecutorConfig}
use agent_ssh.Executor.Types.{ExecResult}
use agent_ssh.Executor.Run.{Process, StartError, failed_start, execute_with_id}
use agent_ssh.TaskManager.Context.{canceled, cancel_context}
use agent_ssh.TaskManager.Model.{
  TaskManager, Task, spawned, executing, pending, running, failed, killed, is_terminal, lookup,
  modify, cancel, cancel_at, kill_task, kill_at, begin_task, begin, finish_task, finish,
  final_status,
}
use agent_ssh.TaskManager.Events.{
  begins, finishes, cancels, step, run, is_spawned, is_executing, phase_at,
}

pub get_elem?-modify :
    (f : Task → Task) (p : ℕ) (ts : List Task) (t : Task)
    → get_elem? ts p ≡ some t
    → get_elem? (modify f p ts) p ≡ some (f t)
unfolding modify
get_elem?-modify f p [] t h = ground arith
get_elem?-modify f zero (x ∷ ts) t h = cc
get_elem?-modify f (suc p) (x ∷ ts) t h = get_elem?-modify f p ts t h

spawned_at :
    (p : ℕ) (s : TaskManager) (t : Task)
    → get_elem? s.heap p ≡ some t
    → t.phase ≡ spawned
    → is_spawned (phase_at p s.heap) ≡ true
spawned_at p s t at e = ground arith

executing_at :
    (p : ℕ) (s : TaskManager) (t : Task)
    → get_elem? s.heap p ≡ some t
    → t.phase ≡ executing
    → is_executing (phase_at p s.heap) ≡ true
executing_at p s t at e = ground arith

-- What the call of ExecuteWithID between the two sections of runTask returns for the task at place p,
-- by the context of the task at the start: where it is done already, cmd.Start fails with its error and
-- the command does not run. `world` runs a command under a context that is not done.
unfoldable pub run_command :
    (Text → Text → ℤ → Process) → ExecutorConfig → StartError → ℤ → ℤ → ℕ → TaskManager → ExecResult
run_command world cfg x ms limit p s = elim (get_elem? s.heap p) [
  | none ↦ failed_start x ms
  | some t ↦ elim t.context.error [
    | some _ ↦ failed_start x ms
    | none ↦ execute_with_id t.id world cfg t.work_dir t.command limit
  ]
]

run_command-done :
    (world : Text → Text → ℤ → Process) (cfg : ExecutorConfig) (x : StartError) (ms limit : ℤ)
    (p : ℕ) (s : TaskManager) (t : Task)
    → get_elem? s.heap p ≡ some t
    → t.context.error ≡ some canceled
    → run_command world cfg x ms limit p s ≡ failed_start x ms
unfolding run_command
run_command-done world cfg x ms limit p s t at e = rw (at, run_command, e) refl

-- The first section of a goroutine that has just been started.
pub begins-spawned :
    (now : ℤ) (p : ℕ) (s : TaskManager) (t : Task)
    → get_elem? s.heap p ≡ some t
    → t.phase ≡ spawned
    → step s (begins now p) ≡ begin now p s
unfolding step
begins-spawned now p s t at e = ap (λ b. if b then begin now p s else s) (spawned_at p s t at e)

pub finishes-executing :
    (now : ℤ) (r : ExecResult) (p : ℕ) (s : TaskManager) (t : Task)
    → get_elem? s.heap p ≡ some t
    → t.phase ≡ executing
    → step s (finishes now r p) ≡ finish now r p s
unfolding step
finishes-executing now r p s t at e =
    ap (λ b. if b then finish now r p s else s) (executing_at p s t at e)

pub cancels-going :
    (id : Text) (now : ℤ) (p : ℕ) (s : TaskManager) (t : Task)
    → lookup id s.tasks ≡ some p
    → get_elem? s.heap p ≡ some t
    → is_terminal t.status ≡ false
    → step s (cancels id now) ≡ kill_at now p s
unfolding step cancel
cancels-going id now p s t l at e = rw (l, step, cancel, cancel_at) (rw at (rw e))

pub kill_at-get :
    (now : ℤ) (p : ℕ) (s : TaskManager) (t : Task)
    → get_elem? s.heap p ≡ some t
    → get_elem? (kill_at now p s).heap p ≡ some (kill_task now t)
unfolding kill_at
kill_at-get now p s t at = get_elem?-modify (kill_task now) p s.heap t at

pub begin-get :
    (now : ℤ) (p : ℕ) (s : TaskManager) (t : Task)
    → get_elem? s.heap p ≡ some t
    → get_elem? (begin now p s).heap p ≡ some (begin_task now t)
unfolding begin
begin-get now p s t at = get_elem?-modify (begin_task now) p s.heap t at

pub finish-get :
    (now : ℤ) (r : ExecResult) (p : ℕ) (s : TaskManager) (t : Task)
    → get_elem? s.heap p ≡ some t
    → get_elem? (finish now r p s).heap p ≡ some (finish_task now r t)
unfolding finish
finish-get now r p s t at = get_elem?-modify (finish_task now r) p s.heap t at

-- The goroutine of a task that stands at its start, run to its end with nothing in between.
pub run_goroutine :
    (b f : ℤ) (r : ExecResult) (p : ℕ) (s : TaskManager) (t : Task)
    → get_elem? s.heap p ≡ some t
    → t.phase ≡ spawned
    → run s (begins b p ∷ finishes f r p ∷ []) ≡ finish f r p (begin b p s)
unfolding run
run_goroutine b f r p s t at e = rw (begins-spawned b p s t at e) (
    finishes-executing f r p (begin b p s) (begin_task b t) (begin-get b p s t at)
      (unfold begin_task in refl))

module _ (id : Text) (p : ℕ) (s : TaskManager) (t : Task) (named : lookup id s.tasks ≡ some p)
    (stored : get_elem? s.heap p ≡ some t) (untouched : t.context.error ≡ none) where
  -- A task that Get finds and whose context is not done, if it is cancelled while its command runs,
  -- ends killed, whatever the command returns. The counter goes down by two for this one task: once in
  -- Cancel and once more in runTask.
  pub cancel_while_running :
      (c f : ℤ) (r : ExecResult)
      → t.phase ≡ executing
      → t.status ≡ running
      → let v = run s (cancels id c ∷ finishes f r p ∷ []) in
        (u : Task) × (get_elem? v.heap p ≡ some u)
        × (u.status ≡ killed)
        × (u.result ≡ some r)
        × (v.running_count ≡ s.running_count -ℤ pos 1 -ℤ pos 1)
  unfolding run
  cancel_while_running c f r ph st = rw (cancels-going id c p s t named stored (rw st refl)) (
      rw
        (finishes-executing f r p (kill_at c p s) (kill_task c t) (kill_at-get c p s t stored)
          (unfold kill_task in ph))
        (
          finish_task f r (kill_task c t),
          finish-get f r p (kill_at c p s) (kill_task c t) (kill_at-get c p s t stored),
          unfold finish_task kill_task cancel_context in rw (untouched, final_status) refl,
          unfold finish_task in refl,
          unfold finish kill_at in refl,
        ))

  -- A task that Get finds and whose context is not done, if it is cancelled between Submit and the
  -- start of its goroutine, does not end killed: its goroutine makes it running again, its command
  -- never starts, since its context is done, and it ends failed with that error as its result. The
  -- counter goes down by two.
  pub cancel_before_begin :
      (c b f : ℤ) (world : Text → Text → ℤ → Process) (cfg : ExecutorConfig) (x : StartError)
      (ms limit : ℤ)
      → t.phase ≡ spawned
      → t.status ≡ pending
      → let began = run s (cancels id c ∷ begins b p ∷ []) in
        let r = run_command world cfg x ms limit p began in
        let v = step began (finishes f r p) in
        (u : Task) × (get_elem? v.heap p ≡ some u)
        × (u.status ≡ failed)
        × (u.result ≡ some (failed_start x ms))
        × (v.running_count ≡ s.running_count -ℤ pos 1 -ℤ pos 1)
  unfolding run
  cancel_before_begin c b f world cfg x ms limit ph st =
      let kill = kill_at-get c p s t stored in
      let began = begin-get b p (kill_at c p s) _ kill in
      rw (cancels-going id c p s t named stored (rw st refl)) (
        rw (begins-spawned b p (kill_at c p s) (kill_task c t) kill (unfold kill_task in ph)) (
          rw
            (run_command-done world cfg x ms limit p (begin b p (kill_at c p s)) _ began
              (unfold begin_task kill_task cancel_context in rw untouched refl))
            (rw
              (finishes-executing f (failed_start x ms) p (begin b p (kill_at c p s)) _ began
                (unfold begin_task in refl))
              (
                finish_task f (failed_start x ms) (begin_task b (kill_task c t)),
                finish-get f (failed_start x ms) p (begin b p (kill_at c p s)) _ began,
                unfold finish_task begin_task kill_task cancel_context failed_start in
                    rw (untouched, final_status) refl,
                unfold finish_task in refl,
                unfold finish begin kill_at in refl,
              ))))
