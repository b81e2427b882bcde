-- ===== src/TaskManager/Commands.antt =====
-- The commands of the tasks of internal/taskmanager/taskmanager.go, with their directories: only Submit
-- brings a new one.
use agent_ssh.Base.{
  ℕ, zero, suc, ◌≡◌, inl, inr, refl, sym, subst, List, [], ◌∷◌, All, All-append, Bool-cases,
  Option-cases, get_elem?,
}
use agent_ssh.Base.Int.{ℤ, leb_ℤ}
use agent_ssh.Base.Text.{Text}
use agent_ssh.TaskManager.Model.{
  TaskManager, Task, submit, new_task, cancel, cancel_at, kill_at, kill_task, modify, is_terminal,
  lookup, begin, begin_task, finish, finish_task, cleanup,
}
use agent_ssh.TaskManager.Events.{
  Event, submits, begins, finishes, expires, cancels, cancels_all, cleans, expire_task, step,
}
use agent_ssh.TaskManager.Cases.{
  begins_cases, finishes_cases, cancel_if_live_cases, cancel_all_induction,
}

-- The command of a task and its directory.
abbrev pub work_of : Task → Text × Text
work_of t = (t.command, t.work_dir)

module _ (Good : Text × Text → Type 0) where
  All-modify :
      (f : Task → Task) (p : ℕ) (ts : List Task)
      → ((t : Task) → work_of (f t) ≡ work_of t)
      → All (λ (t : Task). Good (work_of t)) ts
      → All (λ (t : Task). Good (work_of t)) (modify f p ts)
  unfolding modify
  All-modify f p [] same g = tt
  All-modify f zero (t ∷ ts) same g = (subst Good (sym (same t)) g.0, g.1)
  All-modify f (suc p) (t ∷ ts) same g = (g.0, All-modify f p ts same g.1)

  pub submit-keeps :
      (id command dir : Text) (limit now : ℤ) (tm : TaskManager)
      → Good (command, dir)
      → All (λ (t : Task). Good (work_of t)) tm.heap
      → All (λ (t : Task). Good (work_of t)) (submit id command dir limit now tm).0.heap
  unfolding submit new_task
  submit-keeps id command dir limit now tm v g =
      elim (Bool-cases (leb_ℤ tm.max_running tm.running_count)) [
        | inl full ↦ rw (submit, full) g
        | inr free ↦
            rw (submit, free) (All-append (λ (t : Task). Good (work_of t)) tm.heap _ g (v, tt))
      ]

  pub cancel-keeps :
      (id : Text) (now : ℤ) (tm : TaskManager)
      → All (λ (t : Task). Good (work_of t)) tm.heap
      → All (λ (t : Task). Good (work_of t)) (cancel id now tm).0.heap
  unfolding cancel cancel_at kill_at kill_task
  cancel-keeps id now tm g = elim (Option-cases (lookup id tm.tasks)) [
    | inl f ↦ rw (cancel, f) g
    | inr (p, f) ↦ elim (Option-cases (get_elem? tm.heap p)) [
      | inl h ↦ rw (cancel, f, cancel_at, h) g
      | inr (t, h) ↦ elim (Bool-cases (is_terminal t.status)) [
        | inl d ↦ rw (cancel, f, cancel_at, h, d) g
        | inr d ↦
            rw (cancel, f, cancel_at, h, d) (All-modify (kill_task now) p tm.heap (λ t. refl) g)
      ]
    ]
  ]

  -- What an event brings is good.
  abbrev pub Brings : Event → Type 0
  Brings (submits id command dir limit now) = Good (command, dir)
  Brings _ = Unit

  pub step-keeps :
      (x : Event) (tm : TaskManager)
      → Brings x
      → All (λ (t : Task). Good (work_of t)) tm.heap
      → All (λ (t : Task). Good (work_of t)) (step tm x).heap
  unfolding step
  step-keeps (submits id command dir limit now) tm b g =
      submit-keeps id command dir limit now tm b g
  step-keeps (begins now p) tm b g =
      begins_cases (λ (u : TaskManager). All (λ (t : Task). Good (work_of t)) u.heap) now p tm g
        (λ _. unfold begin begin_task in All-modify (begin_task now) p tm.heap (λ t. refl) g)
  step-keeps (finishes now r p) tm b g =
      finishes_cases (λ (u : TaskManager). All (λ (t : Task). Good (work_of t)) u.heap) now r p tm g
        (λ _. unfold finish finish_task in All-modify (finish_task now r) p tm.heap (λ t. refl) g)
  step-keeps (expires now p) tm b g =
      All-modify (expire_task now) p tm.heap (λ t. unfold expire_task in refl) g
  step-keeps (cancels id now) tm b g = cancel-keeps id now tm g
  step-keeps (cleans now) tm b g = unfold cleanup in g
  step-keeps (cancels_all now) tm b g =
      cancel_all_induction (λ _ (u : TaskManager). All (λ (t : Task). Good (work_of t)) u.heap) now
        (λ _ p u h.
          cancel_if_live_cases (λ _ (v : TaskManager). All (λ (t : Task). Good (work_of t)) v.heap)
            now p u h
            (λ t _ _.
              unfold kill_at kill_task in All-modify (kill_task now) p u.heap (λ t. refl) h))
        0 tm g
