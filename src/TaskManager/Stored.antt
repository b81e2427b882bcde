-- ===== src/TaskManager/Stored.antt =====
-- The map of internal/taskmanager/taskmanager.go names objects that are there, over all histories.
use mathlib.Core.Option.{some-injective}
use agent_ssh.Base.{
  ℕ, zero, suc, ◌≡◌, refl, subst, some, List, [], ◌∷◌, ◌++◌, inl, inr, Bool-cases, get_elem?,
  length, get_elem?-length, get_elem?-append_one, All, All-mono,
}
use agent_ssh.Base.Int.{ℤ, ◌-ℤ◌, leb_ℤ}
use agent_ssh.Base.Text.{Text, text_eq}
use agent_ssh.Config.Types.{TaskManagerConfig}
use agent_ssh.TaskManager.Model.{
  TaskManager, Task, new, new_task, lookup, insert, modify, submit, kill_at, kill_task,
  cancel_if_live, begin, begin_task, finish, finish_task, sweep, expired_at, cleanup,
}
use agent_ssh.TaskManager.Events.{
  Event, submits, begins, finishes, expires, cancels, cancels_all, cleans, expire_task, step, run,
}
use agent_ssh.TaskManager.Cases.{
  cancel_if_live_cases, cancel_cases, cancel_all_induction, begins_cases, finishes_cases,
}
use agent_ssh.TaskManager.Admission.{IsStored}

abbrev Has : List Task → Text × ℕ → Type 0
Has heap (_, p) = (t : Task) × (get_elem? heap p ≡ some t)

abbrev Names : TaskManager → Type 0
Names s = All (Has s.heap) s.tasks

modify-Has :
    (f : Task → Task) (q : ℕ) (heap : List Task) (p : ℕ) (t : Task)
    → get_elem? heap p ≡ some t
    → (u : Task) × (get_elem? (modify f q heap) p ≡ some u)
unfolding modify
modify-Has f q [] p t h = (t, h)
modify-Has f zero (x ∷ heap) zero t h = (f x, refl)
modify-Has f zero (x ∷ heap) (suc p) t h = (t, h)
modify-Has f (suc q) (x ∷ heap) zero t h = (t, h)
modify-Has f (suc q) (x ∷ heap) (suc p) t h = modify-Has f q heap p t h

modify-Names :
    (f : Task → Task) (q : ℕ) (heap : List Task) (m : List (Text × ℕ))
    → All (Has heap) m
    → All (Has (modify f q heap)) m
modify-Names f q heap m h =
    All-mono (Has heap) (Has (modify f q heap)) m (λ (_, p) (t, at). modify-Has f q heap p t at) h

insert-Names :
    (heap : List Task) (k : Text) (p : ℕ) (m : List (Text × ℕ))
    → Has heap (k, p)
    → All (Has heap) m
    → All (Has heap) (insert k p m)
unfolding insert
insert-Names heap k p [] a h = (a, tt)
insert-Names heap k p ((j, q) ∷ m) a h = elim (Bool-cases (text_eq j k)) [
  | inl e ↦ rw e (a, h.1)
  | inr e ↦ rw e (h.0, insert-Names heap k p m a h.1)
]

sweep-Names :
    (cutoff : ℤ) (heap : List Task) (m : List (Text × ℕ))
    → All (Has heap) m
    → All (Has heap) (sweep cutoff heap m)
unfolding sweep
sweep-Names cutoff heap [] h = tt
sweep-Names cutoff heap ((k, p) ∷ m) h = elim (Bool-cases (expired_at cutoff (get_elem? heap p))) [
  | inl e ↦ rw e (sweep-Names cutoff heap m h.1)
  | inr e ↦ rw e (h.0, sweep-Names cutoff heap m h.1)
]

submit-Names :
    (id command work_dir : Text) (limit now : ℤ) (s : TaskManager)
    → Names s
    → Names (submit id command work_dir limit now s).0
unfolding submit
submit-Names id command work_dir limit now s h =
    let t = new_task id command work_dir limit now in
    elim (Bool-cases (leb_ℤ s.max_running s.running_count)) [
      | inl full ↦ rw full h
      | inr room ↦ rw room (
          insert-Names (s.heap ++ t ∷ []) id (length s.heap) s.tasks (t, get_elem?-length s.heap t)
            (All-mono (Has s.heap) (Has (s.heap ++ t ∷ [])) s.tasks
              (λ (_, p) (u, at). (u, get_elem?-append_one s.heap p u t at)) h))
    ]

kill-Names : (now : ℤ) (p : ℕ) (s : TaskManager) → Names s → Names (cancel_if_live now p s)
kill-Names now p s h =
    cancel_if_live_cases (λ _ u. Names u) now p s h
      (λ _ _ _. unfold kill_at in modify-Names (kill_task now) p s.heap s.tasks h)

step-Names : (s : TaskManager) (e : Event) → Names s → Names (step s e)
unfolding step
step-Names s (submits id command work_dir limit now) h =
    submit-Names id command work_dir limit now s h
step-Names s (begins now p) h =
    begins_cases Names now p s h
      (λ _. unfold begin in modify-Names (begin_task now) p s.heap s.tasks h)
step-Names s (finishes now r p) h =
    finishes_cases Names now r p s h
      (λ _. unfold finish in modify-Names (finish_task now r) p s.heap s.tasks h)
step-Names s (expires now p) h = modify-Names (expire_task now) p s.heap s.tasks h
step-Names s (cancels id now) h =
    cancel_cases (λ _ u. Names u) id now s h (λ p _. kill-Names now p s h)
step-Names s (cancels_all now) h =
    cancel_all_induction (λ _ u. Names u) now (λ _ p u k. kill-Names now p u k) 0 s h
step-Names s (cleans now) h = unfold cleanup in sweep-Names (now -ℤ s.retention) s.heap s.tasks h

run-Names : (s : TaskManager) (es : List Event) → Names s → Names (run s es)
unfolding run
run-Names s [] h = h
run-Names s (e ∷ es) h = run-Names (step s e) es (step-Names s e h)

Names-lookup :
    (heap : List Task) (m : List (Text × ℕ)) (j : Text) (p : ℕ)
    → All (Has heap) m
    → lookup j m ≡ some p
    → (t : Task) × (get_elem? heap p ≡ some t)
unfolding lookup
Names-lookup heap [] j p h e = cc
Names-lookup heap ((k, q) ∷ m) j p h e = elim (Bool-cases (text_eq k j)) [
  | inl a ↦ subst (λ x. Has heap (k, x)) (some-injective q p (rw a at e)) h.0
  | inr a ↦ Names-lookup heap m j p h.1 (rw a at e)
]

-- After any history of a new manager, every id of the map names an object.
pub run-IsStored : (cfg : TaskManagerConfig) (es : List Event) → IsStored (run (new cfg) es)
run-IsStored cfg es j p e =
    let s = run (new cfg) es in
    Names-lookup s.heap s.tasks j p (run-Names (new cfg) es (unfold new in tt)) e
