-- ===== src/TaskManager/Cases.antt =====
-- How Cancel and CancelAll of internal/taskmanager/taskmanager.go go: case rules for the proofs.
use native.Mathlib.Nat.{add-zero, add_assoc}
use agent_ssh.Base.{
  ℕ, ◌+◌, ◌≡◌, refl, Option, true, false, some, none, inl, inr, List, [], ◌∷◌, arith, get_elem?,
  Option-cases, Bool-cases,
}
use agent_ssh.Base.Int.{ℤ}
use agent_ssh.Base.Text.{Text}
use agent_ssh.TaskManager.Model.{
  TaskManager, Task, is_terminal, lookup, kill_at, cancel, cancel_if_live, cancel_all, cancel_at,
  cancel_each, Phase, spawned, executing, finished, begin, finish,
}
use agent_ssh.TaskManager.Events.{
  kill_count, kill_counts, is_spawned, is_executing, phase_at, step, begins, finishes,
}
use agent_ssh.Executor.Types.{ExecResult}

pub cancel_if_live_cases {ℓ} :
    (P : ℕ → TaskManager → Type ℓ) (now : ℤ) (p : ℕ) (s : TaskManager)
    → P 0 s
    → ((t : Task)
        → get_elem? s.heap p ≡ some t
        → is_terminal t.status ≡ false
        → P 1 (kill_at now p s))
    → P (kill_count (some p) s.heap) (cancel_if_live now p s)
unfolding cancel_if_live kill_count
cancel_if_live_cases P now p s same kills = elim (Option-cases (get_elem? s.heap p)) [
  | inl gone ↦ rw (gone, cancel_if_live, kill_count) same
  | inr (t, found) ↦ elim (Bool-cases (is_terminal t.status)) [
    | inl ended ↦ rw (found, cancel_if_live, kill_count) (rw ended same)
    | inr going ↦ rw (found, cancel_if_live, kill_count) (rw going (kills t found going))
  ]
]

cancel_at-found :
    (id : Text) (now : ℤ) (p : ℕ) (s : TaskManager)
    → (cancel_at id now (some p) s).0 ≡ cancel_if_live now p s
unfolding cancel_at cancel_if_live
cancel_at-found id now p s = ground arith

pub cancel_cases {ℓ} :
    (P : ℕ → TaskManager → Type ℓ) (id : Text) (now : ℤ) (s : TaskManager)
    → P 0 s
    → ((p : ℕ)
        → lookup id s.tasks ≡ some p
        → P (kill_count (some p) s.heap) (cancel_if_live now p s))
    → P (kill_count (lookup id s.tasks) s.heap) (cancel id now s).0
cancel_cases P id now s same found = elim (Option-cases (lookup id s.tasks)) [
  | inl gone ↦ rw gone (unfold cancel kill_count in rw (gone, cancel_at) same)
  | inr (p, at) ↦ rw at (unfold cancel in rw at (rw (cancel_at-found id now p s) (found p at)))
]

-- What each kill keeps, at the count of kills, holds after CancelAll.
module _ {ℓ} (P : ℕ → TaskManager → Type ℓ) (now : ℤ)
    (keep : (j p : ℕ) (u : TaskManager)
      → P j u
      → P (j + kill_count (some p) u.heap) (cancel_if_live now p u)) where
  cancel_each_induction :
      (m : List (Text × ℕ)) (k : ℕ) (s : TaskManager)
      → P k s
      → P (k + kill_counts now m s) (cancel_each now m s)
  unfolding cancel_each kill_counts
  cancel_each_induction [] k s h = rw add-zero h
  cancel_each_induction ((_, p) ∷ m) k s h = rw (← add_assoc k (kill_count (some p) s.heap) _) (
      cancel_each_induction m (k + kill_count (some p) s.heap) (cancel_if_live now p s)
        (keep k p s h))

  pub cancel_all_induction :
      (k : ℕ) (s : TaskManager) → P k s → P (k + kill_counts now s.tasks s) (cancel_all now s)
  unfolding cancel_all
  cancel_all_induction k s h = cancel_each_induction s.tasks k s h

spawned_of : (o : Option Phase) → is_spawned o ≡ true → o ≡ some spawned
spawned_of (some spawned) h = refl
spawned_of (some executing) h = cc
spawned_of (some finished) h = cc
spawned_of none h = cc

executing_of : (o : Option Phase) → is_executing o ≡ true → o ≡ some executing
executing_of (some executing) h = refl
executing_of (some spawned) h = cc
executing_of (some finished) h = cc
executing_of none h = cc

pub begins_cases {ℓ} :
    (P : TaskManager → Type ℓ) (now : ℤ) (p : ℕ) (s : TaskManager)
    → P s
    → (phase_at p s.heap ≡ some spawned → P (begin now p s))
    → P (step s (begins now p))
unfolding step
begins_cases P now p s same next = elim (Bool-cases (is_spawned (phase_at p s.heap))) [
  | inl ready ↦ rw ready (next (spawned_of (phase_at p s.heap) ready))
  | inr other ↦ rw other same
]

pub finishes_cases {ℓ} :
    (P : TaskManager → Type ℓ) (now : ℤ) (r : ExecResult) (p : ℕ) (s : TaskManager)
    → P s
    → (phase_at p s.heap ≡ some executing → P (finish now r p s))
    → P (step s (finishes now r p))
unfolding step
finishes_cases P now r p s same next = elim (Bool-cases (is_executing (phase_at p s.heap))) [
  | inl ready ↦ rw ready (next (executing_of (phase_at p s.heap) ready))
  | inr other ↦ rw other same
]
