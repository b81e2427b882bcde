-- ===== src/TaskManager/Count.antt =====
-- What `runningCount` of internal/taskmanager/taskmanager.go counts, over all histories.
use native.Mathlib.Nat.{add-zero, add_assoc}
use agent_ssh.TaskManager.Cases.{
  cancel_if_live_cases, cancel_cases, cancel_all_induction, begins_cases, finishes_cases,
}
use agent_ssh.Base.{
  ℕ, zero, suc, ◌+◌, ◌≡◌, refl, false, some, List, [], ◌∷◌, ◌++◌, arith, inl, inr, Bool-cases,
}
use agent_ssh.Base.Int.{
  ℤ, pos, pos_part, neg_part, ◌+ℤ◌, ◌≤ℤ◌, leb_ℤ, +ℤ_parts, -ℤ_parts, eq_of_parts,
}
use agent_ssh.Base.Text.{Text}
use agent_ssh.Config.Types.{TaskManagerConfig}
use agent_ssh.Executor.Types.{ExecResult}
use agent_ssh.TaskManager.Model.{
  TaskManager, Task, spawned, executing, lookup, modify, new, submit, cancel, kill_task, kill_at,
  cancel_if_live, begin_task, begin, finish_task, finish, cleanup,
}
use agent_ssh.TaskManager.Events.{
  Event, submits, begins, finishes, expires, cancels, cancels_all, cleans, phase_at, expire_task,
  step, run, is_live, live, kill_count, kills_of, kills,
}

-- The counter plus k is the number of goroutines that have not ended, and is within the limit.
pub record Counted (bound : ℤ) (k : ℕ) (s : TaskManager) : Type 0 where
  pub balance : pos_part s.running_count + k ≡ live s.heap + neg_part s.running_count
  pub capped : s.running_count ≤ℤ bound
  pub fixed : s.max_running ≡ bound

new-Counted :
    (cfg : TaskManagerConfig)
    → pos 0 ≤ℤ cfg.max_running_tasks
    → Counted cfg.max_running_tasks 0 (new cfg)
unfolding new live
new-Counted cfg h = record { balance = omega arith; capped = omega arith; fixed = refl }

pub live-append : (ts us : List Task) → live (ts ++ us) ≡ live ts + live us
unfolding live
live-append [] us = omega arith
live-append (t ∷ ts) us = omega (arith, live-append ts us)

-- A write that leaves the phase alone leaves the number of live tasks alone.
pub live-modify :
    (f : Task → Task) (p : ℕ) (ts : List Task)
    → ((t : Task) → is_live (f t) ≡ is_live t)
    → live (modify f p ts) ≡ live ts
unfolding live modify
live-modify f p [] h = refl
live-modify f zero (t ∷ ts) h = omega (arith, h t)
live-modify f (suc p) (t ∷ ts) h = omega (arith, live-modify f p ts h)

live-modify_begin :
    (now : ℤ) (p : ℕ) (ts : List Task)
    → phase_at p ts ≡ some spawned
    → live (modify (begin_task now) p ts) ≡ live ts
unfolding live modify begin_task
live-modify_begin now p [] h = refl
live-modify_begin now zero (t ∷ ts) h = ground arith
live-modify_begin now (suc p) (t ∷ ts) h = omega (arith, live-modify_begin now p ts h)

live-modify_finish :
    (now : ℤ) (r : ExecResult) (p : ℕ) (ts : List Task)
    → phase_at p ts ≡ some executing
    → live (modify (finish_task now r) p ts) + 1 ≡ live ts
unfolding live modify finish_task
live-modify_finish now r p [] h = ground arith
live-modify_finish now r zero (t ∷ ts) h = ground arith
live-modify_finish now r (suc p) (t ∷ ts) h = omega (arith, live-modify_finish now r p ts h)

module _ (bound : ℤ) where
  -- A live task more, and one more on the counter, below the limit.
  admit-Counted :
      (k : ℕ) (t : Task) (m : List (Text × ℕ)) (s : TaskManager)
      → is_live t ≡ 1
      → leb_ℤ s.max_running s.running_count ≡ false
      → Counted bound k s
      → Counted bound k (record s {
        heap = s.heap ++ t ∷ [];
        tasks = m;
        running_count = s.running_count +ℤ pos 1;
      })
  unfolding live
  admit-Counted k t m s one room h = record {
    balance =
        omega (arith, live-append s.heap (t ∷ []), +ℤ_parts s.running_count (pos 1), h.balance);
    capped = ground (arith, +ℤ_parts s.running_count (pos 1));
    fixed = h.fixed;
  }

  submit-Counted :
      (k : ℕ) (id command work_dir : Text) (limit now : ℤ) (s : TaskManager)
      → Counted bound k s
      → Counted bound k (submit id command work_dir limit now s).0
  unfolding submit
  submit-Counted k id command work_dir limit now s h =
      elim (Bool-cases (leb_ℤ s.max_running s.running_count)) [
        | inl full ↦ rw full h
        | inr room ↦ rw room (admit-Counted k _ _ s refl room h)
      ]

  kill_at-Counted :
      (k p : ℕ) (now : ℤ) (s : TaskManager)
      → Counted bound k s
      → Counted bound (k + 1) (kill_at now p s)
  unfolding kill_at kill_task
  kill_at-Counted k p now s h =
      let e : live (modify (kill_task now) p s.heap) ≡ live s.heap =
        live-modify (kill_task now) p s.heap (λ t. refl) in
      ground (arith, -ℤ_parts s.running_count (pos 1))

  finish-Counted :
      (k p : ℕ) (now : ℤ) (r : ExecResult) (s : TaskManager)
      → Counted bound k s
      → phase_at p s.heap ≡ some executing
      → Counted bound k (finish now r p s)
  unfolding finish
  finish-Counted k p now r s h e =
      ground (arith, live-modify_finish now r p s.heap, -ℤ_parts s.running_count (pos 1))

  cancel_if_live-Counted :
      (k p : ℕ) (now : ℤ) (s : TaskManager)
      → Counted bound k s
      → Counted bound (k + kill_count (some p) s.heap) (cancel_if_live now p s)
  cancel_if_live-Counted k p now s h =
      cancel_if_live_cases (λ j u. Counted bound (k + j) u) now p s (rw add-zero h)
        (λ t _ _. kill_at-Counted k p now s h)

  cancel-Counted :
      (k : ℕ) (id : Text) (now : ℤ) (s : TaskManager)
      → Counted bound k s
      → Counted bound (k + kill_count (lookup id s.tasks) s.heap) (cancel id now s).0
  cancel-Counted k id now s h =
      cancel_cases (λ j u. Counted bound (k + j) u) id now s (rw add-zero h)
        (λ p _. cancel_if_live-Counted k p now s h)

  begin-Counted :
      (k p : ℕ) (now : ℤ) (s : TaskManager)
      → Counted bound k s
      → phase_at p s.heap ≡ some spawned
      → Counted bound k (begin now p s)
  unfolding begin
  begin-Counted k p now s h e = ground (arith, live-modify_begin now p s.heap)

  expires-Counted :
      (k p : ℕ) (now : ℤ) (s : TaskManager)
      → Counted bound k s
      → Counted bound k (step s (expires now p))
  unfolding step
  expires-Counted k p now s h =
      let e : live (modify (expire_task now) p s.heap) ≡ live s.heap =
        live-modify (expire_task now) p s.heap (λ t. unfold expire_task in refl) in
      record { balance = rw e h.balance; capped = h.capped; fixed = h.fixed }

  step-Counted :
      (k : ℕ) (s : TaskManager) (e : Event)
      → Counted bound k s
      → Counted bound (k + kills_of s e) (step s e)
  unfolding step kills_of cleanup
  step-Counted k s (submits id command work_dir limit now) h =
      rw add-zero (submit-Counted k id command work_dir limit now s h)
  step-Counted k s (begins now p) h =
      rw add-zero (begins_cases (Counted bound k) now p s h (begin-Counted k p now s h))
  step-Counted k s (finishes now r p) h =
      rw add-zero (finishes_cases (Counted bound k) now r p s h (finish-Counted k p now r s h))
  step-Counted k s (expires now p) h = rw add-zero (expires-Counted k p now s h)
  step-Counted k s (cancels id now) h = cancel-Counted k id now s h
  step-Counted k s (cancels_all now) h =
      cancel_all_induction (Counted bound) now (λ j p u. cancel_if_live-Counted j p now u) k s h
  step-Counted k s (cleans now) h =
      rw add-zero (record { balance = h.balance; capped = h.capped; fixed = h.fixed })

  run-Counted :
      (k : ℕ) (s : TaskManager) (es : List Event)
      → Counted bound k s
      → Counted bound (k + kills s es) (run s es)
  unfolding run kills
  run-Counted k s [] h = rw add-zero h
  run-Counted k s (e ∷ es) h =
      rw (← add_assoc k (kills_of s e) _)
        (run-Counted (k + kills_of s e) (step s e) es (step-Counted k s e h))

-- Over every history of a new manager whose limit is not negative, in any order of the goroutines:
-- the counter plus the number of tasks that Cancel and CancelAll killed is the number of goroutines
-- that have not ended, and these are at most the limit plus the kills.
pub running_count_exact :
    (cfg : TaskManagerConfig) (es : List Event)
    → pos 0 ≤ℤ cfg.max_running_tasks
    → let s = run (new cfg) es in
      let k = kills (new cfg) es in
      (s.running_count +ℤ pos k ≡ pos (live s.heap))
      × (pos (live s.heap) ≤ℤ cfg.max_running_tasks +ℤ pos k)
running_count_exact cfg es h =
    let c = run-Counted cfg.max_running_tasks 0 (new cfg) es (new-Counted cfg h) in
    let k = kills (new cfg) es in
    let s = run (new cfg) es in
    let b : pos_part s.running_count + k ≡ live s.heap + neg_part s.running_count =
      omega (arith, c.balance) in
    let l : s.running_count ≤ℤ cfg.max_running_tasks = c.capped in
    (
      omega (
        arith,
        eq_of_parts (s.running_count +ℤ pos k) (pos (live s.heap)),
        +ℤ_parts s.running_count (pos k),
      ),
      omega (arith, +ℤ_parts cfg.max_running_tasks (pos k)),
    )
