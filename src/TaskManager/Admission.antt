-- ===== src/TaskManager/Admission.antt =====
-- Which tasks Submit of internal/taskmanager/taskmanager.go admits, and under which deadline.
use agent_ssh.Base.{
  ℕ, ◌≡◌, refl, sym, ap, ◌∙◌, true, false, Option, none, some, List, [], ◌∷◌, ◌++◌, arith,
  get_elem?, length, get_elem?-length, get_elem?-append_one, if◌then◌else◌, Bool-cases,
  Option-cases, inl, inr, ◌⊎◌,
}
use agent_ssh.Base.Int.{ℤ, pos, ◌-ℤ◌, ◌+ℤ◌, ◌≤ℤ◌, leb_ℤ, -ℤ_parts, +ℤ_parts, int_laws}
use agent_ssh.Base.Result.{ok, err}
use agent_ssh.Base.Text.{Text, text_eq, text_eq_iff, text_eq_refl}
use agent_ssh.Executor.Types.{ExecResult}
use agent_ssh.TaskManager.Context.{with_timeout}
use agent_ssh.TaskManager.Model.{
  TaskManager, Task, pending, timeout, is_terminal, lookup, insert, new_task, max_running_reached,
  submit, get, or_missing, deref, kill_at, kill_task, begin_task, begin, finish_task, final_status,
}
use agent_ssh.TaskManager.Events.{submits, begins, finishes, cancels, step, run, live}
use agent_ssh.TaskManager.Count.{live-append, live-modify}
use agent_ssh.TaskManager.Races.{cancels-going, begin-get, finish-get, run_goroutine}

lookup-insert :
    (k j : Text) (p : ℕ) (m : List (Text × ℕ))
    → lookup j (insert k p m) ≡ (if text_eq k j then some p else lookup j m)
unfolding lookup insert
lookup-insert k j p [] = refl
lookup-insert k j p ((i, q) ∷ m) =
    ground (arith, text_eq_iff k j, text_eq_iff i k, text_eq_iff i j, lookup-insert k j p m)

leb_of : (limit : ℤ) → limit ≤ℤ pos 0 → leb_ℤ limit (pos 0) ≡ true
leb_of limit h = ground arith

deref-append :
    (ts : List Task) (u : Task) (o : Option ℕ) (t : Task)
    → deref ts o ≡ some t
    → deref (ts ++ u ∷ []) o ≡ some t
unfolding deref
deref-append ts u none t h = cc
deref-append ts u (some p) t h = get_elem?-append_one ts p t u h

-- Every id of the map names an object.
abbrev pub IsStored : TaskManager → Type 0
IsStored s =
    (j : Text) (p : ℕ) → lookup j s.tasks ≡ some p → (t : Task) × (get_elem? s.heap p ≡ some t)

-- The manager that Submit leaves when it admits a task.
abbrev admitted : Text → Text → Text → ℤ → ℤ → TaskManager → TaskManager
admitted id command work_dir limit now s = record s {
  heap = s.heap ++ new_task id command work_dir limit now ∷ [];
  tasks = insert id (length s.heap) s.tasks;
  running_count = s.running_count +ℤ pos 1;
}

module _ (id command work_dir : Text) (limit now : ℤ) (s : TaskManager) where
  submit-admitted :
      leb_ℤ s.max_running s.running_count ≡ false
      → submit id command work_dir limit now s ≡ (admitted id command work_dir limit now s, ok id)
  unfolding submit
  submit-admitted room = rw room

  submits-admitted :
      leb_ℤ s.max_running s.running_count ≡ false
      → step s (submits id command work_dir limit now) ≡ admitted id command work_dir limit now s
  unfolding step
  submits-admitted room = ap (λ x. x.0) (submit-admitted room)

  admitted-get :
      get id (admitted id command work_dir limit now s)
      ≡ ok (new_task id command work_dir limit now)
  unfolding get deref or_missing
  admitted-get = rw (
    lookup-insert id id (length s.heap) s.tasks,
    text_eq_refl id,
    get_elem?-length s.heap (new_task id command work_dir limit now),
  )

  other-get :
      IsStored s
      → (j : Text) → text_eq id j ≡ false
      → get j (admitted id command work_dir limit now s) ≡ get j s
  unfolding get
  other-get stored j ne =
      rw (lookup-insert id j (length s.heap) s.tasks, ne)
        (elim (Option-cases (lookup j s.tasks)) [
          | inl e ↦ rw e (unfold deref in refl)
          | inr (p, e) ↦
              let (t, at) = stored j p e in
              rw e (
                ap (or_missing j) (
                  deref-append s.heap (new_task id command work_dir limit now) (some p) t
                    (unfold deref in at)
                  ∙ sym (unfold deref in at)))
        ])

  -- Submit at the limit fails with the limit and changes nothing. Below the limit it returns the id,
  -- counts one more running task and makes one more object, under which id Get finds it from then on:
  -- a pending task with the command, the directory and the time. Every other id gets the answer of Get
  -- that it got before, also one that is not known. The map names objects that are there.
  pub submit_lem :
      IsStored s
      → let (after, answer) = submit id command work_dir limit now s in
        ((s.max_running ≤ℤ s.running_count)
          × (after ≡ s)
          × (answer ≡ err (max_running_reached s.max_running)))
        ⊎ ((s.running_count +ℤ pos 1 ≤ℤ s.max_running)
            × (answer ≡ ok id)
            × (after.running_count ≡ s.running_count +ℤ pos 1)
            × (t : Task) × (after.heap ≡ s.heap ++ t ∷ [])
            × (get id after ≡ ok t)
            × (t.id ≡ id)
            × (t.status ≡ pending)
            × (t.command ≡ command)
            × (t.work_dir ≡ work_dir)
            × (t.created_at ≡ now)
            × ((j : Text) → text_eq id j ≡ false → get j after ≡ get j s))
  submit_lem stored = elim (Bool-cases (leb_ℤ s.max_running s.running_count)) [
    | inl full ↦
        let e : submit id command work_dir limit now s
            ≡ (s, err (max_running_reached s.max_running)) =
          unfold submit in rw full refl in
        rw e (inl (ground arith, refl, refl))
    | inr room ↦ rw (submit-admitted room) (
        inr (
          (
            ground (arith, +ℤ_parts s.running_count (pos 1)),
            refl,
            refl,
            new_task id command work_dir limit now,
            refl,
            admitted-get,
            unfold new_task in refl,
            unfold new_task in refl,
            unfold new_task in refl,
            unfold new_task in refl,
            unfold new_task in refl,
            other-get stored,
          )))
  ]

  -- A task that is submitted below the limit with no time, which is how the gateway passes a request
  -- without a timeout, ends with status timeout, whatever its command returns.
  pub submit_without_time :
      (b f : ℤ) (r : ExecResult)
      → limit ≤ℤ pos 0
      → leb_ℤ s.max_running s.running_count ≡ false
      → let v = run s (
          submits id command work_dir limit now
          ∷ begins b (length s.heap)
          ∷ finishes f r (length s.heap)
          ∷ []) in
        (u : Task) × (get_elem? v.heap (length s.heap) ≡ some u) × (u.status ≡ timeout)
  unfolding run
  submit_without_time b f r short room =
      let t = new_task id command work_dir limit now in
      let a = admitted id command work_dir limit now s in
      let at = get_elem?-length s.heap t in
      rw (submits-admitted room) (
        rw (run_goroutine b f r (length s.heap) a t at (unfold new_task in refl)) (
          finish_task f r (begin_task b t),
          finish-get f r (length s.heap) (begin b (length s.heap) a) _
              (begin-get b (length s.heap) a t at),
          unfold finish_task begin_task new_task with_timeout in
              rw (leb_of limit short, final_status) refl,
        ))

one_more :
    (h : List Task) (t : Task) (n : ℕ)
    → live h ≡ n
    → live (t ∷ []) ≡ 1
    → pos (live (h ++ t ∷ [])) ≡ pos n +ℤ pos 1
unfolding ◌+ℤ◌
one_more h t n e f = ground (arith, live-append h (t ∷ []))

down_up : (n : ℤ) → n -ℤ pos 1 +ℤ pos 1 ≡ n
down_up n = omega int_laws

freed : (n : ℤ) → leb_ℤ n (n -ℤ pos 1) ≡ false
freed n = ground (arith, -ℤ_parts n (pos 1))

-- At the limit, with as many goroutines as the limit allows, a Cancel gives its place away at once:
-- the next Submit is admitted while the goroutine of the cancelled task still runs, so that one more
-- goroutine is live than the limit allows.
pub cancel_overcommits :
    (id : Text) (p : ℕ) (t : Task) (c : ℤ) (new_id command work_dir : Text) (limit now : ℤ)
    (s : TaskManager)
    → lookup id s.tasks ≡ some p
    → get_elem? s.heap p ≡ some t
    → is_terminal t.status ≡ false
    → s.running_count ≡ s.max_running
    → pos (live s.heap) ≡ s.max_running
    → let v = run s (cancels id c ∷ submits new_id command work_dir limit now ∷ []) in
      (pos (live v.heap) ≡ s.max_running +ℤ pos 1) × (v.running_count ≡ s.max_running)
unfolding run
cancel_overcommits id p t c new_id command work_dir limit now s named stored going full busy =
    let k = kill_at c p s in
    let e : live k.heap ≡ live s.heap =
      unfold kill_at in live-modify (kill_task c) p s.heap (λ u. unfold kill_task in refl) in
    let t' = new_task new_id command work_dir limit now in
    rw (cancels-going id c p s t named stored going) (
      rw
        (submits-admitted new_id command work_dir limit now k
          (unfold kill_at in rw full (freed s.max_running)))
        (
          one_more k.heap t' (live s.heap) e (unfold live new_task in refl)
              ∙ ap (λ n. n +ℤ pos 1) busy,
          unfold kill_at in rw full (down_up s.max_running),
        ))
