-- ===== src/TaskManager/Retention.antt =====
-- What cleanup of internal/taskmanager/taskmanager.go forgets.
use agent_ssh.Base.{
  ℕ, ◌≡◌, refl, subst, Bool, false, Option, none, some, List, [], ◌∷◌, arith, get_elem?,
  if◌then◌else◌, Bool-cases, Option-cases, inl, inr, length, All, All-get_elem?,
}
use agent_ssh.Base.Int.{ℤ, ◌-ℤ◌, leb_ℤ, ltb_ℤ}
use agent_ssh.Base.Result.{Result, ok, err}
use agent_ssh.Base.Text.{Text, text_eq, text_eq_iff}
use agent_ssh.TaskManager.Model.{
  TaskManager, Task, lookup, insert, get, or_missing, deref, LookupError, not_found, is_expired,
  expired_at, sweep, cleanup, new, submit, kill_at, cancel_if_live, begin, finish,
}
use agent_ssh.TaskManager.Events.{
  Event, submits, begins, finishes, expires, cancels, cancels_all, cleans, step, run,
}
use agent_ssh.TaskManager.Lifecycle.{Sound}
use agent_ssh.TaskManager.Settled.{run-Sound}
use agent_ssh.TaskManager.Cases.{
  cancel_if_live_cases, cancel_cases, cancel_all_induction, begins_cases, finishes_cases,
}
use agent_ssh.Config.Types.{TaskManagerConfig}

-- No id stands twice in the map.
abbrev pub Fresh : Text → List (Text × ℕ) → Type 0
Fresh k [] = Unit
Fresh k ((j, p) ∷ m) = (text_eq j k ≡ false) × Fresh k m

abbrev pub Distinct : List (Text × ℕ) → Type 0
Distinct [] = Unit
Distinct ((k, p) ∷ m) = Fresh k m × Distinct m

Fresh-lookup : (k : Text) (m : List (Text × ℕ)) → Fresh k m → lookup k m ≡ none
unfolding lookup
Fresh-lookup k [] h = refl
Fresh-lookup k ((j, p) ∷ m) h = rw h.0 (Fresh-lookup k m h.1)

text_eq-ne : (k j : Text) → text_eq j k ≡ false → text_eq k j ≡ false
text_eq-ne k j h = ground (arith, text_eq_iff k j, text_eq_iff j k)

Fresh-sweep :
    (cutoff : ℤ) (heap : List Task) (k : Text) (m : List (Text × ℕ))
    → Fresh k m
    → Fresh k (sweep cutoff heap m)
unfolding sweep
Fresh-sweep cutoff heap k [] h = tt
Fresh-sweep cutoff heap k ((j, p) ∷ m) h = ground (arith, Fresh-sweep cutoff heap k m h.1)

Distinct-sweep :
    (cutoff : ℤ) (heap : List Task) (m : List (Text × ℕ))
    → Distinct m
    → Distinct (sweep cutoff heap m)
unfolding sweep
Distinct-sweep cutoff heap [] h = tt
Distinct-sweep cutoff heap ((k, p) ∷ m) h =
    ground (arith, Distinct-sweep cutoff heap m h.1, Fresh-sweep cutoff heap k m h.0)

Fresh-insert :
    (k j : Text) (p : ℕ) (m : List (Text × ℕ))
    → text_eq k j ≡ false
    → Fresh j m
    → Fresh j (insert k p m)
unfolding insert
Fresh-insert k j p [] ne h = (ne, tt)
Fresh-insert k j p ((i, q) ∷ m) ne h = ground (arith, Fresh-insert k j p m ne h.1)

Distinct-insert : (k : Text) (p : ℕ) (m : List (Text × ℕ)) → Distinct m → Distinct (insert k p m)
unfolding insert
Distinct-insert k p [] h = (tt, tt)
Distinct-insert k p ((j, q) ∷ m) h = elim (Bool-cases (text_eq j k)) [
  | inl e ↦ rw e (subst (λ x. Fresh x m) ((text_eq_iff j k).0 e) h.0, h.1)
  | inr ne ↦ rw ne (Fresh-insert k j p m (text_eq-ne k j ne) h.0, Distinct-insert k p m h.1)
]

-- What the map says of an id after a sweep.
abbrev unless_expired : ℤ → List Task → Option ℕ → Option ℕ
unless_expired cutoff heap none = none
unless_expired cutoff heap (some p) = if expired_at cutoff (get_elem? heap p) then none else some p

lookup-sweep :
    (cutoff : ℤ) (heap : List Task) (k : Text) (m : List (Text × ℕ))
    → Distinct m
    → lookup k (sweep cutoff heap m) ≡ unless_expired cutoff heap (lookup k m)
unfolding lookup sweep
lookup-sweep cutoff heap k [] h = refl
lookup-sweep cutoff heap k ((j, p) ∷ m) h = elim (Bool-cases (text_eq j k)) [
  | inl e ↦
      let fresh =
        Fresh-sweep cutoff heap k m (subst (λ x. Fresh x m) ((text_eq_iff j k).0 e) h.0) in
      ground (arith, Fresh-lookup k (sweep cutoff heap m) fresh)
  | inr ne ↦ ground (arith, lookup-sweep cutoff heap k m h.1)
]

submit-Distinct :
    (id command work_dir : Text) (limit now : ℤ) (s : TaskManager)
    → Distinct s.tasks
    → Distinct (submit id command work_dir limit now s).0.tasks
unfolding submit
submit-Distinct id command work_dir limit now s h =
    elim (Bool-cases (leb_ℤ s.max_running s.running_count)) [
      | inl full ↦ rw full h
      | inr room ↦ rw room (Distinct-insert id (length s.heap) s.tasks h)
    ]

cancel_if_live-Distinct :
    (now : ℤ) (p : ℕ) (s : TaskManager) → Distinct s.tasks → Distinct (cancel_if_live now p s).tasks
cancel_if_live-Distinct now p s h =
    cancel_if_live_cases (λ _ u. Distinct u.tasks) now p s h (λ _ _ _. unfold kill_at in h)

step-Distinct : (s : TaskManager) (e : Event) → Distinct s.tasks → Distinct (step s e).tasks
unfolding step
step-Distinct s (submits id command work_dir limit now) h =
    submit-Distinct id command work_dir limit now s h
step-Distinct s (begins now p) h =
    begins_cases (λ u. Distinct u.tasks) now p s h (λ _. unfold begin in h)
step-Distinct s (finishes now r p) h =
    finishes_cases (λ u. Distinct u.tasks) now r p s h (λ _. unfold finish in h)
step-Distinct s (expires now p) h = h
step-Distinct s (cancels id now) h =
    cancel_cases (λ _ u. Distinct u.tasks) id now s h (λ p _. cancel_if_live-Distinct now p s h)
step-Distinct s (cancels_all now) h =
    cancel_all_induction (λ _ u. Distinct u.tasks) now
      (λ _ p u k. cancel_if_live-Distinct now p u k) 0 s h
step-Distinct s (cleans now) h =
    unfold cleanup in Distinct-sweep (now -ℤ s.retention) s.heap s.tasks h

run-Distinct : (s : TaskManager) (es : List Event) → Distinct s.tasks → Distinct (run s es).tasks
unfolding run
run-Distinct s [] h = h
run-Distinct s (e ∷ es) h = run-Distinct (step s e) es (step-Distinct s e h)

ended_before : ℤ → Option ℤ → Bool
ended_before cutoff none = false
ended_before cutoff (some at) = ltb_ℤ at cutoff

-- An answer of Get, with a task whose goroutine ended before the cutoff made unknown.
abbrev pub forget_ended : Text → ℤ → Result LookupError Task → Result LookupError Task
forget_ended id cutoff (err e) = err e
forget_ended id cutoff (ok t) = elim t.finished_at [
  | none ↦ ok t
  | some at ↦ if ltb_ℤ at cutoff then err (not_found id) else ok t
]

is_expired-Sound :
    (cutoff : ℤ) (t : Task) → Sound t → is_expired cutoff t ≡ ended_before cutoff t.finished_at
unfolding is_expired ended_before
is_expired-Sound cutoff t h = ground arith

get-sweep :
    (id : Text) (cutoff : ℤ) (heap : List Task) (o : Option ℕ)
    → All Sound heap
    → or_missing id (deref heap (unless_expired cutoff heap o))
      ≡ forget_ended id cutoff (or_missing id (deref heap o))
unfolding or_missing deref expired_at ended_before
get-sweep id cutoff heap none a = refl
get-sweep id cutoff heap (some p) a = elim (Option-cases (get_elem? heap p)) [
  | inl gone ↦ ground arith
  | inr (t, found) ↦
      ground (arith, is_expired-Sound cutoff t (All-get_elem? Sound heap p t a found))
]

-- After any history, cleanup forgets exactly the tasks whose goroutine ended before the retention: Get
-- fails on such an id, and answers as before on every other one. A task that was cancelled and whose
-- goroutine still runs is not forgotten.
pub get-cleanup :
    (cfg : TaskManagerConfig) (es : List Event) (id : Text) (now : ℤ)
    → let s = run (new cfg) es in
      get id (cleanup now s) ≡ forget_ended id (now -ℤ s.retention) (get id s)
unfolding get cleanup
get-cleanup cfg es id now =
    let s = run (new cfg) es in
    rw
      (lookup-sweep (now -ℤ s.retention) s.heap id s.tasks
        (run-Distinct (new cfg) es (unfold new in tt)))
      (get-sweep id (now -ℤ s.retention) s.heap (lookup id s.tasks) (run-Sound cfg es))
