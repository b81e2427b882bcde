-- ===== src/TaskManager/Settled.antt =====
-- Over a history of internal/taskmanager/taskmanager.go tasks stay where they are, and what a task
-- has ended with does not change.
use mathlib.Core.Option.{some-injective}
use agent_ssh.Base.{
  ℕ, ◌≡◌, ◌≢◌, refl, true, false, none, some, List, [], ◌∷◌, get_elem?, All, All-append,
  All-get_elem?, sym, subst, ◌∙◌, Bool-cases, inl, inr,
}
use agent_ssh.Base.Int.{ℤ, leb_ℤ}
use agent_ssh.Base.Text.{Text}
use agent_ssh.Config.Types.{TaskManagerConfig}
use agent_ssh.TaskManager.Model.{
  TaskManager, Task, finished, is_terminal, modify, new, new_task, submit, kill_task, kill_at,
  cancel_if_live, begin_task, begin, finish_task, finish, cleanup,
}
use agent_ssh.TaskManager.Events.{
  Event, submits, begins, finishes, expires, cancels, cancels_all, cleans, expire_task, step, run,
}
use agent_ssh.TaskManager.Cases.{
  cancel_if_live_cases, cancel_cases, cancel_all_induction, begins_cases, finishes_cases,
}
use agent_ssh.TaskManager.Lifecycle.{
  Sound, Kept, Extends, Extends-refl, Extends-trans, Extends-append, Extends-modify,
  Extends-get_elem?, Sound-modify, phase_of, kill-Kept, begin-Kept, finish-Kept, kill-Sound,
  begin-Sound, finish-Sound, expire-Kept,
}

-- The heap of s extends that of the section's manager, and is sound.
pub record Follows (s : TaskManager) (t : TaskManager) : Type 0 where
  pub extends : Extends s.heap t.heap
  pub sound : All Sound t.heap

Follows-modify :
    (f : Task → Task) (p : ℕ) (s : TaskManager)
    → ((t : Task) → get_elem? s.heap p ≡ some t → Kept t (f t))
    → ((t : Task) → get_elem? s.heap p ≡ some t → Sound t → Sound (f t))
    → All Sound s.heap
    → Follows s (record s { heap = modify f p s.heap })
Follows-modify f p s keep sound a = record {
  extends = Extends-modify f p s.heap keep;
  sound = Sound-modify f p s.heap sound a;
}

Follows-refl : (s : TaskManager) → All Sound s.heap → Follows s s
Follows-refl s a = record { extends = Extends-refl s.heap; sound = a }

Follows-trans : (s t u : TaskManager) → Follows s t → Follows t u → Follows s u
Follows-trans s t u h k = record {
  extends = Extends-trans s.heap t.heap u.heap h.extends k.extends;
  sound = k.sound;
}

submit-Follows :
    (id command work_dir : Text) (limit now : ℤ) (s : TaskManager)
    → All Sound s.heap
    → Follows s (submit id command work_dir limit now s).0
unfolding submit new_task
submit-Follows id command work_dir limit now s a =
    elim (Bool-cases (leb_ℤ s.max_running s.running_count)) [
      | inl full ↦ rw full (Follows-refl s a)
      | inr room ↦ rw room (record {
        extends = Extends-append s.heap _;
        sound = All-append Sound s.heap _ a ((refl, refl), tt);
      })
    ]

cancel_if_live-Follows :
    (now : ℤ) (p : ℕ) (s : TaskManager) → All Sound s.heap → Follows s (cancel_if_live now p s)
cancel_if_live-Follows now p s a =
    cancel_if_live_cases (λ _ u. Follows s u) now p s (Follows-refl s a)
      λ t found going.
        let same = λ (u : Task) (at : get_elem? s.heap p ≡ some u).
          subst (λ x. is_terminal x.status ≡ false) (some-injective t u (sym found ∙ at)) going in
        unfold kill_at in
        record {
          extends = Extends-modify (kill_task now) p s.heap (λ u at. kill-Kept now u (same u at));
          sound = Sound-modify (kill_task now) p s.heap (λ u at. kill-Sound now u (same u at)) a;
        }

pub step-Follows : (s : TaskManager) (e : Event) → All Sound s.heap → Follows s (step s e)
unfolding step
step-Follows s (submits id command work_dir limit now) a =
    submit-Follows id command work_dir limit now s a
step-Follows s (begins now p) a = begins_cases (Follows s) now p s (Follows-refl s a) λ e.
    unfold begin in
    Follows-modify (begin_task now) p s (λ t at. begin-Kept now t (phase_of s.heap p t _ at e))
      (λ t at. begin-Sound now t (phase_of s.heap p t _ at e)) a
step-Follows s (finishes now r p) a = finishes_cases (Follows s) now r p s (Follows-refl s a) λ e.
    unfold finish in
    record {
      extends =
          Extends-modify (finish_task now r) p s.heap
            (λ t at. finish-Kept now r t (phase_of s.heap p t _ at e));
      sound = Sound-modify (finish_task now r) p s.heap (λ t at _. finish-Sound now r t) a;
    }
step-Follows s (expires now p) a =
    Follows-modify (expire_task now) p s (λ t _. expire-Kept now t)
      (λ t _ h. unfold expire_task in h) a
step-Follows s (cancels id now) a =
    cancel_cases (λ _ u. Follows s u) id now s (Follows-refl s a)
      (λ p _. cancel_if_live-Follows now p s a)
step-Follows s (cancels_all now) a =
    cancel_all_induction (λ _ u. Follows s u) now
      (λ _ p u h. Follows-trans s u _ h (cancel_if_live-Follows now p u h.sound)) 0 s
      (Follows-refl s a)
step-Follows s (cleans now) a =
    unfold cleanup in record { extends = Extends-refl s.heap; sound = a }

pub run-Follows : (s : TaskManager) (es : List Event) → All Sound s.heap → Follows s (run s es)
unfolding run
run-Follows s [] a = Follows-refl s a
run-Follows s (e ∷ es) a =
    let h = step-Follows s e a in Follows-trans s (step s e) _ h (run-Follows (step s e) es h.sound)

pub run-Sound : (cfg : TaskManagerConfig) (es : List Event) → All Sound (run (new cfg) es).heap
run-Sound cfg es = (run-Follows (new cfg) es (unfold new in tt)).sound

pub ended :
    (t : Task)
    → t.phase ≡ finished
    → Sound t
    → (is_terminal t.status ≡ true) × (t.result ≢ none) × (t.finished_at ≢ none)
ended t e h = rw e at h

-- Every task of a reachable manager keeps its id, command, directory and time of creation in every
-- later state. Once its goroutine has ended it has a final status, a result and a time of its end,
-- and no later request, timer, goroutine or cleanup changes these.
pub settled_forever :
    (cfg : TaskManagerConfig) (es fs : List Event) (p : ℕ) (t : Task)
    → let s = run (new cfg) es in
      get_elem? s.heap p ≡ some t
      → (u : Task) × (get_elem? (run s fs).heap p ≡ some u)
        × (u.id ≡ t.id)
        × (u.command ≡ t.command)
        × (u.work_dir ≡ t.work_dir)
        × (u.created_at ≡ t.created_at)
        × (t.phase ≡ finished
            → (is_terminal t.status ≡ true)
              × (t.result ≢ none)
              × (t.finished_at ≢ none)
              × (u.status ≡ t.status)
              × (u.result ≡ t.result)
              × (u.finished_at ≡ t.finished_at))
settled_forever cfg es fs p t at =
    let here = run-Follows (new cfg) es (unfold new in tt) in
    let there = run-Follows (run (new cfg) es) fs here.sound in
    let (u, found, kept) = Extends-get_elem? _ _ p t there.extends at in
    let sound = All-get_elem? Sound _ p t here.sound at in
    (
      u,
      found,
      kept.id,
      kept.command,
      kept.work_dir,
      kept.created_at,
      λ done.
          let (final, result, time) = ended t done sound in
          let (_, a, b, c) = kept.settled done final in (final, result, time, a, b, c),
    )
