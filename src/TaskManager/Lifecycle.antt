-- ===== src/TaskManager/Lifecycle.antt =====
-- What happens to one task of internal/taskmanager/taskmanager.go over a history.
use mathlib.Core.Option.{some-injective}
use agent_ssh.Base.{
  ℕ, zero, suc, ◌≤◌, ◌≡◌, ◌≢◌, refl, ap, subst, ◌∙◌, true, false, none, some, List, [], ◌∷◌, ◌++◌,
  arith, get_elem?, All,
}
use agent_ssh.Base.Int.{ℤ}
use agent_ssh.Executor.Types.{ExecResult}
use agent_ssh.TaskManager.Model.{
  Task, Phase, spawned, executing, finished, is_terminal, modify, kill_task, begin_task,
  finish_task, final_status,
}
use agent_ssh.TaskManager.Events.{phase_at, expire_task}

-- A task that has ended by its goroutine has a final status, a result and a time; one that has not
-- has neither result nor time.
abbrev pub Sound : Task → Type 0
Sound t = elim t.phase [
  | finished ↦ (is_terminal t.status ≡ true) × (t.result ≢ none) × (t.finished_at ≢ none)
  | _ ↦ (t.result ≡ none) × (t.finished_at ≡ none)
]

-- How far a goroutine has come.
abbrev pub rank : Phase → ℕ
rank spawned = 0
rank executing = 1
rank finished = 2

-- What never changes in a task, and what no longer changes once its goroutine has ended.
pub record Kept (t u : Task) : Type 0 where
  pub id : u.id ≡ t.id
  pub command : u.command ≡ t.command
  pub work_dir : u.work_dir ≡ t.work_dir
  pub created_at : u.created_at ≡ t.created_at
  pub onward : rank t.phase ≤ rank u.phase
  pub settled :
      t.phase ≡ finished
      → is_terminal t.status ≡ true
      → (u.phase ≡ finished)
        × (u.status ≡ t.status)
        × (u.result ≡ t.result)
        × (u.finished_at ≡ t.finished_at)

pub Kept-refl : (t : Task) → Kept t t
Kept-refl t = record {
  id = refl;
  command = refl;
  work_dir = refl;
  created_at = refl;
  onward = omega arith;
  settled = λ h _. (h, refl, refl, refl);
}

pub Kept-trans : (t u v : Task) → Kept t u → Kept u v → Kept t v
Kept-trans t u v h k = record {
  id = k.id ∙ h.id;
  command = k.command ∙ h.command;
  work_dir = k.work_dir ∙ h.work_dir;
  created_at = k.created_at ∙ h.created_at;
  onward = omega (arith, h.onward, k.onward);
  settled = λ p q.
      let a = h.settled p q in
      let b = k.settled a.0 (ap is_terminal a.1 ∙ q) in (b.0, b.1 ∙ a.1, b.2 ∙ a.2, b.3 ∙ a.3);
}

-- Every object of a heap is kept at its place in a later heap.
abbrev pub Extends : List Task → List Task → Type 0
Extends [] us = Unit
Extends (t ∷ ts) [] = ⊥
Extends (t ∷ ts) (u ∷ us) = Kept t u × Extends ts us

pub Extends-refl : (ts : List Task) → Extends ts ts
Extends-refl [] = tt
Extends-refl (t ∷ ts) = (Kept-refl t, Extends-refl ts)

pub Extends-trans : (ts us vs : List Task) → Extends ts us → Extends us vs → Extends ts vs
Extends-trans [] us vs h k = tt
Extends-trans (t ∷ ts) [] vs h k = absurd h
Extends-trans (t ∷ ts) (u ∷ us) [] h k = k
Extends-trans (t ∷ ts) (u ∷ us) (v ∷ vs) h k =
    (Kept-trans t u v h.0 k.0, Extends-trans ts us vs h.1 k.1)

pub Extends-append : (ts : List Task) (u : Task) → Extends ts (ts ++ u ∷ [])
Extends-append [] u = tt
Extends-append (t ∷ ts) u = (Kept-refl t, Extends-append ts u)

pub Extends-modify :
    (f : Task → Task) (p : ℕ) (ts : List Task)
    → ((t : Task) → get_elem? ts p ≡ some t → Kept t (f t))
    → Extends ts (modify f p ts)
unfolding modify
Extends-modify f p [] h = tt
Extends-modify f zero (t ∷ ts) h = (h t refl, Extends-refl ts)
Extends-modify f (suc p) (t ∷ ts) h = (Kept-refl t, Extends-modify f p ts h)

pub Extends-get_elem? :
    (ts us : List Task) (p : ℕ) (t : Task)
    → Extends ts us
    → get_elem? ts p ≡ some t
    → (u : Task) × (get_elem? us p ≡ some u) × Kept t u
Extends-get_elem? [] us p t h e = absurd (ground arith)
Extends-get_elem? (x ∷ ts) [] p t h e = absurd h
Extends-get_elem? (x ∷ ts) (u ∷ us) zero t h e =
    (u, refl, subst (λ y. Kept y u) (some-injective x t e) h.0)
Extends-get_elem? (x ∷ ts) (u ∷ us) (suc p) t h e = Extends-get_elem? ts us p t h.1 e

pub Sound-modify :
    (f : Task → Task) (p : ℕ) (ts : List Task)
    → ((t : Task) → get_elem? ts p ≡ some t → Sound t → Sound (f t))
    → All Sound ts
    → All Sound (modify f p ts)
unfolding modify
Sound-modify f p [] h a = tt
Sound-modify f zero (t ∷ ts) h a = (h t refl a.0, a.1)
Sound-modify f (suc p) (t ∷ ts) h a = (a.0, Sound-modify f p ts h a.1)

pub phase_of :
    (ts : List Task) (p : ℕ) (t : Task) (x : Phase)
    → get_elem? ts p ≡ some t
    → phase_at p ts ≡ some x
    → t.phase ≡ x
phase_of ts p t x e h = ground arith

pub kill-Kept : (now : ℤ) (t : Task) → is_terminal t.status ≡ false → Kept t (kill_task now t)
unfolding kill_task
kill-Kept now t h = record {
  id = refl;
  command = refl;
  work_dir = refl;
  created_at = refl;
  onward = omega arith;
  settled = λ _ q. absurd (ground arith);
}

pub begin-Kept : (now : ℤ) (t : Task) → t.phase ≡ spawned → Kept t (begin_task now t)
unfolding begin_task
begin-Kept now t h = record {
  id = refl;
  command = refl;
  work_dir = refl;
  created_at = refl;
  onward = rw h (omega arith);
  settled = λ p _. absurd (ground arith);
}

pub finish-Kept :
    (now : ℤ) (r : ExecResult) (t : Task) → t.phase ≡ executing → Kept t (finish_task now r t)
unfolding finish_task
finish-Kept now r t h = record {
  id = refl;
  command = refl;
  work_dir = refl;
  created_at = refl;
  onward = rw h (omega arith);
  settled = λ p _. absurd (ground arith);
}

pub kill-Sound :
    (now : ℤ) (t : Task) → is_terminal t.status ≡ false → Sound t → Sound (kill_task now t)
unfolding kill_task
kill-Sound now t e h = ground arith

pub begin-Sound : (now : ℤ) (t : Task) → t.phase ≡ spawned → Sound t → Sound (begin_task now t)
unfolding begin_task
begin-Sound now t e h = ground arith

final_status-terminal :
    (t : Task) (code : ℤ) → is_terminal (final_status t.context.error t.status code) ≡ true
unfolding final_status
final_status-terminal t code = ground arith

pub finish-Sound : (now : ℤ) (r : ExecResult) (t : Task) → Sound (finish_task now r t)
unfolding finish_task
finish-Sound now r t = (final_status-terminal t r.exit_code, λ e. cc, λ e. cc)

pub expire-Kept : (now : ℤ) (t : Task) → Kept t (expire_task now t)
unfolding expire_task
expire-Kept now t = record {
  id = refl;
  command = refl;
  work_dir = refl;
  created_at = refl;
  onward = omega arith;
  settled = λ h _. (h, refl, refl, refl);
}
