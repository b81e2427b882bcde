-- ===== src/Executor/Groups.antt =====
-- The process group of a command that internal/executor/executor_sys_unix.go starts.
use mathlib.Core.Option.{some-injective, none-ne-some}
use agent_ssh.Base.{
  ℕ, ◌≡◌, refl, sym, subst, ◌∙◌, inl, inr, Bool, true, false, not, ◌&&◌, ◌||◌, some, List, [], ◌∷◌,
  ◌++◌, arith, ◌==◌, if◌then◌else◌, any, All, All-append, All-mono, Bool-cases, Option-cases,
}
use agent_ssh.Base.Text.{Text}
use agent_ssh.Executor.Processes.{
  reaped, Process, Table, is_running, bears, find, is_taken, update, killed, start, Event, forks,
  exits, reaps, moves, child_of, step, run,
}
use agent_ssh.Executor.SysUnix.{new_shell_command, set_process_group}

-- The process is that of the number, or was forked by it, or by one that was, and so on.
abbrev pub is_descendant : ℕ → Process → Bool
is_descendant root q = any (λ a. a == root) (q.pid ∷ q.ancestors)

-- No process leaves its group, and the command of number `root` is not waited for.
abbrev pub IsStaying : ℕ → Event → Type 0
IsStaying root (moves p g) = ⊥
IsStaying root (reaps p) = (p == root) ≡ false
IsStaying root _ = Unit

-- The number is that of no process, of none that was forked before another, and of no group.
abbrev pub IsFresh : ℕ → Table → Type 0
IsFresh pid t = All (λ (q : Process). ((q.group == pid) ≡ false) × (is_descendant pid q ≡ false)) t

abbrev pub InGroup : ℕ → Process → Type 0
InGroup root q = (q.group == root) ≡ is_descendant root q

pub record Grouped (root : ℕ) (t : Table) : Type 0 where
  pub borne : any (bears root) t ≡ true
  pub all : All (InGroup root) t

any-append :
    (test : Process → Bool) (t : Table) (q : Process)
    → any test (t ++ q ∷ []) ≡ any test t || test q
any-append test [] q = ground arith
any-append test (x ∷ t) q = ground (arith, any-append test t q)

-- A change of the processes of a number that leaves which of them bear the number root.
update-Grouped :
    (f : Process → Process) (p root : ℕ) (t : Table)
    → ((q : Process) → (q.pid == p) ≡ true → bears root (f q) ≡ bears root q)
    → ((q : Process) → InGroup root q → InGroup root (f q))
    → (any (bears root) (update f p t) ≡ any (bears root) t)
      × (All (InGroup root) t → All (InGroup root) (update f p t))
unfolding update
update-Grouped f p root [] same keep = (refl, λ _. tt)
update-Grouped f p root (q ∷ t) same keep =
    let (a, b) = update-Grouped f p root t same keep in
    elim (Bool-cases (q.pid == p)) [
      | inl h ↦ rw h (rw (same q h, a) refl, λ g. (keep q g.0, b g.1))
      | inr h ↦ rw h (rw a refl, λ g. (g.0, b g.1))
    ]

pub find-All :
    (P : Process → Type 0) (p : ℕ) (t : Table) (q : Process)
    → All P t
    → find p t ≡ some q
    → P q × (bears p q ≡ true)
unfolding find
find-All P p [] q a h = absurd (none-ne-some q h)
find-All P p (x ∷ t) q a h = elim (Bool-cases (bears p x)) [
  | inl e ↦
      let same = some-injective x q (rw e at h) in
      (subst P same a.0, subst (λ y. bears p y ≡ true) same e)
  | inr e ↦ find-All P p t q a.1 (rw e at h)
]

killed-life : (q : Process) (root : ℕ) → InGroup root q → InGroup root (killed q)
unfolding killed
killed-life q root g = elim (Bool-cases (is_running q.life)) [
  | inl e ↦ simp (killed, e) g
  | inr e ↦ simp (killed, e) g
]

killed-bears : (q : Process) (root : ℕ) → bears root (killed q) ≡ bears root q
unfolding killed
killed-bears q root = ground arith

abbrev reap : Process → Process
reap q = if is_running q.life then q else record q { life = reaped }

reap-bears :
    (q : Process) (p root : ℕ)
    → (p == root) ≡ false
    → (q.pid == p) ≡ true
    → bears root (reap q) ≡ bears root q
reap-bears q p root other mine = ground arith

reap-life : (q : Process) (root : ℕ) → InGroup root q → InGroup root (reap q)
reap-life q root g = elim (Bool-cases (is_running q.life)) [ inl e ↦ simp e g | inr e ↦ simp e g ]

child-InGroup :
    (root child : ℕ) (q : Process)
    → InGroup root q
    → (child == root) ≡ false
    → InGroup root (child_of q child)
unfolding child_of
child-InGroup root child q g other = rw other g

-- A number that may be given is not that of root, as long as a process bears root.
taken-other :
    (root child : ℕ) (t : Table)
    → any (bears root) t ≡ true
    → is_taken child t ≡ false
    → (child == root) ≡ false
unfolding is_taken
taken-other root child [] a b = cc
taken-other root child (q ∷ t) a b = ground (arith, taken-other root child t)

fork-Grouped :
    (root parent child : ℕ) (t : Table)
    → Grouped root t
    → Grouped root (step t (forks parent child))
unfolding step
fork-Grouped root parent child t g = elim (Option-cases (find parent t)) [
  | inl e ↦ rw (step, e) g
  | inr (q, e) ↦ elim (Bool-cases (is_running q.life && not (is_taken child t))) [
    | inr f ↦ rw (step, e, f) g
    | inl f ↦
        let free : is_taken child t ≡ false = ground arith in
        rw (step, e, f)
          (record {
            borne = any-append (bears root) t (child_of q child) ∙ rw g.borne refl;
            all = All-append (InGroup root) t (child_of q child ∷ []) g.all (
              child-InGroup root child q (find-All (InGroup root) parent t q g.all e).0
                  (taken-other root child t g.borne free),
              tt,
            );
          })
  ]
]

step-Grouped :
    (root : ℕ) (t : Table) (x : Event) → IsStaying root x → Grouped root t → Grouped root (step t x)
unfolding step
step-Grouped root t (forks parent child) stays g = fork-Grouped root parent child t g
step-Grouped root t (moves p group) stays g = elim stays [ ]
step-Grouped root t (exits p) stays g =
    let (a, b) =
      update-Grouped killed p root t (λ q _. killed-bears q root) (λ q. killed-life q root) in
    record { borne = a ∙ g.borne; all = b g.all }
step-Grouped root t (reaps p) stays g =
    let (a, b) =
      update-Grouped reap p root t (λ q mine. reap-bears q p root stays mine)
        (λ q. reap-life q root) in
    record { borne = a ∙ g.borne; all = b g.all }

pub run-Grouped :
    (root : ℕ) (t : Table) (xs : List Event)
    → All (IsStaying root) xs
    → Grouped root t
    → Grouped root (run t xs)
unfolding run
run-Grouped root t [] stays g = g
run-Grouped root t (x ∷ xs) stays g =
    run-Grouped root (step t x) xs stays.1 (step-Grouped root t x stays.0 g)

same_number : (n : ℕ) → (n == n) ≡ true
same_number n = ground arith

pub started-Grouped :
    (agent agent_group pid : ℕ) (command : Text) (t : Table)
    → IsFresh pid t
    → Grouped pid (start agent agent_group pid (set_process_group (new_shell_command command)) t).0
unfolding start set_process_group new_shell_command
started-Grouped agent agent_group pid command t fresh = record {
  borne = any-append (bears pid) t _ ∙ rw same_number (ground arith);
  all =
      All-append (InGroup pid) t _ (All-mono _ (InGroup pid) t (λ q (a, b). a ∙ sym b) fresh)
        (rw same_number refl, tt);
}
