-- ===== src/Executor/Trees.antt =====
-- Which processes killProcessTree of internal/executor/executor_sys_unix.go ends.
use mathlib.Core.Option.{some-injective, none-ne-some}
use agent_ssh.Base.{
  ℕ, ◌≡◌, refl, sym, ap, subst, inl, inr, Bool, true, false, not, ◌&&◌, some, List, [], ◌∷◌, arith,
  ◌==◌, ==_iff, if◌then◌else◌, any, map, All, Bool-cases,
}
use agent_ssh.Base.Result.{ok}
use agent_ssh.Base.Text.{Text}
use agent_ssh.Executor.Processes.{
  Process, Table, Cmd, is_reaped, bears, find, killed, start, getpgid, kill_group, Event, run,
}
use agent_ssh.Executor.SysUnix.{new_shell_command, set_process_group, kill_process_tree}
use agent_ssh.Executor.Groups.{
  is_descendant, IsStaying, IsFresh, InGroup, Grouped, find-All, run-Grouped, started-Grouped,
}

-- A number that a process bears leads to one.
borne-found : (p : ℕ) (t : Table) → any (bears p) t ≡ true → (q : Process) × (find p t ≡ some q)
unfolding find
borne-found p [] h = cc
borne-found p (x ∷ t) h = elim (Bool-cases (bears p x)) [
  | inl e ↦ (x, rw e refl)
  | inr e ↦ let (q, at) = borne-found p t (rw e at h) in (q, rw e at)
]

find-any :
    (test : Process → Bool) (p : ℕ) (t : Table) (q : Process)
    → find p t ≡ some q
    → test q ≡ true
    → any test t ≡ true
unfolding find
find-any test p [] q h holds = absurd (none-ne-some q h)
find-any test p (x ∷ t) q h holds = elim (Bool-cases (bears p x)) [
  | inl e ↦
      let same = some-injective x q (rw e at h) in
      rw (subst (λ y. test y ≡ true) (sym same) holds) refl
  | inr e ↦ rw (find-any test p t q (rw e at h) holds) (ground arith)
]

group_is_tree :
    (root : ℕ) (t : Table)
    → All (InGroup root) t
    → map (λ (q : Process). if q.group == root then killed q else q) t
      ≡ map (λ (q : Process). if is_descendant root q then killed q else q) t
group_is_tree root [] a = refl
group_is_tree root (q ∷ t) a = rw (a.0, group_is_tree root t a.1) refl

kill_group-tree :
    (root : ℕ) (t : Table)
    → Grouped root t
    → (getpgid root t ≡ some root)
      × (kill_group root t
          ≡ (map (λ (q : Process). if is_descendant root q then killed q else q) t, ok tt))
unfolding kill_group getpgid
kill_group-tree root t grouped =
    let (q, at) = borne-found root t grouped.borne in
    let (mine, bearing) = find-All (InGroup root) root t q grouped.all at in
    let number : (q.pid == root) ≡ true = ground arith in
    let alive : is_reaped q.life ≡ false = ground arith in
    let leads : (q.group == root) ≡ true = rw (mine, number) refl in
    let some_one =
      find-any (λ (x : Process). x.group == root && not (is_reaped x.life)) root t q at
        (rw (leads, alive) refl) in
    (
      rw (getpgid, at) (ap some ((==_iff q.group root).0 leads)),
      rw (kill_group, some_one) (ap (λ x. (x, ok tt)) (group_is_tree root t grouped.all)),
    )

kill_command :
    (pid : ℕ) (cmd : Cmd) (now : Table)
    → cmd.process ≡ some pid
    → Grouped pid now
    → kill_process_tree cmd now
      ≡ (map (λ (q : Process). if is_descendant pid q then killed q else q) now, ok tt)
unfolding kill_process_tree
kill_command pid cmd now is grouped =
    let (a, b) = kill_group-tree pid now grouped in rw (kill_process_tree, is, a) b

-- From the start of a command under a number that neither a process or its group nor one that forked a
-- process has had, and after any processes have forked, ended and been waited for and their numbers
-- were given again, where none has left its group and the process of the command has not been waited
-- for: killProcessTree ends that process and every process that descends from it, and no other.
pub kill_process_tree_lem :
    (agent agent_group pid : ℕ) (command : Text) (t : Table) (xs : List Event)
    → let (t1, cmd) =
        start agent agent_group pid (set_process_group (new_shell_command command)) t in
      let now = run t1 xs in
      IsFresh pid t
      → All (IsStaying pid) xs
      → kill_process_tree cmd now
        ≡ (map (λ (q : Process). if is_descendant pid q then killed q else q) now, ok tt)
unfolding start
kill_process_tree_lem agent agent_group pid command t xs fresh stays =
    kill_command pid _ _ refl
      (run-Grouped pid _ xs stays (started-Grouped agent agent_group pid command t fresh))
