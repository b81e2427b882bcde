-- ===== src/Executor/Processes.antt =====
-- The processes of the system, as internal/executor/executor_sys_unix.go and
-- executor_sys_windows.go use them: what Start, Getpgid and Kill do. A process stays in the table
-- when it is gone; its number may then be given again.
use agent_ssh.Base.{
  ℕ, Bool, true, false, not, ◌&&◌, ◌||◌, Option, none, some, List, [], ◌∷◌, ◌++◌, ◌==◌,
  if◌then◌else◌, any, map,
}
use agent_ssh.Base.Result.{Result, ok, err}
use agent_ssh.Base.Text.{Text}

pub data Life : Type 0 where
  running zombie reaped : Life

-- `ancestors` has the numbers of the process that forked it, of the one that forked that, and so on.
pub record Process : Type 0 where
  pub pid : ℕ
  pub group : ℕ
  pub ancestors : List ℕ
  pub life : Life

abbrev pub Table : Type 0
Table = List Process

-- exec.Cmd: the program and its arguments, Setpgid of its SysProcAttr, its process once it is started,
-- and whether Wait has returned.
pub record Cmd : Type 0 where
  pub path : Text
  pub arguments : List Text
  pub setpgid : Bool
  pub process : Option ℕ
  pub waited : Bool

pub data SystemError : Type 0 where
  no_such_process process_finished : SystemError

abbrev pub is_running : Life → Bool
is_running running = true
is_running _ = false

abbrev pub is_reaped : Life → Bool
is_reaped reaped = true
is_reaped _ = false

-- The process bears the number now.
abbrev pub bears : ℕ → Process → Bool
bears p q = q.pid == p && not (is_reaped q.life)

unfoldable pub find : ℕ → Table → Option Process
find p [] = none
find p (q ∷ t) = if bears p q then some q else find p t

-- A number is not given to a new process while a process or its group bears it.
unfoldable pub is_taken : ℕ → Table → Bool
is_taken p t = any (λ (q : Process). not (is_reaped q.life) && (q.pid == p || q.group == p)) t

unfoldable pub update : (Process → Process) → ℕ → Table → Table
update f p t = map (λ (q : Process). if q.pid == p then f q else q) t

-- SIGKILL ends a process that runs; it is a zombie until its parent has waited for it.
unfoldable pub killed : Process → Process
killed q = if is_running q.life then record q { life = zombie } else q

-- The process with which the agent, of number `agent`, starts a command.
unfoldable pub start : (agent agent_group pid : ℕ) → Cmd → Table → Table × Cmd
start agent agent_group pid cmd t = (
  t
      ++ record {
        pid = pid;
        group = if cmd.setpgid then pid else agent_group;
        ancestors = agent ∷ [];
        life = running;
      }
        ∷ [],
  record cmd { process = some pid },
)

unfoldable pub getpgid : ℕ → Table → Option ℕ
unfolding find
getpgid p t = elim (find p t) [ none ↦ none | some q ↦ some q.group ]

-- Kill of os.Process, which knows whether its process has been waited for.
unfoldable pub kill_process : Bool → ℕ → Table → Table × Result SystemError (Unit {0})
unfolding find update killed
kill_process waited p t =
    if waited
    then (t, err process_finished)
    else elim (find p t) [ none ↦ (t, err process_finished) | some q ↦ (update killed p t, ok tt) ]

-- syscall.Kill with a negative number, for the whole group.
unfoldable pub kill_group : ℕ → Table → Table × Result SystemError (Unit {0})
unfolding killed
kill_group g t =
    if any (λ (q : Process). q.group == g && not (is_reaped q.life)) t
    then (map (λ (q : Process). if q.group == g then killed q else q) t, ok tt)
    else (t, err no_such_process)

-- What processes do by themselves.
pub data Event : Type 0 where
  forks : (parent child : ℕ) → Event
  exits reaps : ℕ → Event
  moves : (p group : ℕ) → Event

unfoldable pub child_of : Process → ℕ → Process
child_of q child = record {
  pid = child;
  group = q.group;
  ancestors = q.pid ∷ q.ancestors;
  life = running;
}

unfoldable pub step : Table → Event → Table
unfolding find is_taken update killed child_of
step t (forks parent child) = elim (find parent t) [
  | none ↦ t
  | some q ↦ if is_running q.life && not (is_taken child t) then t ++ child_of q child ∷ [] else t
]
step t (exits p) = update killed p t
step t (reaps p) = update (λ q. if is_running q.life then q else record q { life = reaped }) p t
step t (moves p g) = update (λ q. record q { group = g }) p t

unfoldable pub run : Table → List Event → Table
unfolding step
run t [] = t
run t (x ∷ xs) = run (step t x) xs
