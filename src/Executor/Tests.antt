-- ===== src/Executor/Tests.antt =====
-- Runs of the model of internal/executor/executor.go at concrete inputs. The toy patterns are
-- substrings.
use agent_ssh.Base.{
  ◌+◌, ◌≤◌, ◌≡◌, ◌≢◌, ◌↔◌, ◌⊎◌, refl, true, false, ◌||◌, if◌then◌else◌, map, none, some, List, [],
  ◌∷◌, All, OneOf, length, leb,
}
use agent_ssh.Base.Int.{pos, negsuc, ◌*ℤ◌, wrap64}
use agent_ssh.Base.Result.{ok}
use agent_ssh.Base.Text.{Text, codes, contains, has_prefix, trim_space, text_eq}
use agent_ssh.Config.Types.{ExecutorConfig, default_config}
use agent_ssh.Config.Load.{max_output_size}
use agent_ssh.Executor.Filter.{Regexp, Executor, compile_all, new, validate, first_field}
use agent_ssh.Executor.Processes.{
  running, zombie, reaped, Table, killed, start, Event, forks, exits, reaps, run,
}
use agent_ssh.Executor.Processes as System
use agent_ssh.Executor.SysUnix.{new_shell_command, set_process_group, kill_process_tree}
use agent_ssh.Executor.Groups.{is_descendant, IsFresh}
use agent_ssh.Executor.Trees.{kill_process_tree_lem}
use agent_ssh.Executor.Policy.{validate_iff}
use agent_ssh.Executor.Run.{Process, exit_error, collect}
use agent_ssh.Base.Path.{clean, join, is_abs, rel}
use agent_ssh.Base.Within.{Below}
use agent_ssh.Executor.WorkDir.{resolve_work_dir, is_outside, target_of}
use agent_ssh.Executor.Confine.{resolve_work_dir-Below}
use agent_ssh.Executor.Limits.{collect_bounds}

abbrev substrings : Regexp
substrings = record {
  Pattern = Text;
  compile = λ k. some k;
  matches = λ p s. contains s p;
  source = λ p. p;
}

abbrev cfg : ExecutorConfig
cfg = record default_config.executor {
  allowed_commands = codes "ls" ∷ codes "mkfs" ∷ [];
  blocked_keywords = codes "mkfs" ∷ [];
}

abbrev guarded : Executor substrings
guarded = record { cfg = cfg; block_list = codes "mkfs" ∷ [] }

validate_iff_example : (validate substrings guarded (codes "ls -l") ≡ ok tt) ↔ (
    (trim_space (codes "ls -l") ≢ [])
    × ((cfg.allowed_commands ≡ []) ⊎ OneOf (first_field (codes "ls -l")) cfg.allowed_commands)
    × All (λ p. contains (codes "ls -l") p ≡ false) (codes "mkfs" ∷ []))
validate_iff_example = validate_iff substrings guarded (codes "ls -l")

made : new substrings (λ _. true) cfg ≡ ok guarded
unfolding new compile_all
made = refl

mkfs_matches : contains (codes "mkfs /dev/sda") (codes "mkfs") ≡ true
unfolding contains has_prefix
mkfs_matches = refl

-- A command that is killed at its deadline, having written one byte.
abbrev late : Process
late = record {
  failure = none;
  stdout = codes "x";
  stderr = [];
  wait_error = some (exit_error (negsuc 0));
  deadline_exceeded = true;
  milliseconds = pos 1000;
}

ten_megabytes : max_output_size cfg ≡ pos 10485760
unfolding max_output_size wrap64 ◌*ℤ◌
ten_megabytes = refl

collect_bounds_example :
    (length (collect cfg late).stdout ≤ 10485760)
    × (length (collect cfg late).stderr ≤ 10485760 + 77)
    × ((collect cfg late).truncated
        ≡ (leb 10485760 (length late.stderr) || leb 10485760 (length late.stdout)))
collect_bounds_example = collect_bounds cfg late 10485760 ten_megabytes

resolves : resolve_work_dir (λ _. true) (codes "/w") (codes "a/../b") ≡ ok (codes "/w/b")
unfolding resolve_work_dir is_outside target_of trim_space clean join is_abs rel text_eq has_prefix
resolves = refl

resolve_work_dir-Below_example : Below (clean (codes "/w")) (codes "/w/b")
resolve_work_dir-Below_example =
    resolve_work_dir-Below (λ _. true) (codes "/w") (codes "a/../b") (codes "/w/b") resolves

-- Another process of the agent's group runs.
abbrev table : Table
table = record { pid = 7; group = 1; ancestors = 1 ∷ []; life = running } ∷ []

table-IsFresh : IsFresh 10 table
table-IsFresh = ((refl, refl), tt)

-- The command forks a process, which forks another and ends, is waited for, and whose number is given
-- again to a child of the agent's neighbour.
abbrev forked : List Event
forked = forks 10 11 ∷ forks 11 12 ∷ exits 11 ∷ reaps 11 ∷ forks 7 11 ∷ []

kill_process_tree_lem_example :
    let (t, cmd) = start 1 1 10 (set_process_group (new_shell_command (codes "make"))) table in
    let now = run t forked in
    kill_process_tree cmd now
    ≡ (map (λ (q : System.Process). if is_descendant 10 q then killed q else q) now, ok tt)
kill_process_tree_lem_example =
    kill_process_tree_lem 1 1 10 (codes "make") table forked table-IsFresh
      (tt, (tt, (tt, (refl, (tt, tt)))))

-- Once the command has been waited for and its number was given again, killProcessTree ends the group
-- of the process that bears it now.
foreign_is_killed :
    let (t, cmd) = start 1 1 10 (set_process_group (new_shell_command (codes "make"))) table in
    let now = run t (exits 10 ∷ reaps 10 ∷ forks 7 10 ∷ []) in
    (kill_process_tree (record cmd { waited = true }) now).0
    ≡ record { pid = 7; group = 1; ancestors = 1 ∷ []; life = zombie }
      ∷ record { pid = 10; group = 10; ancestors = 1 ∷ []; life = reaped }
      ∷ record { pid = 10; group = 1; ancestors = 7 ∷ 1 ∷ []; life = zombie }
      ∷ []
unfolding start run set_process_group new_shell_command kill_process_tree
foreign_is_killed = refl

-- U+3000 is white space: alone it is blank, and it ends the first word.
wide_is_blank : trim_space (0xe3 ∷ 0x80 ∷ 0x80 ∷ []) ≡ []
unfolding trim_space
wide_is_blank = refl

trims_both_ends :
    trim_space (b' ' ∷ 0xc2 ∷ 0x85 ∷ b'l' ∷ b' ' ∷ b's' ∷ 0xe2 ∷ 0x80 ∷ 0xaf ∷ 10 ∷ [])
    ≡ codes "l s"
unfolding trim_space
trims_both_ends = refl

wide_ends_word : first_field (b' ' ∷ b'l' ∷ b's' ∷ 0xe3 ∷ 0x80 ∷ 0x80 ∷ b'x' ∷ []) ≡ codes "ls"
unfolding first_field
wide_ends_word = refl
