-- ===== src/Executor/WorkDir.antt =====
-- ResolveWorkDir of internal/executor/executor.go. os.MkdirAll is a parameter that says whether it
-- made the directory.
use agent_ssh.Base.{Bool, true, ◌||◌, Option, none, some, [], if◌then◌else◌}
use agent_ssh.Base.Path.{clean, join, rel, is_abs, dotdot}
use agent_ssh.Base.Result.{Result, ok, err}
use agent_ssh.Base.Text.{Text, codes, text_eq, trim_space, has_prefix}
use agent_ssh.Config.Types.{ExecutorConfig}

pub data WorkDirError : Type 0 where
  escapes : Text → Text → WorkDirError
  mkdir_failed : Text → WorkDirError

-- The condition of the refusal, on what Rel returned.
unfoldable pub is_outside : Option Text → Bool
unfolding text_eq has_prefix is_abs
is_outside none = true
is_outside (some r) = text_eq r dotdot || has_prefix r (codes "../") || is_abs r

unfoldable pub target_of : Text → Text → Text
unfolding clean join is_abs
target_of dir requested = let t = clean requested in if is_abs t then t else join dir t

unfoldable pub resolve_work_dir : (Text → Bool) → Text → Text → Result WorkDirError Text
unfolding trim_space text_eq
resolve_work_dir mkdir_all work_dir requested =
    let dir = clean work_dir in
    if text_eq (trim_space requested) []
    then ok dir
    else let target = target_of dir requested in
      if is_outside (rel dir target)
      then err (escapes requested dir)
      else if mkdir_all target
      then ok target
      else err (mkdir_failed target)

-- EnsureWorkDir, which makes the configured directory where it is missing.
unfoldable pub ensure_work_dir : (Text → Bool) → ExecutorConfig → Bool
unfolding clean
ensure_work_dir mkdir_all cfg = mkdir_all (clean cfg.work_dir)
