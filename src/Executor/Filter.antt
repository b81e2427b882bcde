-- ===== src/Executor/Filter.antt =====
-- New and Validate of internal/executor/executor.go. The package regexp is a parameter: a type of
-- compiled patterns, Compile, which may fail, MatchString, and String.
use agent_ssh.Base.{Bool, ◌==◌, not, Option, none, some, List, [], ◌∷◌, if◌then◌else◌, any}
use agent_ssh.Base.Path.{join}
use agent_ssh.Base.Int.{ℤ, pos, ◌*ℤ◌, wrap64}
use agent_ssh.Base.Result.{Result, ok, err, ◌>>=◌}
use agent_ssh.Base.Text.{Text, codes, text_eq, leading_space, trim_left, trim_space}
use agent_ssh.Config.Types.{ExecutorConfig}

pub record Regexp : Type 1 where
  pub Pattern : Type 0
  pub compile : Text → Option Pattern
  pub matches : Pattern → Text → Bool
  pub source : Pattern → Text

pub data ValidateError : Type 0 where
  command_empty not_allowed : ValidateError
  blocked : Text → ValidateError

pub data NewError : Type 0 where
  create_work_dir create_upload_dir : NewError
  bad_keyword : Text → NewError

-- The first word of strings.Fields. No character of white space begins within another character, so
-- that it is enough to look at every byte.
until_space : Text → Text
unfolding leading_space
until_space [] = []
until_space (c ∷ s) = if leading_space (c ∷ s) == 0 then c ∷ until_space s else []

unfoldable pub first_field : Text → Text
unfolding until_space trim_left
first_field s = until_space (trim_left s)

-- UploadDir
unfoldable pub upload_dir : ExecutorConfig → Text
unfolding join
upload_dir cfg = elim cfg.upload_dir [ [] ↦ join cfg.work_dir (codes "uploads") | c ∷ s ↦ c ∷ s ]

-- MaxUploadSize: int64 arithmetic.
unfoldable pub max_upload_size : ExecutorConfig → ℤ
max_upload_size cfg = wrap64 (wrap64 (cfg.max_upload_size_mb *ℤ pos 1024) *ℤ pos 1024)

module _ (re : Regexp) where
  open re use {Pattern, compile, matches, source}

  pub record Executor : Type 0 where
    pub cfg : ExecutorConfig
    pub block_list : List Pattern

  -- The loop over BlockedKeywords in New.
  unfoldable pub compile_all : List Text → Result NewError (List Pattern)
  compile_all [] = ok []
  compile_all (keyword ∷ rest) = elim (compile keyword) [
    | none ↦ err (bad_keyword keyword)
    | some p ↦ do ps ← compile_all rest; ok (p ∷ ps)
  ]

  -- The directories are made by os.MkdirAll, which says whether it succeeded.
  unfoldable pub new : (Text → Bool) → ExecutorConfig → Result NewError Executor
  new mkdir_all cfg =
      if not (mkdir_all cfg.work_dir)
      then err create_work_dir
      else if not (mkdir_all (upload_dir cfg))
      then err create_upload_dir
      else do
        block_list ← compile_all cfg.blocked_keywords
        ok (record { cfg = cfg; block_list = block_list })

  unfoldable pub check_allowed : List Text → Text → Result ValidateError (Unit {0})
  check_allowed [] command = ok tt
  check_allowed (a ∷ allowed) command =
      if any (λ w. text_eq (first_field command) w) (a ∷ allowed) then ok tt else err not_allowed

  unfoldable pub check_blocked : List Pattern → Text → Result ValidateError (Unit {0})
  check_blocked [] command = ok tt
  check_blocked (p ∷ ps) command =
      if matches p command then err (blocked (source p)) else check_blocked ps command

  unfoldable pub validate : Executor → Text → Result ValidateError (Unit {0})
  validate e command =
      if text_eq (trim_space command) []
      then err command_empty
      else do _ ← check_allowed e.cfg.allowed_commands command; check_blocked e.block_list command
