-- ===== src/Config/Valid.antt =====
-- What Load of internal/config/config.go promises of the configuration that it returns.
use agent_ssh.Base.{◌≡◌, ◌≢◌, refl, subst, ◌⊎◌, Option, [], ◌∷◌, arith}
use agent_ssh.Base.Int.{ℤ, pos, ◌≤ℤ◌}
use agent_ssh.Base.Result.{ok, err, >>=-eq-ok, ok_inj}
use agent_ssh.Base.Text.{Text, codes}
use agent_ssh.Config.Types.{Config}
use agent_ssh.Config.Load.{
  Environment, bad_port, apply_env_overrides, positive_or, nonempty_or, fill_defaults, check_port,
  load_file, load, override_server, override_auth, override_executor, override_log,
}

-- Every quantity that the components divide the machine by is positive.
pub record IsValid (c : Config) : Type 0 where
  pub port : pos 1 ≤ℤ c.server.port
  pub token_length : pos 1 ≤ℤ c.auth.token_length
  pub default_timeout : pos 1 ≤ℤ c.executor.default_timeout
  pub max_timeout : pos 1 ≤ℤ c.executor.max_timeout
  pub max_output_size_mb : pos 1 ≤ℤ c.executor.max_output_size_mb
  pub max_upload_size_mb : pos 1 ≤ℤ c.executor.max_upload_size_mb
  pub max_running_tasks : pos 1 ≤ℤ c.task_manager.max_running_tasks
  pub retention_minutes : pos 1 ≤ℤ c.task_manager.retention_minutes
  pub log_file : c.log.file ≢ []
  pub signature_algo : c.log.signature_algo ≢ []
  pub mq_topic : c.log.mq.topic ≢ []

positive_or-pos : (x d : ℤ) → pos 1 ≤ℤ d → pos 1 ≤ℤ positive_or x d
unfolding positive_or
positive_or-pos x d h = ground arith

nonempty_or-ne : (s d : Text) → d ≢ [] → nonempty_or s d ≢ []
unfolding nonempty_or
nonempty_or-ne [] d h = h
nonempty_or-ne (c ∷ s) d h = λ e. cc

fill_defaults-IsValid : (c : Config) → pos 1 ≤ℤ c.server.port → IsValid (fill_defaults c)
unfolding fill_defaults
fill_defaults-IsValid c h = record {
  port = h;
  token_length = positive_or-pos c.auth.token_length (pos 32) (omega arith);
  default_timeout = positive_or-pos c.executor.default_timeout (pos 30) (omega arith);
  max_timeout = positive_or-pos c.executor.max_timeout (pos 300) (omega arith);
  max_output_size_mb = positive_or-pos c.executor.max_output_size_mb (pos 10) (omega arith);
  max_upload_size_mb = positive_or-pos c.executor.max_upload_size_mb (pos 64) (omega arith);
  max_running_tasks = positive_or-pos c.task_manager.max_running_tasks (pos 50) (omega arith);
  retention_minutes = positive_or-pos c.task_manager.retention_minutes (pos 60) (omega arith);
  log_file = nonempty_or-ne c.log.file (codes "/var/log/agent/agent.log") (λ e. cc);
  signature_algo = nonempty_or-ne c.log.signature_algo (codes "ed25519") (λ e. cc);
  mq_topic = nonempty_or-ne c.log.mq.topic (codes "agent-logs") (λ e. cc);
}

check_port-pos : (c d : Config) → check_port c ≡ ok d → (d ≡ c) × (pos 1 ≤ℤ d.server.port)
unfolding check_port
check_port-pos c d h = ground arith

positive_or_id : (x d : ℤ) → pos 1 ≤ℤ x → positive_or x d ≡ x
unfolding positive_or
positive_or_id x d h = ground arith

nonempty_or_id : (s d : Text) → s ≢ [] → nonempty_or s d ≡ s
unfolding nonempty_or
nonempty_or_id [] d h = absurd (h refl)
nonempty_or_id (c ∷ s) d h = refl

-- Validation is idempotent: a configuration that is valid is not changed by the defaults.
pub fill_defaults_id : (c : Config) → IsValid c → fill_defaults c ≡ c
unfolding fill_defaults
fill_defaults_id c v = λ i. record c {
  auth = record c.auth {
    token_length = positive_or_id c.auth.token_length (pos 32) v.token_length i;
  };
  executor = record c.executor {
    default_timeout = positive_or_id c.executor.default_timeout (pos 30) v.default_timeout i;
    max_timeout = positive_or_id c.executor.max_timeout (pos 300) v.max_timeout i;
    max_output_size_mb =
        positive_or_id c.executor.max_output_size_mb (pos 10) v.max_output_size_mb i;
    max_upload_size_mb =
        positive_or_id c.executor.max_upload_size_mb (pos 64) v.max_upload_size_mb i;
  };
  task_manager = record {
    max_running_tasks =
        positive_or_id c.task_manager.max_running_tasks (pos 50) v.max_running_tasks i;
    retention_minutes =
        positive_or_id c.task_manager.retention_minutes (pos 60) v.retention_minutes i;
  };
  log = record c.log {
    file = nonempty_or_id c.log.file (codes "/var/log/agent/agent.log") v.log_file i;
    signature_algo = nonempty_or_id c.log.signature_algo (codes "ed25519") v.signature_algo i;
    mq = record c.log.mq {
      topic = nonempty_or_id c.log.mq.topic (codes "agent-logs") v.mq_topic i;
    };
  };
}

check_port_valid : (c : Config) → IsValid c → check_port c ≡ ok c
unfolding check_port
check_port_valid c v = let h : pos 1 ≤ℤ c.server.port = v.port in ground arith

module _ (read_file : Text → Option Text) (unmarshal : Text → Config → Option Config) where
  -- Whatever the file, the YAML decoder and the environment hold, a configuration that Load returns
  -- is valid: port, limits and sizes are positive, and the log's file, algorithm and topic are set.
  pub load-IsValid :
      (env : Environment) (path : Text) (c : Config)
      → load read_file unmarshal env path ≡ ok c
      → IsValid c
  unfolding load
  load-IsValid env path c h =
      let (file, _, h') = >>=-eq-ok (load_file read_file unmarshal path) _ h in
      let (checked, e, last) = >>=-eq-ok (check_port (apply_env_overrides env file)) _ h' in
      subst IsValid (ok_inj last) (fill_defaults-IsValid checked (check_port-pos _ checked e).1)

  -- What Load does with the Config that the file gives: it refuses a port that is not positive and
  -- fills the defaults of the others.
  pub load_outcome :
      (env : Environment) (path : Text) (file : Config)
      → load_file read_file unmarshal path ≡ ok file
      → let c = apply_env_overrides env file in
        ((c.server.port ≤ℤ pos 0) × (load read_file unmarshal env path ≡ err bad_port))
        ⊎ ((pos 1 ≤ℤ c.server.port) × (load read_file unmarshal env path ≡ ok (fill_defaults c)))
  unfolding load check_port
  load_outcome env path file h = rw h (ground arith)

  -- Reloading what was saved: when the file decodes to a valid configuration and no variable of
  -- the environment is set, Load returns that configuration unchanged.
  pub load-id :
      (path : Text) (c : Config)
      → load_file read_file unmarshal path ≡ ok c
      → IsValid c
      → load read_file unmarshal (λ _. []) path ≡ ok c
  unfolding load check_port apply_env_overrides override_server override_auth override_executor
      override_log
  load-id path c h v = rw (h, check_port_valid c v, fill_defaults_id c v)
