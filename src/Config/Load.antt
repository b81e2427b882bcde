-- ===== src/Config/Load.antt =====
-- Load, applyEnvOverrides and parseBool of internal/config/config.go. The environment is a function,
-- empty where a variable is unset, as os.Getenv has it. Reading a file and yaml.Unmarshal, which
-- fills a given Config, are parameters.
use agent_ssh.Base.{
  ℕ, ◌+◌, ◌-◌, ◌*◌, Bool, true, false, ◌&&◌, ◌||◌, Option, none, some, [], ◌∷◌, leb, ◌==◌,
  if◌then◌else◌,
}
use agent_ssh.Base.Int.{ℤ, pos, negsuc, leb_ℤ, ◌*ℤ◌, wrap64, int64_half}
use agent_ssh.Base.Result.{Result, ok, err, ◌>>=◌}
use agent_ssh.Base.Text.{Text, codes, text_eq, to_lower, split}
use agent_ssh.Config.Types.{
  Config, ServerConfig, AuthConfig, ExecutorConfig, TaskManagerConfig, LogConfig, MqConfig,
  default_config,
}

unfoldable pub is_digit : ℕ → Bool
is_digit c = leb b'0' c && leb c b'9'

unfoldable pub digits_from : ℕ → Text → Option ℕ
unfolding is_digit
digits_from n [] = some n
digits_from n (c ∷ s) =
    let rest = digits_from (n * 10 + (c - b'0')) s in if is_digit c then rest else none

unfoldable pub digits : Text → Option ℕ
unfolding digits_from
digits [] = none
digits (c ∷ s) = digits_from 0 (c ∷ s)

unfoldable pub in_range : Option ℕ → ℕ → (ℕ → ℤ) → Option ℤ
in_range none limit f = none
in_range (some n) limit f = if leb n limit then some (f n) else none

unfoldable pub negate : ℕ → ℤ
negate n = if n == 0 then pos 0 else negsuc (n - 1)

-- strconv.Atoi: an optional sign, at least one digit, and a value that fits int64.
unfoldable pub atoi : Text → Option ℤ
unfolding digits in_range negate
atoi [] = none
atoi (c ∷ s) =
    if c == b'-'
    then in_range (digits s) int64_half negate
    else if c == b'+'
    then in_range (digits s) (int64_half - 1) pos
    else in_range (digits (c ∷ s)) (int64_half - 1) pos

unfoldable pub parse_bool : Text → Bool → Bool
unfolding to_lower text_eq
parse_bool v def =
    let w = to_lower v in
    if text_eq w (codes "1")
      || text_eq w (codes "true")
      || text_eq w (codes "yes")
      || text_eq w (codes "on")
    then true
    else if text_eq w (codes "0")
        || text_eq w (codes "false")
        || text_eq w (codes "no")
        || text_eq w (codes "off")
    then false
    else def

abbrev pub Environment : Type 0
Environment = Text → Text

-- `if v := os.Getenv(...); v != "" { field = f(v) }`
unfoldable pub override {ℓ} : {A : Type ℓ} → Text → A → (Text → A) → A
override [] old f = old
override (c ∷ v) old f = f (c ∷ v)

-- The same where the value must be a number, and is ignored if it is none.
unfoldable pub override_int : Text → ℤ → ℤ
unfolding override
override_int v old = override v old (λ w. elim (atoi w) [ none ↦ old | some n ↦ n ])

unfoldable pub override_server : Environment → ServerConfig → ServerConfig
unfolding override override_int
override_server env s = record s {
  host = override (env (codes "SERVER_HOST")) s.host (λ v. v);
  port = override_int (env (codes "SERVER_PORT")) s.port;
}

unfoldable pub override_auth : Environment → AuthConfig → AuthConfig
unfolding override override_int
override_auth env a = record a {
  token_file = override (env (codes "AUTH_TOKEN_FILE")) a.token_file (λ v. v);
  rotation_hour = override_int (env (codes "AUTH_ROTATION_HOUR")) a.rotation_hour;
}

unfoldable pub override_executor : Environment → ExecutorConfig → ExecutorConfig
unfolding override override_int
override_executor env e = record e {
  work_dir = override (env (codes "EXECUTOR_WORK_DIR")) e.work_dir (λ v. v);
  upload_dir = override (env (codes "EXECUTOR_UPLOAD_DIR")) e.upload_dir (λ v. v);
  max_upload_size_mb =
      override_int (env (codes "EXECUTOR_MAX_UPLOAD_SIZE_MB")) e.max_upload_size_mb;
  allowed_extensions =
      override (env (codes "EXECUTOR_ALLOWED_EXTENSIONS")) e.allowed_extensions (split b',');
}

unfoldable pub override_mq : Environment → MqConfig → MqConfig
unfolding override
override_mq env m = record m {
  kind = override (env (codes "LOG_MQ_TYPE")) m.kind (λ v. v);
  topic = override (env (codes "LOG_MQ_TOPIC")) m.topic (λ v. v);
  file = record { dir = override (env (codes "LOG_MQ_FILE_DIR")) m.file.dir (λ v. v) };
  redis = record m.redis {
    addr = override (env (codes "LOG_MQ_REDIS_ADDR")) m.redis.addr (λ v. v);
  };
  kafka = record m.kafka {
    brokers = override (env (codes "LOG_MQ_KAFKA_BROKERS")) m.kafka.brokers (split b',');
  };
}

unfoldable pub override_log : Environment → LogConfig → LogConfig
unfolding override override_mq
override_log env l = record l {
  enabled = override (env (codes "LOG_ENABLED")) l.enabled (λ v. parse_bool v l.enabled);
  file = override (env (codes "LOG_FILE")) l.file (λ v. v);
  sign_key_file = override (env (codes "LOG_SIGN_KEY_FILE")) l.sign_key_file (λ v. v);
  console_output =
      override (env (codes "LOG_CONSOLE_OUTPUT")) l.console_output
        (λ v. parse_bool v l.console_output);
  auto_generate_keys =
      override (env (codes "LOG_AUTO_GENERATE_KEYS")) l.auto_generate_keys
        (λ v. parse_bool v l.auto_generate_keys);
  mq = override_mq env l.mq;
}

unfoldable pub apply_env_overrides : Environment → Config → Config
apply_env_overrides env cfg = record cfg {
  server = override_server env cfg.server;
  auth = override_auth env cfg.auth;
  executor = override_executor env cfg.executor;
  log = override_log env cfg.log;
}

-- `if x <= 0 { x = def }`
unfoldable pub positive_or : ℤ → ℤ → ℤ
positive_or x def = if leb_ℤ x (pos 0) then def else x

-- `if s == "" { s = def }`
unfoldable pub nonempty_or : Text → Text → Text
nonempty_or [] def = def
nonempty_or (c ∷ s) def = c ∷ s

-- The assignments that follow the check of the port.
unfoldable pub fill_defaults : Config → Config
unfolding positive_or nonempty_or
fill_defaults cfg = record cfg {
  auth = record cfg.auth { token_length = positive_or cfg.auth.token_length (pos 32) };
  executor = record cfg.executor {
    default_timeout = positive_or cfg.executor.default_timeout (pos 30);
    max_timeout = positive_or cfg.executor.max_timeout (pos 300);
    max_output_size_mb = positive_or cfg.executor.max_output_size_mb (pos 10);
    max_upload_size_mb = positive_or cfg.executor.max_upload_size_mb (pos 64);
  };
  task_manager = record {
    max_running_tasks = positive_or cfg.task_manager.max_running_tasks (pos 50);
    retention_minutes = positive_or cfg.task_manager.retention_minutes (pos 60);
  };
  log = record cfg.log {
    file = nonempty_or cfg.log.file (codes "/var/log/agent/agent.log");
    signature_algo = nonempty_or cfg.log.signature_algo (codes "ed25519");
    mq = record cfg.log.mq { topic = nonempty_or cfg.log.mq.topic (codes "agent-logs") };
  };
}

pub data LoadError : Type 0 where
  read_failed parse_failed bad_port : LoadError

unfoldable pub check_port : Config → Result LoadError Config
check_port cfg = if leb_ℤ cfg.server.port (pos 0) then err bad_port else ok cfg

module _ (read_file : Text → Option Text) (unmarshal : Text → Config → Option Config) where
  unfoldable pub load_file : Text → Result LoadError Config
  load_file [] = ok default_config
  load_file (c ∷ path) = elim (read_file (c ∷ path)) [
    | none ↦ err read_failed
    | some content ↦ elim (unmarshal content default_config) [
      | none ↦ err parse_failed
      | some cfg ↦ ok cfg
    ]
  ]

  unfoldable pub load : Environment → Text → Result LoadError Config
  load env path = do
    cfg ← load_file path
    checked ← check_port (apply_env_overrides env cfg)
    ok (fill_defaults checked)

-- MaxOutputSize: int64 arithmetic.
unfoldable pub max_output_size : ExecutorConfig → ℤ
max_output_size c = wrap64 (wrap64 (c.max_output_size_mb *ℤ pos 1024) *ℤ pos 1024)

-- Nanoseconds.
abbrev pub minute : ℤ
minute = pos 60000000000

unfoldable pub retention : TaskManagerConfig → ℤ
retention c = wrap64 (c.retention_minutes *ℤ minute)
