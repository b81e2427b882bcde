-- ===== src/Main/Program.antt =====
-- main and initLogger of main.go, as the composition of the components. What the system answers is an
-- input; printing, signals, the HTTP server and the background goroutines are left out.
use agent_ssh.Base.{ℕ, Bool, true, false, not, ◌&&◌, Option, none, some, List, [], if◌then◌else◌}
use agent_ssh.Base.Files.{Files}
use agent_ssh.Base.Int.{ℤ}
use agent_ssh.Base.Result.{Result, ok, err}
use agent_ssh.Base.Text.{Text, text_eq}
use agent_ssh.Config.Types.{Config}
use agent_ssh.Config.Load.{Environment, LoadError, load}
use agent_ssh.Auth.Model as Auth
use agent_ssh.Auth.Model.{TokenFile, TokenManager, AuthError, init_token}
use agent_ssh.Executor.Filter
use agent_ssh.Executor.Filter.{Regexp, Executor}
use agent_ssh.Logger.Entry.{Entry, Crypto}
use agent_ssh.Logger.Verifier.{VerifyError, verify_log_file}
use agent_ssh.Logger.Keys.{
  KeyOps, KeyError, KeyIo, load_public_key, ensure_key_pair, generate_key_pair,
}
use agent_ssh.Logger.Lifecycle
use agent_ssh.Logger.Lifecycle.{OpenIo, Running, close}
use agent_ssh.Logger.Signing.{crypto_with}
use agent_ssh.TaskManager.Model as Tasks
use agent_ssh.TaskManager.Model.{TaskManager, cancel_all}

pub record Flags : Type 0 where
  pub config_path : Text
  pub generate_keys : Bool
  pub key_prefix : Text
  pub verify_log : Text

-- What the agent says before it ends with os.Exit.
pub data Reason : Type 0 where
  keys_generated log_verified : Reason
  generation_failed public_key_failed keys_failed : KeyError → Reason
  config_failed : LoadError → Reason
  log_unreadable : Reason
  log_refused : VerifyError → Reason
  token_failed : AuthError → Reason
  executor_failed : Filter.NewError → Reason

module _ (o : KeyOps) (c : Crypto) (k : o.PublicKey) (re : Regexp) where
  pub record World : Type 0 where
    pub env : Environment
    pub readable : Bool
    pub keys : KeyIo o
    pub log : OpenIo o c k
    pub read_log : Text → Option (List (Option (Entry c.Attrs)))
    pub auth : Auth.Io
    pub token_file : Option TokenFile
    pub mkdir_all : Text → Bool

  -- Standard output, standard error, or the handler that New returns, which may be nil.
  pub data Log : Type 0 where
    plain : Log
    fallback : Lifecycle.NewError → Log
    tamper_proof : Option (Running o c k) → Log

  pub record Agent : Type 0 where
    pub config : Config
    pub log : Log
    pub auth : TokenManager
    pub executor : Executor re
    pub tasks : TaskManager

  pub data Outcome : Type 0 where
    exit : ℕ → Reason → Outcome
    serving : Agent → Outcome

  unfoldable pub init_logger : World → Config → Files → Log
  init_logger w cfg files =
      if not cfg.log.enabled then plain else elim (Lifecycle.new o c k w.log cfg.log files) [
        | err x ↦ fallback x
        | ok handler ↦ tamper_proof handler
      ]

  -- From initLogger on. OnRotate is set after InitToken.
  unfoldable pub wire : World → Config → Log → Outcome
  wire w cfg log =
      let (tm, started) = init_token w.auth (Auth.new cfg.auth w.token_file) in
      elim started [
        | err x ↦ exit 1 (token_failed x)
        | ok _ ↦ elim (Filter.new re w.mkdir_all cfg.executor) [
          | err x ↦ exit 1 (executor_failed x)
          | ok engine ↦ serving (record {
            config = cfg;
            log = log;
            auth = record tm { on_rotate = true };
            executor = engine;
            tasks = Tasks.new cfg.task_manager;
          })
        ]
      ]

  unfoldable pub auto_generate : World → Config → Files → Files × Result KeyError Bool
  auto_generate w cfg files =
      if cfg.log.enabled && cfg.log.auto_generate_keys
      then ensure_key_pair o w.keys cfg.log.signature_algo cfg.log.sign_key_file
          cfg.log.verify_pub_file files
      else (files, ok false)

  unfoldable pub serve : World → Config → Files → Files × Outcome
  unfolding auto_generate init_logger wire
  serve w cfg files =
      let (files', generated) = auto_generate w cfg files in
      elim generated [
        | err x ↦ (files', exit 1 (keys_failed x))
        | ok _ ↦ (files', wire w cfg (init_logger w cfg files'))
      ]

  unfoldable pub check_log : World → Text → o.PublicKey → Outcome
  check_log w path key = elim (w.read_log path) [
    | none ↦ exit 1 log_unreadable
    | some lines ↦ elim (verify_log_file (record c { verify = o.verify_ed25519 key }) lines) [
      | err x ↦ exit 1 (log_refused x)
      | ok _ ↦ exit 0 log_verified
    ]
  ]

  unfoldable pub verify : World → Text → Config → Files → Outcome
  unfolding check_log
  verify w path cfg files = elim (load_public_key o w.readable cfg.log.verify_pub_file files) [
    | err x ↦ exit 1 (public_key_failed x)
    | ok key ↦ check_log w path key
  ]

  unfoldable pub generate : World → Text → Files → Files × Outcome
  generate w prefix files =
      let (files', made) = generate_key_pair o w.keys prefix files in
      elim made [
        | err x ↦ (files', exit 1 (generation_failed x))
        | ok _ ↦ (files', exit 0 keys_generated)
      ]

  unfoldable pub with_config : World → Flags → Config → Files → Files × Outcome
  unfolding serve verify
  with_config w flags cfg files =
      if text_eq flags.verify_log []
      then serve w cfg files
      else (files, verify w flags.verify_log cfg files)

  unfoldable pub main :
      (Text → Option Text)
      → (Text → Config → Option Config)
      → World
      → Flags
      → Files
      → Files × Outcome
  unfolding generate with_config
  main read_file unmarshal w flags files =
      if flags.generate_keys
      then generate w flags.key_prefix files
      else elim (load read_file unmarshal w.env flags.config_path) [
        | err x ↦ (files, exit 1 (config_failed x))
        | ok cfg ↦ with_config w flags cfg files
      ]

  unfoldable pub close_log : ℕ → ℕ → Log → Log
  close_log raced budget (tamper_proof (some m)) =
      let closed = close (crypto_with o c m.signer k) raced budget m.logger in
      tamper_proof (some (record m { logger = closed.0 }))
  close_log raced budget log = log

  -- After the signal: CancelAll, and the deferred Close of the log.
  unfoldable pub shutdown : ℤ → ℕ → ℕ → Agent → Agent
  unfolding close_log
  shutdown now raced budget a = record a {
    tasks = cancel_all now a.tasks;
    log = close_log raced budget a.log;
  }
