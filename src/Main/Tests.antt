-- ===== src/Main/Tests.antt =====
-- Runs of the model of main.go at concrete inputs.
use agent_ssh.Base.{◌≡◌, ◌↔◌, refl, true, false, none, some, List, [], ◌∷◌, Option}
use agent_ssh.Base.Int.{pos}
use agent_ssh.Base.Files.{write_file, is_file}
use agent_ssh.Base.Hex
use agent_ssh.Base.Path.{clean, dir}
use agent_ssh.Base.Result.{ok}
use agent_ssh.Base.Text.{Text, codes, contains, text_eq}
use agent_ssh.Config.Types.{Config, default_config}
use agent_ssh.Config.Load.{
  load, load_file, apply_env_overrides, override_server, override_auth, override_executor,
  override_log, check_port, fill_defaults, positive_or, nonempty_or,
}
use agent_ssh.Auth.Model as Auth
use agent_ssh.Auth.Model.{
  TokenManager, init_token, init_file, rotate_token, generate_token, atomic_write_token,
  after_write, announce, forget_result, owner_only, timer,
}
use agent_ssh.Auth.Rotation.{Draws}
use agent_ssh.Executor.Filter
use agent_ssh.Executor.Filter.{Regexp, Executor, compile_all}
use agent_ssh.Logger.Keys.{
  ensure_key_pair, dir_fails, make_key, generate_pair, write_pair, write_private_key,
  write_public_key, created, algorithm_of,
}
use agent_ssh.Logger.KeyTests.{texts, calls, plain, answers, nothing_there, with_key}
use agent_ssh.TaskManager.Model as Tasks
use agent_ssh.Main.Program.{
  Flags, World, Agent, serving, exit, log_verified, init_logger, auto_generate, wire, serve,
  with_config, main,
}
use agent_ssh.Executor.Run.{Process}
use agent_ssh.Gateway.Types.{ExecRequest}
use agent_ssh.Gateway.Routes.{exec, create_task}
use agent_ssh.Gateway.Service.{Event, calls as asks, wakes, works, begins, intrudes, writes, run}
use agent_ssh.Main.Service.{server_of, Guards, main-Guards}
use agent_ssh.Main.Startup.{IsReady, main-IsReady}
use agent_ssh.Main.Checking.{Accepts, main-verifies}

abbrev substrings : Regexp
substrings = record {
  Pattern = Text;
  compile = λ k. some k;
  matches = λ p s. contains s p;
  source = λ p. p;
}

abbrev quick : Process
quick = record {
  failure = none;
  stdout = codes "x";
  stderr = [];
  wait_error = none;
  deadline_exceeded = false;
  milliseconds = pos 1;
}

abbrev request : ExecRequest
request = record { command = codes "ls"; timeout = pos 1; work_dir = [] }

abbrev no_file : Text → Option Text
no_file p = none

abbrev no_yaml : Text → Config → Option Config
no_yaml t c = none

abbrev world : World texts plain (codes "k") substrings
world = record {
  env = λ v. [];
  readable = true;
  keys = calls;
  log = answers;
  read_log = λ p. some [];
  auth = record {
    mkdir = true;
    stat = true;
    read = true;
    random = some (1 ∷ []);
    write = true;
    partial = none;
    rename = true;
    remove = true;
    chmod = true;
  };
  token_file = none;
  mkdir_all = λ d. true;
}

abbrev flags : Flags
flags = record { config_path = []; generate_keys = false; key_prefix = []; verify_log = [] }

abbrev agent : Agent texts plain (codes "k") substrings
agent = record {
  config = default_config;
  log =
      init_logger texts plain (codes "k") substrings world default_config
        (auto_generate texts plain (codes "k") substrings world default_config nothing_there).0;
  auth = record {
    token = codes "01";
    token_length = default_config.auth.token_length;
    rotation_hour = default_config.auth.rotation_hour;
    on_rotate = true;
    manual = false;
    announced = [];
    file = some (record { content = codes "01"; mode = owner_only });
    temp = none;
  };
  executor = record {
    cfg = default_config.executor;
    block_list = default_config.executor.blocked_keywords;
  };
  tasks = Tasks.new default_config.task_manager;
}

loads : load no_file no_yaml world.env [] ≡ ok default_config
unfolding load load_file apply_env_overrides override_server override_auth override_executor
    override_log check_port fill_defaults positive_or nonempty_or
loads = refl

serves :
    (main texts plain (codes "k") substrings no_file no_yaml world flags nothing_there).1
    ≡ serving agent
unfolding main with_config text_eq serve auto_generate ensure_key_pair is_file dir_fails dir clean
    make_key generate_pair write_pair write_private_key write_public_key write_file created
    algorithm_of wire Auth.new init_token init_file rotate_token generate_token atomic_write_token
    after_write announce forget_result Filter.new compile_all Hex.encode
serves = rw (main, loads) refl

draws : Draws world.auth
draws bs h q = cc

main-IsReady_example : IsReady no_file no_yaml texts plain (codes "k") substrings world flags agent
main-IsReady_example =
    main-IsReady no_file no_yaml texts plain (codes "k") substrings world flags nothing_there agent
      draws serves

-- A command with what it writes, a rotation, and a task with its goroutine.
abbrev happens : List (Event substrings agent.executor world.mkdir_all)
happens =
    asks world.auth [] (codes "Bearer 01") [] (λ _. exec (λ _ _ _. quick) (some request))
    ∷ writes (codes "/tmp/x") (some (codes "x"))
    ∷ intrudes none none
    ∷ wakes world.auth timer
    ∷ asks world.auth [] (codes "Bearer 01") []
        (λ _. create_task (codes "job-1") (pos 5) (some request))
    ∷ works (begins (pos 6) 0)
    ∷ []

main-Guards_example :
    Guards no_file no_yaml texts plain
      (codes "k")
      substrings
      agent
      world.mkdir_all
      happens
      (λ _. none)
      (run substrings agent.executor world.mkdir_all
        (server_of no_file no_yaml texts plain (codes "k") substrings agent (λ _. none))
        happens)
main-Guards_example =
    main-Guards no_file no_yaml texts plain (codes "k") substrings world flags nothing_there
      (λ _. none) agent happens draws serves

abbrev checking : Flags
checking = record flags { verify_log = codes "log" }

main-verifies_example :
    (main texts plain (codes "k") substrings no_file no_yaml world checking with_key
      ≡ (with_key, exit 0 log_verified))
    ↔ Accepts no_file no_yaml texts plain (codes "k") substrings world checking with_key
main-verifies_example =
    main-verifies no_file no_yaml texts plain (codes "k") substrings world checking with_key refl
      (λ q. cc)
