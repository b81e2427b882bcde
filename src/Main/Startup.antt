-- ===== src/Main/Startup.antt =====
-- What main of main.go has made sure of when the agent serves, and when it ends instead.
use agent_ssh.Base.{
  ◌≡◌, ◌≢◌, refl, sym, ap, subst, ◌∙◌, inl, inr, true, Option, some, [], OneOf, Bool-cases,
  Option-cases,
}
use agent_ssh.Base.Files.{Files}
use agent_ssh.Base.Int.{pos, ◌≤ℤ◌}
use agent_ssh.Base.Result.{ok, Result-cases}
use agent_ssh.Base.Text.{Text, text_eq, text_eq_iff}
use agent_ssh.Config.Types.{Config}
use agent_ssh.Config.Load.{load}
use agent_ssh.Config.Valid.{IsValid, load-IsValid}
use agent_ssh.Auth.Model as Auth
use agent_ssh.Auth.Model.{TokenFile, TokenManager, AuthError, init_token}
use agent_ssh.Auth.Rotation.{Draws, Starts, init_token-Starts}
use agent_ssh.Executor.Filter
use agent_ssh.Executor.Filter.{Regexp, Executor, validate}
use agent_ssh.Executor.Policy.{new-blocks, new-Compiled}
use agent_ssh.Logger.Entry.{Crypto}
use agent_ssh.Logger.Verifier.{verify_log_file}
use agent_ssh.Logger.Keys.{KeyOps, load_public_key, generate_key_pair}
use agent_ssh.TaskManager.Model as Tasks
use agent_ssh.TaskManager.Model.{TaskManager}
use agent_ssh.Main.Program.{
  Flags, World, Log, Agent, Outcome, serving, init_logger, wire, auto_generate, serve, check_log,
  verify, generate, with_config, main,
}

Starts-on_rotate : (tm : TokenManager) → Starts tm → Starts (record tm { on_rotate = true })
Starts-on_rotate tm (s, h) = (record { memory = s.memory; disk = s.disk }, h)

module _ (read_file : Text → Option Text) (unmarshal : Text → Config → Option Config) (o : KeyOps)
    (c : Crypto) (k : o.PublicKey) (re : Regexp) where
  open re use {Pattern, compile, matches}

  serving_inj : (a b : Agent o c k re) → ◌≡◌ {A = Outcome o c k re} (serving a) (serving b) → a ≡ b
  serving_inj a b h = cc

  -- Where `wire` gets to.
  record Wired (w : World o c k re) (cfg : Config) (log : Log o c k re) (a : Agent o c k re)
      : Type 0 where
    config : a.config ≡ cfg
    logs : a.log ≡ log
    token : (init_token w.auth (Auth.new cfg.auth w.token_file)).1 ≡ ok tt
    auth :
        a.auth
        ≡ record ((init_token w.auth (Auth.new cfg.auth w.token_file)).0) { on_rotate = true }
    executor : Filter.new re w.mkdir_all cfg.executor ≡ ok a.executor
    tasks : a.tasks ≡ Tasks.new cfg.task_manager

  wire_ok :
      (w : World o c k re) (cfg : Config) (log : Log o c k re) (a : Agent o c k re)
      → wire o c k re w cfg log ≡ serving a
      → Wired w cfg log a
  unfolding wire
  wire_ok w cfg log a h =
      let t = init_token w.auth (Auth.new cfg.auth w.token_file) in
      elim (Result-cases t.1) [
        | inr (x, e) ↦ let g = rw (wire, e) at h in cc
        | inl (_, e) ↦ elim (Result-cases (Filter.new re w.mkdir_all cfg.executor)) [
          | inr (x, f) ↦ let g = rw (wire, e, f) at h in cc
          | inl (engine, f) ↦
              let made : Agent o c k re = record {
                config = cfg;
                log = log;
                auth = record (t.0) { on_rotate = true };
                executor = engine;
                tasks = Tasks.new cfg.task_manager;
              } in
              let g : made ≡ a = serving_inj made a (rw (wire, e, f) at h) in
              subst (Wired w cfg log) g (record {
                config = refl;
                logs = refl;
                token = e;
                auth = refl;
                executor = f;
                tasks = refl;
              })
        ]
      ]

  serve_ok :
      (w : World o c k re) (cfg : Config) (files : Files) (a : Agent o c k re)
      → (serve o c k re w cfg files).1 ≡ serving a
      → Wired w cfg (init_logger o c k re w cfg (auto_generate o c k re w cfg files).0) a
  unfolding serve
  serve_ok w cfg files a h = elim (Result-cases (auto_generate o c k re w cfg files).1) [
    | inr (x, e) ↦ let g = rw (serve, e) at h in cc
    | inl (b, e) ↦ wire_ok w cfg _ a (rw (serve, e) at h)
  ]

  verify-ne-serving :
      (w : World o c k re) (path : Text) (cfg : Config) (files : Files) (a : Agent o c k re)
      → verify o c k re w path cfg files ≢ serving a
  unfolding verify check_log
  verify-ne-serving w path cfg files a h =
      elim (Result-cases (load_public_key o w.readable cfg.log.verify_pub_file files)) [
        | inr (x, e) ↦ let g = rw (verify, e) at h in cc
        | inl (key, e) ↦ elim (Option-cases (w.read_log path)) [
          | inl f ↦ let g = rw (verify, e, check_log, f) at h in cc
          | inr (lines, f) ↦
              elim (Result-cases
                (verify_log_file (record c { verify = o.verify_ed25519 key }) lines)) [
                  | inr (x, q) ↦ let g = rw (verify, e, check_log, f, q) at h in cc
                  | inl (r, q) ↦ let g = rw (verify, e, check_log, f, q) at h in cc
                ]
        ]
      ]

  generate-ne-serving :
      (w : World o c k re) (prefix : Text) (files : Files) (a : Agent o c k re)
      → (generate o c k re w prefix files).1 ≢ serving a
  unfolding generate
  generate-ne-serving w prefix files a h =
      elim (Result-cases (generate_key_pair o w.keys prefix files).1) [
        | inr (x, e) ↦ let g = rw (generate, e) at h in cc
        | inl (b, e) ↦ let g = rw (generate, e) at h in cc
      ]

  with_config_ok :
      (w : World o c k re) (flags : Flags) (cfg : Config) (files : Files) (a : Agent o c k re)
      → (with_config o c k re w flags cfg files).1 ≡ serving a
      → (flags.verify_log ≡ []) × ((serve o c k re w cfg files).1 ≡ serving a)
  unfolding with_config
  with_config_ok w flags cfg files a h = elim (Bool-cases (text_eq flags.verify_log [])) [
    | inl e ↦ ((text_eq_iff flags.verify_log []).0 e, rw (with_config, e) at h)
    | inr e ↦ absurd (verify-ne-serving w flags.verify_log cfg files a (rw (with_config, e) at h))
  ]

  main_ok :
      (w : World o c k re) (flags : Flags) (files : Files) (a : Agent o c k re)
      → (main o c k re read_file unmarshal w flags files).1 ≡ serving a
      → (cfg : Config) × (load read_file unmarshal w.env flags.config_path ≡ ok cfg)
        × ((with_config o c k re w flags cfg files).1 ≡ serving a)
  unfolding main
  main_ok w flags files a h = elim (Bool-cases flags.generate_keys) [
    | inl e ↦ absurd (generate-ne-serving w flags.key_prefix files a (rw (main, e) at h))
    | inr e ↦ elim (Result-cases (load read_file unmarshal w.env flags.config_path)) [
      | inr (x, f) ↦ let g = rw (main, e, f) at h in cc
      | inl (cfg, f) ↦ (cfg, f, rw (main, e, f) at h)
    ]
  ]

  -- What the agent has when it serves.
  pub record IsReady (w : World o c k re) (flags : Flags) (a : Agent o c k re) : Type 0 where
    pub loaded : load read_file unmarshal w.env flags.config_path ≡ ok a.config
    pub valid : IsValid a.config
    pub token : Starts a.auth
    pub configured : a.executor.cfg ≡ a.config.executor
    pub guarded :
        (keyword command : Text) (p : Pattern)
        → OneOf keyword a.config.executor.blocked_keywords
        → compile keyword ≡ some p
        → matches p command ≡ true
        → validate re a.executor command ≢ ok tt
    pub idle : a.tasks.heap ≡ []
    pub none_running : a.tasks.running_count ≡ pos 0
    pub room : pos 1 ≤ℤ a.tasks.max_running

  Wired-IsReady :
      (w : World o c k re) (flags : Flags) (cfg : Config) (log : Log o c k re) (a : Agent o c k re)
      → Draws w.auth
      → load read_file unmarshal w.env flags.config_path ≡ ok cfg
      → Wired w cfg log a
      → IsReady w flags a
  unfolding Tasks.new
  Wired-IsReady w flags cfg log a real l h =
      let v = load-IsValid read_file unmarshal w.env flags.config_path cfg l in
      record {
        loaded = l ∙ ap ok (sym h.config);
        valid = subst IsValid (sym h.config) v;
        token = subst Starts (sym h.auth) (
            Starts-on_rotate _
              (init_token-Starts w.auth (Auth.new cfg.auth w.token_file) real h.token));
        configured =
            (new-Compiled re w.mkdir_all cfg.executor a.executor h.executor).0
            ∙ sym (ap (λ (x : Config). x.executor) h.config);
        guarded = λ keyword command p listed compiled hit.
            new-blocks re w.mkdir_all cfg.executor a.executor keyword p command h.executor
              (subst (λ (x : Config). OneOf keyword x.executor.blocked_keywords) h.config listed)
              compiled hit;
        idle = ap (λ (t : TaskManager). t.heap) h.tasks;
        none_running = ap (λ (t : TaskManager). t.running_count) h.tasks;
        room =
            subst (λ (t : TaskManager). pos 1 ≤ℤ t.max_running) (sym h.tasks) v.max_running_tasks;
      }

  -- When main serves, the configuration was loaded and is valid, a token that is not empty is the
  -- same in memory and in its file for the owner only, the executor has the configuration and refuses
  -- every command in which a configured keyword matches, and no task runs where at least one may.
  -- What rand.Read fills is not empty.
  pub main-IsReady :
      (w : World o c k re) (flags : Flags) (files : Files) (a : Agent o c k re)
      → Draws w.auth
      → (main o c k re read_file unmarshal w flags files).1 ≡ serving a
      → IsReady w flags a
  main-IsReady w flags files a real h =
      let (cfg, l, g) = main_ok w flags files a h in
      let (e, s) = with_config_ok w flags cfg files a g in
      Wired-IsReady w flags cfg _ a real l (serve_ok w cfg files a s)
