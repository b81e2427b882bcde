-- ===== src/Main/Service.antt =====
-- What the agent that main of main.go serves lets through, over everything that happens from then on.
use agent_ssh.Base.{
  ℕ, ◌≡◌, ◌≢◌, inl, inr, sym, subst, Bool, true, false, Option, some, List, ◌∷◌, ◌++◌, All,
  All-mono, OneOf, Bool-cases,
}
use agent_ssh.Base.Files.{Files}
use agent_ssh.Base.Result.{ok}
use agent_ssh.Base.Text.{Text}
use agent_ssh.Config.Types.{Config}
use agent_ssh.Auth.Model.{Io}
use agent_ssh.Auth.Rotation.{Draws}
use agent_ssh.Executor.Filter.{Regexp, Executor, upload_dir, validate}
use agent_ssh.Logger.Entry.{Crypto}
use agent_ssh.Logger.Keys.{KeyOps}
use agent_ssh.Gateway.Types.{unauthorized, nothing, Server}
use agent_ssh.Gateway.Handlers.{respond, bearer}
use agent_ssh.Gateway.Routes.{Context, Request, health, call}
use agent_ssh.Gateway.Service as Gateway
use agent_ssh.Gateway.Service.{Event, drawn, placed, last_write, run}
use agent_ssh.Base.Path.{clean, is_abs}
use agent_ssh.Base.Within.{Below}
use agent_ssh.Executor.Confine.{resolve_work_dir-Below}
use agent_ssh.TaskManager.Commands.{work_of}
use agent_ssh.Gateway.Commands.{IsAdmitted}
use agent_ssh.Gateway.Disk.{run-inside}
use agent_ssh.Gateway.Steady.{run-IsGuarded, run-refuses}
use agent_ssh.Main.Program.{Flags, World, Agent, serving, main}
use agent_ssh.Main.Startup.{IsReady, main-IsReady}

module _ (read_file : Text → Option Text) (unmarshal : Text → Config → Option Config) (o : KeyOps)
    (c : Crypto) (k : o.PublicKey) (re : Regexp) where
  open re use {Pattern, compile, matches}

  -- The server that main makes of an agent, over the files that uploads see.
  unfoldable pub server_of : Agent o c k re → Files → Server
  unfolding Gateway.new
  server_of a disk = Gateway.new a.auth a.tasks disk

  -- No configured keyword matches the command, and the directory is the configured one or below it.
  abbrev pub Passes : Agent o c k re → Text × Text → Type 0
  Passes a (command, dir) =
      ((keyword : Text) (p : Pattern)
        → OneOf keyword a.config.executor.blocked_keywords
        → compile keyword ≡ some p
        → matches p command ≡ false)
      × Below (clean a.config.executor.work_dir) dir

  -- What holds after the events.
  pub record Guards (a : Agent o c k re) (mkdir_all : Text → Bool)
      (xs : List (Event re a.executor mkdir_all)) (disk : Files) (now : Server) : Type 0 where
    pub started : All (Passes a) now.started
    pub tasks : All (λ t. Passes a (work_of t)) now.tm.heap
    pub inside :
        (path : Text)
        → is_abs (upload_dir a.config.executor) ≡ true
        → (Below (clean (upload_dir a.config.executor)) path → ⊥)
        → now.files path ≡ last_write re a.executor mkdir_all path (disk path) xs
    pub refuses :
        (io : Io) (bytes : List ℕ) (authorization id : Text)
        (r : Context → Request re a.executor mkdir_all)
        → ((ctx : Context) → r ctx ≢ health)
        → ((t : Text)
            → authorization ≡ bearer ++ t
            → OneOf t (
                a.auth.token ∷ drawn re a.executor mkdir_all xs
                ++ placed re a.executor mkdir_all xs)
            → ⊥)
        → call re a.executor mkdir_all io bytes authorization id r now
          ≡ (now, respond 401 unauthorized nothing)

  unmatched :
      (e : Executor re) (p : Pattern) (command : Text)
      → (matches p command ≡ true → validate re e command ≢ ok tt)
      → validate re e command ≡ ok tt
      → matches p command ≡ false
  unmatched e p command refused v = elim (Bool-cases (matches p command)) [
    | inl hit ↦ elim (refused hit v) [ ]
    | inr miss ↦ miss
  ]

  admitted-Passes :
      (w : World o c k re) (flags : Flags) (a : Agent o c k re) (work : Text × Text)
      → IsReady read_file unmarshal o c k re w flags a
      → IsAdmitted re a.executor w.mkdir_all work
      → Passes a work
  admitted-Passes w flags a (command, dir) ready (v, (requested, d)) = (
    λ keyword p listed compiled.
        unmatched a.executor p command (λ hit. ready.guarded keyword command p listed compiled hit)
          v,
    subst (λ cfg. Below (clean cfg.work_dir) dir) ready.configured
        (resolve_work_dir-Below w.mkdir_all a.executor.cfg.work_dir requested dir d),
  )

  -- However main came to serve, and whatever requests, rotations, tasks, cleanups and changes that other
  -- programs make to files follow, the commands that the agent runs among these programs: no command
  -- that a configured keyword matches has been started or stands in a task; each has the configured
  -- directory or one below it; a path outside an upload directory with an absolute path holds what the
  -- last write of another program left there, or what was there at the start, where the token file and
  -- the log are left aside; and every request but the health check is answered with 401 and changes
  -- nothing, unless it bears the token of the start, one that was drawn at random since, or one that
  -- another program has put into the token file since. What rand.Read fills at the start is not empty.
  pub main-Guards :
      (w : World o c k re) (flags : Flags) (files disk : Files) (a : Agent o c k re)
      (xs : List (Event re a.executor w.mkdir_all))
      → Draws w.auth
      → (main o c k re read_file unmarshal w flags files).1 ≡ serving a
      → Guards a w.mkdir_all xs disk (run re a.executor w.mkdir_all (server_of a disk) xs)
  unfolding server_of
  main-Guards w flags files disk a xs real h =
      let ready = main-IsReady read_file unmarshal o c k re w flags files a real h in
      let idle =
        subst (λ ts. All (λ t. IsAdmitted re a.executor w.mkdir_all (work_of t)) ts)
          (sym ready.idle) tt in
      let (starts, tasks) =
        run-IsGuarded re a.executor w.mkdir_all xs (server_of a disk) (tt, idle) in
      let pass = admitted-Passes w flags a in
      record {
        started =
            All-mono (IsAdmitted re a.executor w.mkdir_all) (Passes a) _ (λ x. pass x ready) starts;
        tasks =
            All-mono (λ t. IsAdmitted re a.executor w.mkdir_all (work_of t))
              (λ t. Passes a (work_of t)) _ (λ t. pass (work_of t) ready) tasks;
        inside = λ path rooted out.
            run-inside re a.executor w.mkdir_all xs (server_of a disk) path
              (rw ready.configured rooted) (λ b. out (rw (← ready.configured) b));
        refuses = λ io bytes authorization id r other unknown.
            run-refuses re a.executor w.mkdir_all xs (server_of a disk) io bytes authorization id r
              ready.token other unknown;
      }
