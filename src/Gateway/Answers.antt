-- ===== src/Gateway/Answers.antt =====
-- What the handlers of commands in internal/gateway/gateway.go admit, and what handleExec answers.
use agent_ssh.Base.{
  ◌≡◌, ◌≢◌, ◌⊎◌, inl, inr, refl, sym, ap, subst, ◌∙◌, Bool, true, false, Option, none, some, [],
  ◌∷◌, Bool-cases,
}
use agent_ssh.Base.Int.{ℤ}
use agent_ssh.Base.Result.{Result, ok, err, ok_inj, Result-cases}
use agent_ssh.Base.Text.{Text, text_eq, trim_space}
use agent_ssh.Executor.Filter.{Regexp, Executor, ValidateError, validate}
use agent_ssh.Executor.WorkDir.{WorkDirError, resolve_work_dir}
use agent_ssh.Gateway.Types.{
  ExecRequest, code_ok, bad_request, forbidden, request_timeout, nothing, Server,
}
use agent_ssh.Gateway.Handlers.{respond, request_duration, admit, handle_exec}
use agent_ssh.Executor.Run.{Process, execute, timeout_mark}
use agent_ssh.Executor.Types.{ExecResult}
use agent_ssh.Gateway.Handlers.{exec_response}
use agent_ssh.Gateway.Types.{Response, result}
use agent_ssh.Base.Text.{contains, has_prefix, text_eq_iff}

-- The answer to a command that has run.
abbrev pub Answers : ExecResult → Response → Type 0
Answers r answer =
    (answer.payload ≡ result r)
    × (((answer.status ≡ 408)
          × (answer.code ≡ request_timeout)
          × (contains r.stderr timeout_mark ≡ true))
        ⊎ ((answer.status ≡ 200)
            × (answer.code ≡ code_ok)
            × (contains r.stderr timeout_mark ≡ false)))

silent : (s : Text) → text_eq s [] ≡ true → contains s timeout_mark ≡ false
unfolding contains has_prefix
silent s h = rw ((text_eq_iff s []).0 h) refl

exec_response-Answers : (r : ExecResult) → Answers r (exec_response r)
unfolding exec_response
exec_response-Answers r = elim (Bool-cases (text_eq r.stderr [])) [
  | inl e ↦ rw (exec_response, e) (refl, inr (refl, refl, silent r.stderr e))
  | inr e ↦ elim (Bool-cases (contains r.stderr timeout_mark)) [
    | inl f ↦ rw (exec_response, e, f) (refl, inl (refl, refl, refl))
    | inr f ↦ rw (exec_response, e, f) (refl, inr (refl, refl, refl))
  ]
]

err_inj : {E A : Type 0} {x y : E} → ◌≡◌ {A = Result E A} (err x) (err y) → x ≡ y
err_inj h = cc

module _ (re : Regexp) (e : Executor re) (mkdir_all : Text → Bool) where
  refused_blank :
      (q : ExecRequest)
      → text_eq (trim_space q.command) [] ≡ true
      → admit re e mkdir_all (some q) ≡ err (respond 400 bad_request nothing)
  unfolding admit
  refused_blank q h = rw h refl

  -- Which bodies are refused, and with which answer: 400 for one that is no request, for a blank
  -- command, and for a directory that ResolveWorkDir refuses when the command has passed Validate;
  -- 403 for a command that is not blank and that Validate refuses.
  abbrev pub Refuses : Option ExecRequest → Response → Type 0
  Refuses none answer = answer ≡ respond 400 bad_request nothing
  Refuses (some q) answer =
      ((answer ≡ respond 400 bad_request nothing)
        × ((trim_space q.command ≡ [])
            ⊎ ((validate re e q.command ≡ ok tt)
                × (x : WorkDirError) × (resolve_work_dir mkdir_all e.cfg.work_dir q.work_dir
                    ≡ err x))))
      ⊎ ((answer ≡ respond 403 forbidden nothing)
          × (trim_space q.command ≢ [])
          × (x : ValidateError) × (validate re e q.command ≡ err x))

  admit-Refuses :
      (body : Option ExecRequest) (x : Response)
      → admit re e mkdir_all body ≡ err x
      → Refuses body x
  unfolding admit
  admit-Refuses none x h = sym (err_inj h)
  admit-Refuses (some q) x h = elim (Bool-cases (text_eq (trim_space q.command) [])) [
    | inl b ↦ inl (sym (err_inj (rw b at h)), inl ((text_eq_iff (trim_space q.command) []).0 b))
    | inr b ↦ elim (Result-cases (validate re e q.command)) [
      | inr (y, f) ↦ inr (
        sym (err_inj (rw (b, f) at h)),
        λ blank. let k = (text_eq_iff (trim_space q.command) []).1 blank in cc,
        y,
        f,
      )
      | inl (u, f) ↦ elim (Result-cases (resolve_work_dir mkdir_all e.cfg.work_dir q.work_dir)) [
        | inr (y, g) ↦ inl (sym (err_inj (rw (b, f, g) at h)), inr (f, y, g))
        | inl (d, g) ↦ let k = rw (b, f, g) at h in cc
      ]
    ]
  ]

  -- What the two handlers of commands admit.
  pub admit-ok :
      (body : Option ExecRequest) (r : ExecRequest) (dir : Text)
      → admit re e mkdir_all body ≡ ok (r, dir)
      → (body ≡ some r)
        × (validate re e r.command ≡ ok tt)
        × (resolve_work_dir mkdir_all e.cfg.work_dir r.work_dir ≡ ok dir)
  unfolding admit
  admit-ok none r dir h = cc
  admit-ok (some q) r dir h = elim (Bool-cases (text_eq (trim_space q.command) [])) [
    | inl b ↦ let k = refused_blank q b in cc
    | inr b ↦ elim (Result-cases (validate re e q.command)) [
      | inr (x, f) ↦ let k = rw (b, f) at h in cc
      | inl (u, f) ↦ elim (Result-cases (resolve_work_dir mkdir_all e.cfg.work_dir q.work_dir)) [
        | inr (x, g) ↦ let k = rw (b, f, g) at h in cc
        | inl (d, g) ↦
            let k = ok_inj (rw (b, f, g) at h) in
            let same : q ≡ r = ap (λ x. x.0) k in
            (
              ap some same,
              subst (λ x. validate re e x.command ≡ ok tt) same f,
              subst (λ x. resolve_work_dir mkdir_all e.cfg.work_dir x.work_dir ≡ ok dir) same
                  (g ∙ ap (λ x. ok x.1) k),
            )
      ]
    ]
  ]

  -- handleExec on every branch. Either it leaves the server as it is and refuses: with 400 a body
  -- that is no request, a blank command, and a directory that ResolveWorkDir refuses when the command
  -- has passed Validate; with 403 a command that is not blank and that Validate refuses. Or the
  -- command passed Validate and the directory ResolveWorkDir, the command is started there and nothing
  -- else of the server changes, and the answer carries its result, with 408 if its stderr contains the
  -- mark of a timeout and with 200 if not.
  pub handle_exec_lem :
      (world : Text → Text → ℤ → Process) (body : Option ExecRequest) (s : Server)
      → let (s', answer) = handle_exec re e mkdir_all world body s in
        ((s' ≡ s) × Refuses body answer)
        ⊎ ((r : ExecRequest) × (dir : Text) × (body ≡ some r)
            × (validate re e r.command ≡ ok tt)
            × (resolve_work_dir mkdir_all e.cfg.work_dir r.work_dir ≡ ok dir)
            × (s' ≡ record s { started = (r.command, dir) ∷ s.started })
            × Answers (execute world e.cfg dir r.command (request_duration r.timeout)) answer)
  unfolding handle_exec
  handle_exec_lem world body s = elim (Result-cases (admit re e mkdir_all body)) [
    | inr (x, f) ↦ rw (handle_exec, f) (inl (refl, admit-Refuses body x f))
    | inl ((r, dir), f) ↦
        let (a, b, d) = admit-ok body r dir f in
        rw (handle_exec, f) (inr (r, dir, a, b, d, refl, exec_response-Answers _))
  ]
