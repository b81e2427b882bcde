-- ===== src/Executor/Policy.antt =====
-- Which commands Validate of internal/executor/executor.go lets through.
use mathlib.Core.Option.{some-injective}
use agent_ssh.Base.{
  ◌≡◌, ◌≢◌, ◌↔◌, ◌⊎◌, inl, inr, refl, Bool, true, false, some, List, [], ◌∷◌, arith, any, All,
  OneOf, Bool-cases, Option-cases, subst, sym, ◌∙◌,
}
use agent_ssh.Base.Result.{ok, >>=-eq-ok, ok_inj}
use agent_ssh.Base.Text.{Text, text_eq, text_eq_iff, trim_space}
use agent_ssh.Config.Types.{ExecutorConfig}
use agent_ssh.Executor.Filter.{
  Regexp, Executor, compile_all, new, upload_dir, first_field, check_allowed, check_blocked,
  validate,
}

OneOf-iff : (w : Text) (ws : List Text) → (any (λ x. text_eq w x) ws ≡ true) ↔ OneOf w ws
OneOf-iff w [] = ground arith
OneOf-iff w (x ∷ ws) = ground (arith, text_eq_iff w x, OneOf-iff w ws)

not_blank : {s : Text} → text_eq s [] ≡ false → s ≢ []
not_blank {s} h e = ground (arith, text_eq_iff s [])

module _ (re : Regexp) where
  open re use {Pattern, compile, matches, source}

  check_allowed_iff :
      (allowed : List Text) (command : Text)
      → (check_allowed re allowed command ≡ ok tt)
        ↔ ((allowed ≡ []) ⊎ OneOf (first_field command) allowed)
  unfolding check_allowed
  check_allowed_iff [] command = (λ _. inl refl, λ _. refl)
  check_allowed_iff (a ∷ allowed) command =
      ground (arith, OneOf-iff (first_field command) (a ∷ allowed))

  check_blocked_iff :
      (ps : List Pattern) (command : Text)
      → (check_blocked re ps command ≡ ok tt) ↔ All (λ p. matches p command ≡ false) ps
  unfolding check_blocked
  check_blocked_iff [] command = (λ _. tt, λ _. refl)
  check_blocked_iff (p ∷ ps) command = ground (arith, check_blocked_iff ps command)

  -- A command passes exactly if it is not blank, its first word is on the whitelist unless that is
  -- empty, and no pattern of the blacklist matches anywhere in it.
  pub validate_iff :
      (e : Executor re) (command : Text)
      → (validate re e command ≡ ok tt) ↔ (
          (trim_space command ≢ [])
          × ((e.cfg.allowed_commands ≡ []) ⊎ OneOf (first_field command) e.cfg.allowed_commands)
          × All (λ p. matches p command ≡ false) e.block_list)
  unfolding validate
  validate_iff e command = elim (Bool-cases (text_eq (trim_space command) [])) [
    | inl blank ↦
        rw (blank, validate)
          (
            λ h. absurd (ground arith),
            λ h. absurd (h.0 ((text_eq_iff (trim_space command) []).0 blank)),
          )
    | inr text ↦
        rw (text, validate)
          (
            λ h.
                let (_, a, b) = >>=-eq-ok (check_allowed re e.cfg.allowed_commands command) _ h in
                (
                  λ blank. not_blank text blank,
                  (check_allowed_iff e.cfg.allowed_commands command).0 a,
                  (check_blocked_iff e.block_list command).0 b,
                ),
            λ h.
                rw ((check_allowed_iff e.cfg.allowed_commands command).1 h.1)
                  ((check_blocked_iff e.block_list command).1 h.2),
          )
  ]

  -- Every keyword of the configuration is compiled, and stands in the blacklist in its place.
  abbrev Compiled : List Text → List Pattern → Type 0
  Compiled [] [] = Unit
  Compiled [] (p ∷ ps) = ⊥
  Compiled (k ∷ ks) [] = ⊥
  Compiled (k ∷ ks) (p ∷ ps) = (compile k ≡ some p) × Compiled ks ps

  compile_all-Compiled :
      (ks : List Text) (ps : List Pattern) → compile_all re ks ≡ ok ps → Compiled ks ps
  unfolding compile_all
  compile_all-Compiled [] [] h = tt
  compile_all-Compiled [] (p ∷ ps) h = absurd (ground arith)
  compile_all-Compiled (k ∷ ks) ps h = elim (Option-cases (compile k)) [
    | inl bad ↦ let g = rw (bad, compile_all) at h in absurd (ground arith)
    | inr (p, good) ↦
        let (qs, made, same) = >>=-eq-ok (compile_all re ks) _ (rw (good, compile_all) at h) in
        subst (Compiled (k ∷ ks)) (ok_inj same) (good, compile_all-Compiled ks qs made)
  ]

  Compiled-All :
      (Q : Pattern → Type 0) (k : Text) (p : Pattern) (ks : List Text) (ps : List Pattern)
      → Compiled ks ps
      → OneOf k ks
      → compile k ≡ some p
      → All Q ps
      → Q p
  Compiled-All Q k p [] ps c m e a = absurd m
  Compiled-All Q k p (x ∷ ks) [] c m e a = absurd c
  Compiled-All Q k p (x ∷ ks) (q ∷ ps) c (inl same) e a =
      subst Q (some-injective q p (sym c.0 ∙ subst (λ j. compile j ≡ some p) same e)) a.0
  Compiled-All Q k p (x ∷ ks) (q ∷ ps) c (inr later) e a = Compiled-All Q k p ks ps c.1 later e a.1

  -- The executor has the given configuration, and its patterns are those of the keywords.
  pub new-Compiled :
      (mkdir_all : Text → Bool) (cfg : ExecutorConfig) (e : Executor re)
      → new re mkdir_all cfg ≡ ok e
      → (e.cfg ≡ cfg) × Compiled cfg.blocked_keywords e.block_list
  unfolding new
  new-Compiled mkdir_all cfg e made = elim (Bool-cases (mkdir_all cfg.work_dir)) [
    | inr failed ↦ let g = rw (failed, new) at made in absurd (ground arith)
    | inl work ↦ elim (Bool-cases (mkdir_all (upload_dir cfg))) [
      | inr failed ↦ let g = rw (work, failed, new) at made in absurd (ground arith)
      | inl upload ↦
          let (ps, compiled, same) =
            >>=-eq-ok (compile_all re cfg.blocked_keywords) _ (rw (work, upload, new) at made) in
          subst (λ x. (x.cfg ≡ cfg) × Compiled cfg.blocked_keywords x.block_list) (ok_inj same)
            (refl, compile_all-Compiled cfg.blocked_keywords ps compiled)
    ]
  ]

  -- An executor that New makes refuses every command in which some configured keyword matches.
  pub new-blocks :
      (mkdir_all : Text → Bool) (cfg : ExecutorConfig) (e : Executor re) (k : Text) (p : Pattern)
      (command : Text)
      → new re mkdir_all cfg ≡ ok e
      → OneOf k cfg.blocked_keywords
      → compile k ≡ some p
      → matches p command ≡ true
      → validate re e command ≢ ok tt
  new-blocks mkdir_all cfg e k p command made listed compiled hit passed =
      let clean =
        Compiled-All (λ q. matches q command ≡ false) k p cfg.blocked_keywords e.block_list
          (new-Compiled mkdir_all cfg e made).1 listed compiled
          ((validate_iff e command).0 passed).2 in
      absurd (ground arith)
