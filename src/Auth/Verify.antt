-- ===== src/Auth/Verify.antt =====
-- Which tokens VerifyToken of internal/auth/auth.go accepts, and what a rotation does to old ones.
use agent_ssh.Base.{
  ◌≡◌, ◌↔◌, ◌⊎◌, inl, inr, refl, sym, subst, ◌∙◌, Bool, true, false, Option, none, some, arith,
  Bool-cases,
}
use agent_ssh.Base.Result.{Result, ok, err, ok_inj}
use agent_ssh.Base.Text.{Text, text_eq, text_eq_iff}
use agent_ssh.Auth.Model.{
  TokenFile, TokenManager, Io, AuthError, generate_token, rotate_token, verify_file, verify_token,
}
use agent_ssh.Auth.Rotation.{InStep, Rotates, content_of, rotate_token-Rotates}

rotated_InStep :
    (drawn : Result AuthError Text) (tm after : TokenManager) (r : Result AuthError Text) (t : Text)
    → Rotates drawn tm after r
    → r ≡ ok t
    → InStep t after
rotated_InStep drawn tm after (ok u) t w e = subst (λ x. InStep x after) (ok_inj e) w.1
rotated_InStep drawn tm after (err x) t w e = absurd (ground arith)

only :
    (t x : Text) (tm : TokenManager)
    → InStep t tm
    → (io : Io) → (x ≡ tm.token) ⊎ ((io.read ≡ true) × (content_of tm.file ≡ some x))
    → x ≡ t
only t x tm step io h = ground arith

-- What VerifyToken answers and leaves.
pub record Verifies (io : Io) (token : Text) (tm : TokenManager) (after : TokenManager)
    (answer : Bool) : Type 0 where
  pub exactly :
      (answer ≡ true)
      ↔ ((token ≡ tm.token) ⊎ ((io.read ≡ true) × (content_of tm.file ≡ some token)))
  pub refreshed : answer ≡ true → after.token ≡ token
  pub refused : answer ≡ false → after ≡ tm
  pub disk : after.file ≡ tm.file

verify_file-Verifies :
    (io : Io) (token : Text) (o : Option TokenFile) (tm : TokenManager)
    → tm.file ≡ o
    → text_eq token tm.token ≡ false
    → Verifies io token tm (verify_file io token o tm).0 (verify_file io token o tm).1
unfolding verify_file
verify_file-Verifies io token none tm at ne = ground (arith, text_eq_iff token tm.token)
verify_file-Verifies io token (some f) tm at ne =
    ground (arith, text_eq_iff token tm.token, text_eq_iff token f.content)

-- A token is accepted exactly if it is the one in memory, also when the file is gone or holds another
-- one, or the file can be read and holds it. An accepted token is the one in memory from then on; a
-- refused one changes nothing; and the file is never touched.
pub verify_token-Verifies :
    (io : Io) (token : Text) (tm : TokenManager)
    → Verifies io token tm (verify_token io token tm).0 (verify_token io token tm).1
unfolding verify_token
verify_token-Verifies io token tm = elim (Bool-cases (text_eq token tm.token)) [
  | inl e ↦
      let same = (text_eq_iff token tm.token).0 e in
      simp (e, verify_token)
        (record {
          exactly = (λ _. inl same, λ _. refl);
          refreshed = λ _. sym same;
          refused = λ h. absurd (ground arith);
          disk = refl;
        })
  | inr e ↦ simp (e, verify_token) (verify_file-Verifies io token tm.file tm refl e)
]

-- After a rotation that succeeds, the token it returns is the only one that is accepted, as long as
-- the files are left alone: every older token is refused at once, whatever the file system answers.
pub rotate-revokes :
    (io io' : Io) (tm : TokenManager) (t x : Text)
    → (rotate_token io tm).1 ≡ ok t
    → ((verify_token io' x (rotate_token io tm).0).1 ≡ true) ↔ (x ≡ t)
rotate-revokes io io' tm t x rotated =
    let after = (rotate_token io tm).0 in
    let step : InStep t after =
      rotated_InStep (generate_token io) tm after (rotate_token io tm).1 t
        (rotate_token-Rotates io tm) rotated in
    let v = (verify_token-Verifies io' x after).exactly in
    (λ h. only t x after step io' (v.0 h), λ e. v.1 (inl (e ∙ sym step.memory)))
