-- ===== src/Logger/Sparing.antt =====
-- What EnsureKeyPair of internal/logger/signer.go leaves alone.
use agent_ssh.Base.{◌≡◌, ◌≢◌, refl, ap, ◌∙◌, true, false, Option-cases, Bool-cases, inl, inr}
use agent_ssh.Base.Files.{Files, is_file, write_file_other}
use agent_ssh.Base.Result.{Result, ok, err}
use agent_ssh.Base.Text.{Text}
use agent_ssh.Logger.Keys.{
  KeyOps, ed25519, hmac, algorithm_of, KeyError, stat_failed, mkdir_failed, public_path, KeyIo,
  generate_pair, generate_secret, dir_fails, created, make_key, ensure_key_pair,
}
use agent_ssh.Logger.Pair.{generate_pair_other}

module _ (o : KeyOps) where
  pub created_files : (r : Files × Result KeyError (Unit {0})) → (created o r).0 ≡ r.0
  unfolding created
  created_files (files, ok _) = refl
  created_files (files, err x) = refl

  pub created_ok :
      (r : Files × Result KeyError (Unit {0})) → (created o r).1 ≡ ok true → r.1 ≡ ok tt
  unfolding created
  created_ok (files, ok _) h = refl
  created_ok (files, err x) h = cc

  -- The four ways of EnsureKeyPair.
  pub data Way (io : KeyIo o) (algo p q : Text) (files : Files) : Type 0 where
    stops :
        (x : KeyError)
        → ensure_key_pair o io algo p q files ≡ (files, err x)
        → Way io algo p q files
    finds :
        is_file (files p) ≡ true
        → ensure_key_pair o io algo p q files ≡ (files, ok false)
        → Way io algo p q files
    makes :
        is_file (files p) ≡ false
        → ensure_key_pair o io algo p q files ≡ make_key o io algo p q files
        → Way io algo p q files

  pub way : (io : KeyIo o) (algo p q : Text) (files : Files) → Way io algo p q files
  unfolding ensure_key_pair
  way io algo p q files = elim (Bool-cases io.unknown) [
    | inl u ↦ stops stat_failed (rw (ensure_key_pair, u) refl)
    | inr u ↦ elim (Bool-cases (is_file (files p))) [
      | inl f ↦ finds f (rw (ensure_key_pair, u, f) refl)
      | inr f ↦ elim (Bool-cases (dir_fails o io p)) [
        | inl d ↦ stops mkdir_failed (rw (ensure_key_pair, u, f, d) refl)
        | inr d ↦ makes f (rw (ensure_key_pair, u, f, d) refl)
      ]
    ]
  ]

  secret_other :
      (io : KeyIo o) (p : Text) (files : Files) (r : Text)
      → r ≢ p
      → (generate_secret o io p files).0 r ≡ files r
  unfolding generate_secret
  secret_other io p files r a = elim (Option-cases io.secret) [
    | inl e ↦ rw (generate_secret, e) refl
    | inr (t, e) ↦ rw (generate_secret, e) (write_file_other io.private_write _ p t files r a)
  ]

  make_key_other :
      (io : KeyIo o) (algo p q : Text) (files : Files) (r : Text)
      → r ≢ p
      → r ≢ public_path p q
      → (make_key o io algo p q files).0 r ≡ files r
  unfolding make_key
  make_key_other io algo p q files r a b = elim (Option-cases (algorithm_of algo)) [
    | inl e ↦ rw (make_key, e) refl
    | inr (ed25519, e) ↦
        rw (make_key, e)
          (ap (λ f. f r) (created_files (generate_pair o io p (public_path p q) files))
            ∙ generate_pair_other o io p (public_path p q) files r a b)
    | inr (hmac, e) ↦
        rw (make_key, e)
          (ap (λ f. f r) (created_files (generate_secret o io p files))
            ∙ secret_other io p files r a)
  ]

  -- EnsureKeyPair never touches an existing key, nor any file with it: where the key file is there, all
  -- files stay as they are. Otherwise it changes at most the key file and the file of the public key.
  pub ensure_key_pair-spares :
      (io : KeyIo o) (algo p q : Text) (files : Files)
      → (is_file (files p) ≡ true → (ensure_key_pair o io algo p q files).0 ≡ files)
        × ((r : Text)
            → r ≢ p
            → r ≢ public_path p q
            → (ensure_key_pair o io algo p q files).0 r ≡ files r)
  ensure_key_pair-spares io algo p q files = elim (way io algo p q files) [
    | stops x e ↦ (λ h. ap (λ s. s.0) e, λ r a b. ap (λ s. s.0 r) e)
    | finds f e ↦ (λ h. ap (λ s. s.0) e, λ r a b. ap (λ s. s.0 r) e)
    | makes f e ↦ (λ h. cc, λ r a b. ap (λ s. s.0 r) e ∙ make_key_other io algo p q files r a b)
  ]
