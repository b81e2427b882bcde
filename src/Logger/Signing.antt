-- ===== src/Logger/Signing.antt =====
-- EnsureKeyPair, GenerateKeyPair, LoadSigner and LoadPublicKey of internal/logger, one after another.
use agent_ssh.Base.{◌≡◌, ◌≢◌, refl, sym, ap, ◌∙◌, Bool, true, some, [], Option-cases, inl, inr}
use agent_ssh.Base.Files.{Files, put_same, write_file_ok}
use agent_ssh.Base.Result.{ok}
use agent_ssh.Base.Text.{Text}
use agent_ssh.Base.Normal.{ne_text}
use agent_ssh.Logger.Entry.{Entry, Crypto, decoded}
use agent_ssh.Logger.Chain.{Sound}
use agent_ssh.Logger.Keys.{
  KeyOps, ed25519, hmac, algorithm_of, write_secret_failed, public_path, Signer, ed25519_signer,
  hmac_signer, sign_with, algorithm_name, load_ed25519_signer, load_hmac_signer, load_signer,
  load_public_key, KeyIo, generate_pair, generate_secret, make_key, ensure_key_pair,
}
use agent_ssh.Logger.Pair.{KeyLaws, read_file-some, generate_pair_ok, load_private, load_public}
use agent_ssh.Logger.Sparing.{created_files, created_ok, stops, finds, makes, way}

module _ (o : KeyOps) where
  open o use {PrivateKey, PublicKey, public_of, verify_ed25519}

  -- The log with a loaded signer, read with a loaded public key.
  abbrev pub crypto_with : Crypto → Signer o → PublicKey → Crypto
  crypto_with c signer k = record {
    Attrs = c.Attrs;
    marshal = c.marshal;
    reread = c.reread;
    sha256 = c.sha256;
    sign = sign_with o signer;
    verify = verify_ed25519 k;
    algorithm = algorithm_name o signer;
  }

  -- What a later start can load.
  pub data Usable (algo p q : Text) (files : Files) : Type 0 where
    pair :
        (k : PrivateKey)
        → algorithm_of algo ≡ some ed25519
        → load_signer o true algo p files ≡ ok (ed25519_signer k)
        → load_public_key o true (public_path p q) files ≡ ok (public_of k)
        → Usable algo p q files
    shared :
        (t : Text)
        → algorithm_of algo ≡ some hmac
        → load_signer o true algo p files ≡ ok (hmac_signer t)
        → Usable algo p q files

  pub load_signer_ed25519 :
      (readable : Bool) (algo p : Text) (files : Files)
      → algorithm_of algo ≡ some ed25519
      → load_signer o readable algo p files ≡ load_ed25519_signer o readable p files
  unfolding load_signer
  load_signer_ed25519 readable algo p files e = rw (load_signer, e) refl

  load_secret :
      (io : KeyIo o) (algo p : Text) (files : Files)
      → ((t : Text) → io.secret ≡ some t → t ≢ [])
      → algorithm_of algo ≡ some hmac
      → (generate_secret o io p files).1 ≡ ok tt
      → (t : Text) × (load_signer o true algo p (generate_secret o io p files).0
          ≡ ok (hmac_signer t))
  unfolding load_signer load_hmac_signer generate_secret
  load_secret io algo p files filled e h = elim (Option-cases io.secret) [
    | inl s ↦ let g = rw (generate_secret, s) at h in cc
    | inr (t, s) ↦
        let g = rw (generate_secret, s) at h in
        let there =
          ap (λ f. f p) (write_file_ok io.private_write write_secret_failed p t files g)
          ∙ put_same p (some t) files in
        (
          t,
          rw
              (
                load_signer,
                e,
                load_hmac_signer,
                generate_secret,
                s,
                read_file-some p t _ there,
                ne_text t [] (filled t s),
              )
              refl,
        )
  ]

  module _ (laws : KeyLaws o) where
    -- A private key and its public key, loaded from their files.
    abbrev Paired : Text → Text → Text → Files → Type 0
    Paired algo p q files =
        (k : PrivateKey) × (load_signer o true algo p files ≡ ok (ed25519_signer k))
        × (load_public_key o true (public_path p q) files ≡ ok (public_of k))

    make_key-Paired :
        (io : KeyIo o) (algo p q : Text) (files : Files)
        → p ≢ public_path p q
        → algorithm_of algo ≡ some ed25519
        → (make_key o io algo p q files).1 ≡ ok true
        → Paired algo p q (make_key o io algo p q files).0
    unfolding make_key
    make_key-Paired io algo p q files apart e h =
        let made = generate_pair o io p (public_path p q) files in
        let g = created_ok o made (rw (make_key, e) at h) in
        let w = generate_pair_ok o io p (public_path p q) files apart g in
        rw (make_key, e, created_files o made)
          (
            w.key,
            load_signer_ed25519 true algo p made.0 e
                ∙ load_private o laws p w.key made.0 w.private_there,
            load_public o laws (public_path p q) (public_of w.key) made.0 w.public_there,
          )

    make_key-Usable :
        (io : KeyIo o) (algo p q : Text) (files : Files)
        → p ≢ public_path p q
        → ((t : Text) → io.secret ≡ some t → t ≢ [])
        → (make_key o io algo p q files).1 ≡ ok true
        → Usable algo p q (make_key o io algo p q files).0
    unfolding make_key
    make_key-Usable io algo p q files apart filled h = elim (Option-cases (algorithm_of algo)) [
      | inl e ↦ let g = rw (make_key, e) at h in cc
      | inr (ed25519, e) ↦
          let (k, l, m) = make_key-Paired io algo p q files apart e h in pair k e l m
      | inr (hmac, e) ↦
          let made = generate_secret o io p files in
          let g = created_ok o made (rw (make_key, e) at h) in
          let (t, l) = load_secret io algo p files filled e g in
          rw (make_key, e, created_files o made) (shared t e l)
    ]

    -- New key material comes from make_key.
    ensure_made :
        (io : KeyIo o) (algo p q : Text) (files : Files)
        → (ensure_key_pair o io algo p q files).1 ≡ ok true
        → ensure_key_pair o io algo p q files ≡ make_key o io algo p q files
    ensure_made io algo p q files h = elim (way o io algo p q files) [
      | stops x e ↦ let g = ap (λ s. s.1) e in cc
      | finds f e ↦ let g = ap (λ s. s.1) e in cc
      | makes f e ↦ e
    ]

    -- When EnsureKeyPair reports new key material, LoadSigner finds it: with ed25519 a private key, and
    -- LoadPublicKey finds the public key that belongs to it; with hmac-sha256 a secret. The files are
    -- readable, the two paths differ, and random bytes are not none.
    pub ensure_key_pair-Usable :
        (io : KeyIo o) (algo p q : Text) (files : Files)
        → p ≢ public_path p q
        → ((t : Text) → io.secret ≡ some t → t ≢ [])
        → (ensure_key_pair o io algo p q files).1 ≡ ok true
        → Usable algo p q (ensure_key_pair o io algo p q files).0
    ensure_key_pair-Usable io algo p q files apart filled h =
        let e = ensure_made io algo p q files h in
        rw e (make_key-Usable io algo p q files apart filled (sym (ap (λ s. s.1) e) ∙ h))

    -- With ed25519, where EnsureKeyPair reports new key material, the signer and the public key
    -- that are loaded from it make a sound log: what the signer signs, the public key takes. The
    -- two paths differ, the files are readable, and attributes keep their JSON when they are read
    -- back.
    pub ensure_key_pair-Sound :
        (io : KeyIo o) (algo p q : Text) (files : Files) (c : Crypto)
        → ((e : Entry c.Attrs) → c.marshal (decoded c e).body ≡ c.marshal e.body)
        → algorithm_of algo ≡ some ed25519
        → p ≢ public_path p q
        → (ensure_key_pair o io algo p q files).1 ≡ ok true
        → (s : Signer o) × (k : PublicKey) × (load_signer o true algo p
              (ensure_key_pair o io algo p q files).0
            ≡ ok s)
          × (load_public_key o true (public_path p q) (ensure_key_pair o io algo p q files).0
              ≡ ok k)
          × Sound (crypto_with c s k)
    unfolding sign_with decoded
    ensure_key_pair-Sound io algo p q files c keeps e apart h =
        let f = ensure_made io algo p q files h in
        let (k, l, m) = make_key-Paired io algo p q files apart e (sym (ap (λ s. s.1) f) ∙ h) in
        (
          ed25519_signer k,
          public_of k,
          ap (λ s. load_signer o true algo p s.0) f ∙ l,
          ap (λ s. load_public_key o true (public_path p q) s.0) f ∙ m,
          record {
            reread_marshal = keeps;
            sign_verify = laws.sign_verify k;
            sign_bytes = laws.sign_bytes k;
          },
        )
