-- ===== src/Logger/Lost.antt =====
-- EnsureKeyPair of internal/logger/signer.go when the public key cannot be written.
use agent_ssh.Base.{
  ◌≡◌, ◌≢◌, refl, sym, ap, ◌∙◌, Bool, true, false, none, Option-cases, Bool-cases, inl, inr,
}
use agent_ssh.Base.Files.{Files, is_file, Write, refused, write_file, write_file_error}
use agent_ssh.Base.Result.{Result, ok, err, Result-cases}
use agent_ssh.Base.Text.{Text}
use agent_ssh.Logger.Keys.{
  KeyOps, ed25519, hmac, algorithm_of, KeyError, write_public_failed, write_private_failed,
  write_secret_failed, read_failed, read_file, public_path, load_public_key, write_private_key,
  write_public_key, KeyIo, write_pair, generate_pair, generate_secret, dir_fails, created, make_key,
  ensure_key_pair,
}
use agent_ssh.Logger.Pair.{
  write_private_key_ok, write_private_key_other, write_pair_first, write_pair_second,
}

read_file-none :
    (readable : Bool) (path : Text) (files : Files)
    → files path ≡ none
    → read_file readable path files ≡ err read_failed
unfolding read_file
read_file-none readable path files h = rw (read_file, h) refl

module _ (o : KeyOps) where
  open o use {PrivateKey, PublicKey, public_of, marshal_private, marshal_public}

  private_error :
      (w : Write) (path : Text) (k : PrivateKey) (files : Files)
      → (write_private_key o w path k files).1 ≢ err write_public_failed
  unfolding write_private_key
  private_error w path k files h = elim (Option-cases (marshal_private k)) [
    | inl e ↦ let g = rw (write_private_key, e) at h in cc
    | inr (b, e) ↦
        let g = rw (write_private_key, e) at h in
        let q = write_file_error w write_private_failed write_public_failed path _ files g in cc
  ]

  refused_public :
      (path : Text) (k : PublicKey) (files : Files)
      → (write_public_key o refused path k files).0 ≡ files
  unfolding write_public_key write_file
  refused_public path k files = elim (Option-cases (marshal_public k)) [
    | inl e ↦ rw (write_public_key, e) refl
    | inr (b, e) ↦ rw (write_public_key, e) refl
  ]

  -- The private key of a pair stays when the public one is refused.
  abbrev Half : Text → Text → Files → Files → Type 0
  Half p q files after = (is_file (after p) ≡ true) × (after q ≡ files q)

  Half-pair :
      (io : KeyIo o) (p q : Text) (k : PrivateKey) (files : Files)
      → p ≢ q
      → io.public_write ≡ refused
      → (write_pair o io p q k files).1 ≡ err write_public_failed
      → Half p q files (write_pair o io p q k files).0
  unfolding is_file
  Half-pair io p q k files apart r h =
      elim (Result-cases (write_private_key o io.private_write p k files).1) [
        | inr (x, e) ↦
            let f = ap (λ s. s.1) (write_pair_first o io p q k files x e) in
            absurd (private_error io.private_write p k files (e ∙ sym f ∙ h))
        | inl (_, e) ↦
            let mid = (write_private_key o io.private_write p k files).0 in
            let s : (write_pair o io p q k files).0 ≡ mid =
              ap (λ s. s.0) (write_pair_second o io p q k files e)
              ∙ ap (λ w. (write_public_key o w q (public_of k) mid).0) r
              ∙ refused_public q (public_of k) mid in
            let (b, m, there) = write_private_key_ok o io.private_write p k files e in
            rw s (
              ap is_file there,
              write_private_key_other o io.private_write p k files q (λ z. apart (sym z)),
            )
      ]

  Half-generated :
      (io : KeyIo o) (p q : Text) (files : Files)
      → p ≢ q
      → io.public_write ≡ refused
      → (generate_pair o io p q files).1 ≡ err write_public_failed
      → Half p q files (generate_pair o io p q files).0
  unfolding generate_pair
  Half-generated io p q files apart r h = elim (Option-cases io.generated) [
    | inl e ↦ let g = rw (generate_pair, e) at h in cc
    | inr (k, e) ↦
        let g = rw (generate_pair, e) at h in
        rw (generate_pair, e) (Half-pair io p q k files apart r g)
  ]

  created_error :
      (s : Files × Result KeyError (Unit {0})) (x : KeyError)
      → (created o s).1 ≡ err x
      → (s.1 ≡ err x) × ((created o s).0 ≡ s.0)
  unfolding created
  created_error (files, ok _) x h = cc
  created_error (files, err y) x h = (cc, refl)

  secret_error :
      (io : KeyIo o) (p : Text) (files : Files)
      → (generate_secret o io p files).1 ≢ err write_public_failed
  unfolding generate_secret
  secret_error io p files h = elim (Option-cases io.secret) [
    | inl e ↦ let g = rw (generate_secret, e) at h in cc
    | inr (t, e) ↦
        let g = rw (generate_secret, e) at h in
        let q =
          write_file_error io.private_write write_secret_failed write_public_failed p t files g in
        cc
  ]

  Half-made :
      (io : KeyIo o) (algo p q : Text) (files : Files)
      → p ≢ public_path p q
      → io.public_write ≡ refused
      → (make_key o io algo p q files).1 ≡ err write_public_failed
      → Half p (public_path p q) files (make_key o io algo p q files).0
  unfolding make_key
  Half-made io algo p q files apart r h = elim (Option-cases (algorithm_of algo)) [
    | inl e ↦ let g = rw (make_key, e) at h in cc
    | inr (ed25519, e) ↦
        let made = generate_pair o io p (public_path p q) files in
        let (f, g) = created_error made write_public_failed (rw (make_key, e) at h) in
        rw (make_key, e, g) (Half-generated io p (public_path p q) files apart r f)
    | inr (hmac, e) ↦
        let made = generate_secret o io p files in
        let (f, g) = created_error made write_public_failed (rw (make_key, e) at h) in
        absurd (secret_error io p files f)
  ]

  Half-ensured :
      (io : KeyIo o) (algo p q : Text) (files : Files)
      → p ≢ public_path p q
      → io.public_write ≡ refused
      → (ensure_key_pair o io algo p q files).1 ≡ err write_public_failed
      → Half p (public_path p q) files (ensure_key_pair o io algo p q files).0
  unfolding ensure_key_pair
  Half-ensured io algo p q files apart r h = elim (Bool-cases io.unknown) [
    | inl u ↦ let g = rw (ensure_key_pair, u) at h in cc
    | inr u ↦ elim (Bool-cases (is_file (files p))) [
      | inl f ↦ let g = rw (ensure_key_pair, u, f) at h in cc
      | inr f ↦ elim (Bool-cases (dir_fails o io p)) [
        | inl d ↦ let g = rw (ensure_key_pair, u, f, d) at h in cc
        | inr d ↦
            let g = rw (ensure_key_pair, u, f, d) at h in
            rw (ensure_key_pair, u, f, d) (Half-made io algo p q files apart r g)
      ]
    ]
  ]

  found_again :
      (io : KeyIo o) (algo p q : Text) (files : Files)
      → io.unknown ≡ false
      → is_file (files p) ≡ true
      → ensure_key_pair o io algo p q files ≡ (files, ok false)
  unfolding ensure_key_pair
  found_again io algo p q files u f = rw (ensure_key_pair, u, f) refl

  load_missing :
      (readable : Bool) (path : Text) (files : Files)
      → files path ≡ none
      → load_public_key o readable path files ≡ err read_failed
  unfolding load_public_key
  load_missing readable path files h =
      rw (load_public_key, read_file-none readable path files h) refl

  -- When EnsureKeyPair fails because the file of the public key, which was not there, is refused, every
  -- later EnsureKeyPair whose Stat works reports that the key is there and changes nothing, and
  -- LoadPublicKey fails: the public key of the private key that was written is never made. The two
  -- paths differ.
  pub ensure_key_pair-loses :
      (first later : KeyIo o) (algo p q : Text) (files : Files) (readable : Bool)
      → p ≢ public_path p q
      → files (public_path p q) ≡ none
      → first.public_write ≡ refused
      → (ensure_key_pair o first algo p q files).1 ≡ err write_public_failed
      → later.unknown ≡ false
      → (ensure_key_pair o later algo p q (ensure_key_pair o first algo p q files).0
          ≡ ((ensure_key_pair o first algo p q files).0, ok false))
        × (load_public_key o readable (public_path p q) (ensure_key_pair o first algo p q files).0
            ≡ err read_failed)
  ensure_key_pair-loses first later algo p q files readable apart missing r h u =
      let (there, same) = Half-ensured first algo p q files apart r h in
      (
        found_again later algo p q _ u there,
        load_missing readable (public_path p q) _ (same ∙ missing),
      )
