-- ===== src/Logger/Pair.antt =====
-- The key pair that internal/logger/signer.go writes, and what is loaded from it.
use agent_ssh.Base.{◌≡◌, ◌≢◌, refl, sym, ap, ◌∙◌, true, some, Option-cases, inl, inr, All}
use agent_ssh.Base.Files.{Files, put_same, Write, write_file_ok, write_file_other}
use agent_ssh.Base.Hex.{IsByte}
use agent_ssh.Base.Result.{ok, err, Result-cases}
use agent_ssh.Base.Text.{Text, text_eq_refl}
use agent_ssh.Logger.Keys.{
  Block, ed25519_key, KeyOps, KeyError, write_private_failed, write_public_failed, read_file,
  private_kind, public_kind, ed25519_signer, private_key, decode_private, load_ed25519_signer,
  public_key, decode_public, load_public_key, write_private_key, write_public_key, KeyIo,
  write_pair, generate_pair,
}

-- What the documentation of Go's packages promises: decoding undoes encoding, and the public key of a
-- private key takes its signatures.
pub record KeyLaws (o : KeyOps) : Type 0 where
  pub decode_encode : (b : Block) → o.pem_decode (o.pem_encode b) ≡ some b
  pub parse_private :
      (k : o.PrivateKey) (t : Text)
      → o.marshal_private k ≡ some t
      → o.parse_private t ≡ ed25519_key k
  pub parse_public :
      (k : o.PublicKey) (t : Text) → o.marshal_public k ≡ some t → o.parse_public t ≡ ed25519_key k
  pub sign_verify :
      (k : o.PrivateKey) (d s : Text)
      → o.sign_ed25519 k d ≡ some s
      → o.verify_ed25519 (o.public_of k) d s ≡ true
  pub sign_bytes : (k : o.PrivateKey) (d s : Text) → o.sign_ed25519 k d ≡ some s → All IsByte s

pub read_file-some :
    (path t : Text) (files : Files) → files path ≡ some t → read_file true path files ≡ ok t
unfolding read_file
read_file-some path t files h = rw (read_file, h) refl

module _ (o : KeyOps) where
  open o use {PrivateKey, PublicKey, public_of, marshal_private, marshal_public, pem_encode}

  private_pem : Text → Text
  private_pem b = pem_encode (record { kind = private_kind; bytes = b })

  public_pem : Text → Text
  public_pem b = pem_encode (record { kind = public_kind; bytes = b })

  -- A key lies under a path.
  abbrev pub HasPrivate : Text → PrivateKey → Files → Type 0
  HasPrivate path k files =
      (b : Text) × (marshal_private k ≡ some b)
      × (files path ≡ some (pem_encode (record { kind = private_kind; bytes = b })))

  abbrev pub HasPublic : Text → PublicKey → Files → Type 0
  HasPublic path k files =
      (b : Text) × (marshal_public k ≡ some b)
      × (files path ≡ some (pem_encode (record { kind = public_kind; bytes = b })))

  pub write_private_key_ok :
      (w : Write) (path : Text) (k : PrivateKey) (files : Files)
      → (write_private_key o w path k files).1 ≡ ok tt
      → HasPrivate path k (write_private_key o w path k files).0
  unfolding write_private_key
  write_private_key_ok w path k files h = elim (Option-cases (marshal_private k)) [
    | inl e ↦ let g = rw (write_private_key, e) at h in cc
    | inr (b, e) ↦
        let pem = pem_encode (record { kind = private_kind; bytes = b }) in
        let g = rw (write_private_key, e) at h in
        (
          b,
          e,
          rw (write_private_key, e)
              (ap (λ f. f path) (write_file_ok w write_private_failed path pem files g)
                ∙ put_same path (some pem) files),
        )
  ]

  write_public_key_ok :
      (w : Write) (path : Text) (k : PublicKey) (files : Files)
      → (write_public_key o w path k files).1 ≡ ok tt
      → HasPublic path k (write_public_key o w path k files).0
  unfolding write_public_key
  write_public_key_ok w path k files h = elim (Option-cases (marshal_public k)) [
    | inl e ↦ let g = rw (write_public_key, e) at h in cc
    | inr (b, e) ↦
        let pem = pem_encode (record { kind = public_kind; bytes = b }) in
        let g = rw (write_public_key, e) at h in
        (
          b,
          e,
          rw (write_public_key, e)
              (ap (λ f. f path) (write_file_ok w write_public_failed path pem files g)
                ∙ put_same path (some pem) files),
        )
  ]

  pub write_private_key_other :
      (w : Write) (path : Text) (k : PrivateKey) (files : Files) (q : Text)
      → q ≢ path
      → (write_private_key o w path k files).0 q ≡ files q
  unfolding write_private_key
  write_private_key_other w path k files q h = elim (Option-cases (marshal_private k)) [
    | inl e ↦ rw (write_private_key, e) refl
    | inr (b, e) ↦ rw (write_private_key, e) (write_file_other w _ path _ files q h)
  ]

  pub write_public_key_other :
      (w : Write) (path : Text) (k : PublicKey) (files : Files) (q : Text)
      → q ≢ path
      → (write_public_key o w path k files).0 q ≡ files q
  unfolding write_public_key
  write_public_key_other w path k files q h = elim (Option-cases (marshal_public k)) [
    | inl e ↦ rw (write_public_key, e) refl
    | inr (b, e) ↦ rw (write_public_key, e) (write_file_other w _ path _ files q h)
  ]

  -- What write_pair is, by the outcome of its first half.
  pub write_pair_second :
      (io : KeyIo o) (p q : Text) (k : PrivateKey) (files : Files)
      → (write_private_key o io.private_write p k files).1 ≡ ok tt
      → write_pair o io p q k files
        ≡ write_public_key o io.public_write q
            (public_of k)
            (write_private_key o io.private_write p k files).0
  unfolding write_pair
  write_pair_second io p q k files h = rw (write_pair, h) refl

  pub write_pair_first :
      (io : KeyIo o) (p q : Text) (k : PrivateKey) (files : Files) (x : KeyError)
      → (write_private_key o io.private_write p k files).1 ≡ err x
      → write_pair o io p q k files ≡ ((write_private_key o io.private_write p k files).0, err x)
  unfolding write_pair
  write_pair_first io p q k files x h = rw (write_pair, h) refl

  -- A pair that was written without an error lies under both paths.
  pub record Written (p q : Text) (after : Files) : Type 0 where
    pub key : PrivateKey
    pub private_there : HasPrivate p key after
    pub public_there : HasPublic q (public_of key) after

  write_pair_ok :
      (io : KeyIo o) (p q : Text) (k : PrivateKey) (files : Files)
      → p ≢ q
      → (write_pair o io p q k files).1 ≡ ok tt
      → Written p q (write_pair o io p q k files).0
  write_pair_ok io p q k files apart h =
      elim (Result-cases (write_private_key o io.private_write p k files).1) [
        | inr (x, e) ↦ let g = ap (λ r. r.1) (write_pair_first io p q k files x e) in cc
        | inl (_, e) ↦
            let mid = (write_private_key o io.private_write p k files).0 in
            let s = write_pair_second io p q k files e in
            let (b, m, there) = write_private_key_ok io.private_write p k files e in
            rw s (record {
              key = k;
              private_there = (
                b,
                m,
                write_public_key_other io.public_write q (public_of k) mid p apart ∙ there,
              );
              public_there =
                  write_public_key_ok io.public_write q (public_of k) mid
                    (sym (ap (λ r. r.1) s) ∙ h);
            })
      ]

  pub generate_pair_ok :
      (io : KeyIo o) (p q : Text) (files : Files)
      → p ≢ q
      → (generate_pair o io p q files).1 ≡ ok tt
      → Written p q (generate_pair o io p q files).0
  unfolding generate_pair
  generate_pair_ok io p q files apart h = elim (Option-cases io.generated) [
    | inl e ↦ let g = rw (generate_pair, e) at h in cc
    | inr (k, e) ↦
        let g = rw (generate_pair, e) at h in
        rw (generate_pair, e) (write_pair_ok io p q k files apart g)
  ]

  write_pair_other :
      (io : KeyIo o) (p q : Text) (k : PrivateKey) (files : Files) (r : Text)
      → r ≢ p
      → r ≢ q
      → (write_pair o io p q k files).0 r ≡ files r
  write_pair_other io p q k files r a b =
      let first = write_private_key_other io.private_write p k files r a in
      elim (Result-cases (write_private_key o io.private_write p k files).1) [
        | inr (x, e) ↦ ap (λ s. s.0 r) (write_pair_first io p q k files x e) ∙ first
        | inl (_, e) ↦
            let mid = (write_private_key o io.private_write p k files).0 in
            ap (λ s. s.0 r) (write_pair_second io p q k files e)
            ∙ write_public_key_other io.public_write q (public_of k) mid r b
            ∙ first
      ]

  pub generate_pair_other :
      (io : KeyIo o) (p q : Text) (files : Files) (r : Text)
      → r ≢ p
      → r ≢ q
      → (generate_pair o io p q files).0 r ≡ files r
  unfolding generate_pair
  generate_pair_other io p q files r a b = elim (Option-cases io.generated) [
    | inl e ↦ rw (generate_pair, e) refl
    | inr (k, e) ↦ rw (generate_pair, e) (write_pair_other io p q k files r a b)
  ]

  module _ (laws : KeyLaws o) where
    pub load_private :
        (path : Text) (k : PrivateKey) (files : Files)
        → HasPrivate path k files
        → load_ed25519_signer o true path files ≡ ok (ed25519_signer k)
    unfolding load_ed25519_signer decode_private private_key
    load_private path k files (b, m, there) =
        rw
          (
            load_ed25519_signer,
            read_file-some path _ files there,
            laws.decode_encode (record { kind = private_kind; bytes = b }),
            decode_private,
            text_eq_refl private_kind,
            laws.parse_private k b m,
          )
          refl

    pub load_public :
        (path : Text) (k : PublicKey) (files : Files)
        → HasPublic path k files
        → load_public_key o true path files ≡ ok k
    unfolding load_public_key decode_public public_key
    load_public path k files (b, m, there) =
        rw
          (
            load_public_key,
            read_file-some path _ files there,
            laws.decode_encode (record { kind = public_kind; bytes = b }),
            decode_public,
            laws.parse_public k b m,
          )
          refl
