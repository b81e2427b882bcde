-- ===== src/Logger/Generated.antt =====
-- GenerateKeyPair of internal/logger/logger.go, and what is loaded from its files.
use agent_ssh.Base.{◌≡◌, ◌≢◌, refl, sym, ap, ◌∙◌, true, [], ◌∷◌, ◌++◌, inl, inr}
use agent_ssh.Base.Files.{Files}
use agent_ssh.Base.Result.{ok, ok_inj, Result-cases}
use agent_ssh.Base.Text.{Text, codes, text_eq}
use agent_ssh.Base.Normal.{text_ne}
use agent_ssh.Logger.Keys.{
  KeyOps, algorithm_of, ed25519_signer, load_signer, load_public_key, KeyIo, generate_pair, key_of,
  pub_of, generate_key_pair,
}
use agent_ssh.Logger.Pair.{KeyLaws, generate_pair_ok, load_private, load_public}
use agent_ssh.Logger.Signing.{load_signer_ed25519}

suffixes_differ : (s : Text) → s ++ codes ".key" ≢ s ++ codes ".pub"
unfolding text_eq
suffixes_differ [] h = text_ne {s = codes ".key"} {t = codes ".pub"} refl h
suffixes_differ (c ∷ s) h = suffixes_differ s (ap (λ l. elim l [ [] ↦ [] | _ ∷ r ↦ r ]) h)

key_of-ne-pub_of : (prefix : Text) → key_of prefix ≢ pub_of prefix
unfolding key_of pub_of
key_of-ne-pub_of prefix h = suffixes_differ prefix h

module _ (o : KeyOps) where
  open o use {PrivateKey, PublicKey, public_of, verify_ed25519}

  module _ (laws : KeyLaws o) where
    -- The files that GenerateKeyPair names when it succeeds hold a private key that LoadSigner
    -- takes and its public key, which LoadPublicKey takes.
    pub generate_key_pair-load :
        (io : KeyIo o) (prefix : Text) (files : Files) (a b : Text)
        → (generate_key_pair o io prefix files).1 ≡ ok (a, b)
        → (k : PrivateKey) × (load_signer o true
              (codes "ed25519")
              a
              (generate_key_pair o io prefix files).0
            ≡ ok (ed25519_signer k))
          × (load_public_key o true b (generate_key_pair o io prefix files).0 ≡ ok (public_of k))
    unfolding generate_key_pair algorithm_of text_eq
    generate_key_pair-load io prefix files a b h =
        let made = generate_pair o io (key_of prefix) (pub_of prefix) files in
        elim (Result-cases made.1) [
          | inr (x, e) ↦ let g = rw (generate_key_pair, e) at h in cc
          | inl (_, e) ↦
              let g = ok_inj (rw (generate_key_pair, e) at h) in
              let w =
                generate_pair_ok o io (key_of prefix) (pub_of prefix) files
                  (key_of-ne-pub_of prefix) e in
              rw (generate_key_pair, e, sym (ap (λ s. s.0) g), sym (ap (λ s. s.1) g))
                (
                  w.key,
                  load_signer_ed25519 o true (codes "ed25519") (key_of prefix) made.0 refl
                      ∙ load_private o laws (key_of prefix) w.key made.0 w.private_there,
                  load_public o laws (pub_of prefix) (public_of w.key) made.0 w.public_there,
                )
        ]
