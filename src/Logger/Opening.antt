-- ===== src/Logger/Opening.antt =====
-- What New of internal/logger/logger.go opens.
use agent_ssh.Base.{
  ℕ, ◌≡◌, refl, sym, subst, ◌∙◌, inl, inr, true, Option, none, some, List, [], ◌∷◌, Bool-cases,
  Option-cases, arith,
}
use agent_ssh.Base.Files.{Files}
use agent_ssh.Base.Path.{dir}
use agent_ssh.Base.Result.{ok, ok_inj, Result-cases}
use agent_ssh.Base.Text.{Text}
use agent_ssh.Config.Types.{LogConfig}
use agent_ssh.Logger.Entry.{Entry, Crypto}
use agent_ssh.Logger.Handler.{Logger, recover, last_line}
use agent_ssh.Logger.Verifier.{verify_log_file}
use agent_ssh.Logger.Keys.{KeyOps, Signer, load_signer}
use agent_ssh.Logger.Signing.{crypto_with}
use agent_ssh.Logger.Chain.{Verified}
use agent_ssh.Logger.Soundness.{recover-Verified}
use agent_ssh.Logger.Replica.{Replicates}
use agent_ssh.Logger.Lifecycle.{OpenIo, Running, start, open_log, new}
use agent_ssh.Mq.Sender
use agent_ssh.Mq.Sender.{Sender, NewIo}
use agent_ssh.Mq.Topics.{HasTarget, new-HasTarget}
use mathlib.Core.List.Sublistᴰ.{slnil, cons}
use mathlib.Core.List.{Sublistᴰ}
use mathlib.Core.Option.{some-injective}

nothing_kept {ℓ} : {A : Type ℓ} (ls : List A) → Sublistᴰ [] ls
nothing_kept [] = slnil
nothing_kept (l ∷ ls) = cons (nothing_kept ls)

module _ (o : KeyOps) (c : Crypto) (k : o.PublicKey) where
  -- What holds of a logger that New opens.
  pub record Opens (io : OpenIo o c k) (cfg : LogConfig) (files : Files) (m : Running o c k)
      : Type 0 where
    pub enabled : cfg.enabled ≡ true
    pub loaded : load_signer o io.readable cfg.signature_algo cfg.sign_key_file files ≡ ok m.signer
    pub made : Sender.new io.mq cfg.mq ≡ ok m.sender
    pub recovered : recover (crypto_with o c m.signer k) io.lines ≡ some m.logger

  start_ok :
      (s : Signer o) (q : Sender) (t : Option (Logger (crypto_with o c s k))) (m : Running o c k)
      → start o c k s q t ≡ ok (some m)
      → (u : Logger (crypto_with o c s k)) × (t ≡ some u)
        × (record { signer = s; sender = q; logger = u } ≡ m)
  unfolding start
  start_ok s q none m h = cc
  start_ok s q (some u) m h = (u, refl, some-injective _ _ (ok_inj h))

  open_log_ok :
      (io : OpenIo o c k) (cfg : LogConfig) (s : Signer o) (q : Sender) (m : Running o c k)
      → open_log o c k io cfg s q ≡ ok (some m)
      → (u : Logger (crypto_with o c s k)) × (recover (crypto_with o c s k) io.lines ≡ some u)
        × (record { signer = s; sender = q; logger = u } ≡ m)
  unfolding open_log
  open_log_ok io cfg s q m h = elim (Bool-cases (io.mkdir_all (dir cfg.file))) [
    | inr d ↦ let g = rw (open_log, d) at h in cc
    | inl d ↦ elim (Bool-cases io.opens) [
      | inr e ↦ let g = rw (open_log, d, e) at h in cc
      | inl e ↦ elim (Bool-cases io.reads) [
        | inr f ↦ let g = rw (open_log, d, e, f) at h in cc
        | inl f ↦
            start_ok s q (recover (crypto_with o c s k) io.lines) m (rw (open_log, d, e, f) at h)
      ]
    ]
  ]

  new_ok :
      (io : OpenIo o c k) (cfg : LogConfig) (files : Files) (m : Running o c k)
      → new o c k io cfg files ≡ ok (some m)
      → Opens io cfg files m
  unfolding new
  new_ok io cfg files m h = elim (Bool-cases cfg.enabled) [
    | inr a ↦ let g = ok_inj (rw (new, a) at h) in cc
    | inl a ↦
        elim (Result-cases (load_signer o io.readable cfg.signature_algo cfg.sign_key_file files)) [
          | inr (x, b) ↦ let g = rw (new, a, b) at h in cc
          | inl (s, b) ↦ elim (Result-cases (Sender.new io.mq cfg.mq)) [
            | inr (x, d) ↦ let g = rw (new, a, b, d) at h in cc
            | inl (q, d) ↦
                let (u, r, e) = open_log_ok io cfg s q m (rw (new, a, b, d) at h) in
                subst (Opens io cfg files) e
                  (record { enabled = a; loaded = b; made = d; recovered = r })
          ]
        ]
  ]

  recover-Replicates :
      (d : Crypto) (ls : List (Option (Entry d.Attrs))) (t : Logger d)
      → recover d ls ≡ some t
      → Replicates d t
  unfolding recover
  recover-Replicates d [] t h =
      subst (Replicates d) (some-injective _ _ h)
        (record { ordered = slnil; bounded = omega arith })
  recover-Replicates d (l ∷ ls) t h = elim (Option-cases (last_line d (l ∷ ls))) [
    | inl e ↦ let g = rw (recover, e) at h in cc
    | inr (x, e) ↦
        let g = some-injective _ _ (rw (recover, e) at h) in
        subst (Replicates d) g (record { ordered = nothing_kept (l ∷ ls); bounded = omega arith })
  ]

  -- A logger that New opens is enabled by the configuration, signs with the key that LoadSigner finds,
  -- has a sender with a target, and starts with an empty queue of replicas. Where VerifyLogFile accepts
  -- the lines of its file, it continues them: the file with the number and the hash it goes on from
  -- verifies.
  pub new-Opens :
      (io : OpenIo o c k) (cfg : LogConfig) (files : Files) (m : Running o c k)
      → new o c k io cfg files ≡ ok (some m)
      → Opens io cfg files m
        × HasTarget m.sender
        × Replicates (crypto_with o c m.signer k) m.logger
        × ((q : ℕ × Text)
            → verify_log_file (crypto_with o c m.signer k) io.lines ≡ ok q
            → (m.logger.file ≡ io.lines) × Verified (crypto_with o c m.signer k) m.logger)
  new-Opens io cfg files m h =
      let w = new_ok io cfg files m h in
      let d = crypto_with o c m.signer k in
      (
        w,
        new-HasTarget io.mq cfg.mq m.sender w.made,
        recover-Replicates d io.lines m.logger w.recovered,
        λ q v.
            let (t, r, f, g) = recover-Verified d io.lines q v in
            let same = some-injective t m.logger (sym r ∙ w.recovered) in
            subst (λ (u : Logger d). (u.file ≡ io.lines) × Verified d u) same (f, g),
      )
