-- ===== src/Main/FirstStart.antt =====
-- main of main.go on a machine without signing keys.
use agent_ssh.Base.{◌≡◌, ◌≢◌, ap, ◌∙◌, inl, inr, true, ◌&&◌, some, [], Bool-cases, Option-cases}
use agent_ssh.Base.Files.{Files}
use agent_ssh.Base.Path.{dir}
use agent_ssh.Base.Result.{ok, err, Result-cases}
use agent_ssh.Base.Text.{Text}
use agent_ssh.Config.Types.{Config, LogConfig}
use agent_ssh.Executor.Filter.{Regexp}
use agent_ssh.Logger.Entry.{Crypto}
use agent_ssh.Logger.Handler.{recover}
use agent_ssh.Logger.Keys.{KeyOps, KeyError, Signer, public_path, load_signer, ensure_key_pair}
use agent_ssh.Logger.Pair.{KeyLaws}
use agent_ssh.Logger.Signing.{crypto_with, pair, shared, ensure_key_pair-Usable}
use agent_ssh.Logger.Lifecycle
use agent_ssh.Logger.Lifecycle.{signer_failed, sender_failed, OpenIo, Running, start, open_log}
use agent_ssh.Mq.Sender
use agent_ssh.Main.Program.{World, Log, fallback, init_logger, auto_generate}

module _ (o : KeyOps) (c : Crypto) (k : o.PublicKey) (re : Regexp) where
  abbrev ensured : World o c k re → Config → Files → Files
  ensured w cfg files =
      (ensure_key_pair o w.keys cfg.log.signature_algo cfg.log.sign_key_file cfg.log.verify_pub_file
        files).0

  open_log-signed :
      (io : OpenIo o c k) (cfg : LogConfig) (s : Signer o) (q : Sender.Sender) (x : KeyError)
      → open_log o c k io cfg s q ≢ err (signer_failed x)
  unfolding open_log start
  open_log-signed io cfg s q x h = elim (Bool-cases (io.mkdir_all (dir cfg.file))) [
    | inr d ↦ let g = rw (open_log, d) at h in cc
    | inl d ↦ elim (Bool-cases io.opens) [
      | inr e ↦ let g = rw (open_log, d, e) at h in cc
      | inl e ↦ elim (Bool-cases io.reads) [
        | inr f ↦ let g = rw (open_log, d, e, f) at h in cc
        | inl f ↦ elim (Option-cases (recover (crypto_with o c s k) io.lines)) [
          | inl r ↦ let g = rw (open_log, d, e, f, start, r) at h in cc
          | inr (t, r) ↦ let g = rw (open_log, d, e, f, start, r) at h in cc
        ]
      ]
    ]
  ]

  new-signed :
      (io : OpenIo o c k) (cfg : LogConfig) (files : Files) (s : Signer o) (x : KeyError)
      → load_signer o io.readable cfg.signature_algo cfg.sign_key_file files ≡ ok s
      → Lifecycle.new o c k io cfg files ≢ err (signer_failed x)
  unfolding Lifecycle.new
  new-signed io cfg files s x l h = elim (Bool-cases cfg.enabled) [
    | inr a ↦ let g = rw (Lifecycle.new, a) at h in cc
    | inl a ↦ elim (Result-cases (Sender.new io.mq cfg.mq)) [
      | inr (y, d) ↦ let g = rw (Lifecycle.new, a, l, d) at h in cc
      | inl (q, d) ↦ open_log-signed io cfg s q x (rw (Lifecycle.new, a, l, d) at h)
    ]
  ]

  fallback_inj :
      (y z : Lifecycle.NewError) → ◌≡◌ {A = Log o c k re} (fallback y) (fallback z) → y ≡ z
  fallback_inj y z q = cc

  init_logger-signed :
      (w : World o c k re) (cfg : Config) (files : Files) (s : Signer o) (x : KeyError)
      → load_signer o w.log.readable cfg.log.signature_algo cfg.log.sign_key_file files ≡ ok s
      → init_logger o c k re w cfg files ≢ fallback (signer_failed x)
  unfolding init_logger
  init_logger-signed w cfg files s x l h = elim (Bool-cases cfg.log.enabled) [
    | inr a ↦ let g = rw (init_logger, a) at h in cc
    | inl a ↦ elim (Result-cases (Lifecycle.new o c k w.log cfg.log files)) [
      | inr (y, e) ↦
          let g : fallback y ≡ fallback (signer_failed x) = rw (init_logger, e, a) at h in
          new-signed w.log cfg.log files s x l (e ∙ ap err (fallback_inj y (signer_failed x) g))
      | inl (m, e) ↦ let g = rw (init_logger, e, a) at h in cc
    ]
  ]

  module _ (laws : KeyLaws o) where
    -- When main makes new signing keys, the logger that it starts then never falls back for want of a
    -- signer. The files are readable, the two key files differ, and random bytes are not none.
    pub auto_generate-signs :
        (w : World o c k re) (cfg : Config) (files : Files) (x : KeyError)
        → cfg.log.sign_key_file ≢ public_path cfg.log.sign_key_file cfg.log.verify_pub_file
        → ((t : Text) → w.keys.secret ≡ some t → t ≢ [])
        → w.log.readable ≡ true
        → (auto_generate o c k re w cfg files).1 ≡ ok true
        → init_logger o c k re w cfg (auto_generate o c k re w cfg files).0
          ≢ fallback (signer_failed x)
    unfolding auto_generate
    auto_generate-signs w cfg files x apart filled readable h =
        elim (Bool-cases (cfg.log.enabled && cfg.log.auto_generate_keys)) [
          | inr a ↦ let g = rw (auto_generate, a) at h in cc
          | inl a ↦
              let g = rw (auto_generate, a) at h in
              let u =
                ensure_key_pair-Usable o laws w.keys cfg.log.signature_algo cfg.log.sign_key_file
                  cfg.log.verify_pub_file files apart filled g in
              let at =
                λ (s : Signer o)
                    (l : load_signer o true cfg.log.signature_algo cfg.log.sign_key_file
                        (ensured w cfg files)
                      ≡ ok s).
                  init_logger-signed w cfg (ensured w cfg files) s x (
                    ap
                      (λ b.
                        load_signer o b cfg.log.signature_algo cfg.log.sign_key_file
                          (ensured w cfg files))
                      readable
                    ∙ l) in
              rw (auto_generate, a) (elim u [ pair key e l m ↦ at _ l | shared t e l ↦ at _ l ])
        ]
