-- ===== src/Main/Checking.antt =====
-- main of main.go with the flag -verify-log.
use agent_ssh.Base.{
  ℕ, ◌≡◌, ◌≢◌, refl, ap, inl, inr, ◌↔◌, false, Option, some, List, [], Option-cases,
}
use agent_ssh.Base.Files.{Files}
use agent_ssh.Base.Normal.{ne_text}
use agent_ssh.Base.Result.{ok, Result-cases}
use agent_ssh.Base.Text.{Text}
use agent_ssh.Config.Types.{Config}
use agent_ssh.Config.Load.{load}
use agent_ssh.Executor.Filter.{Regexp}
use agent_ssh.Logger.Entry.{Entry, Crypto}
use agent_ssh.Logger.Verifier.{verify_log_file}
use agent_ssh.Logger.Keys.{KeyOps, load_public_key}
use agent_ssh.Main.Program.{Flags, log_verified, World, exit, check_log, verify, with_config, main}

module _ (read_file : Text → Option Text) (unmarshal : Text → Config → Option Config) (o : KeyOps)
    (c : Crypto) (k : o.PublicKey) (re : Regexp) where
  -- What -verify-log accepts.
  pub record Accepts (w : World o c k re) (flags : Flags) (files : Files) : Type 0 where
    pub config : Config
    pub loaded : load read_file unmarshal w.env flags.config_path ≡ ok config
    pub key : o.PublicKey
    pub found : load_public_key o w.readable config.log.verify_pub_file files ≡ ok key
    pub lines : List (Option (Entry c.Attrs))
    pub read : w.read_log flags.verify_log ≡ some lines
    pub last : ℕ × Text
    pub verified : verify_log_file (record c { verify = o.verify_ed25519 key }) lines ≡ ok last

  -- With -verify-log and without -generate-keys, main changes no file and ends with exit code 0 and
  -- the word that the log is verified exactly if the configuration and the public key load and
  -- VerifyLogFile accepts the file with that key.
  pub main-verifies :
      (w : World o c k re) (flags : Flags) (files : Files)
      → flags.generate_keys ≡ false
      → flags.verify_log ≢ []
      → (main o c k re read_file unmarshal w flags files ≡ (files, exit 0 log_verified))
        ↔ Accepts w flags files
  unfolding main with_config verify check_log
  main-verifies w flags files g v = (
    λ h. elim (Result-cases (load read_file unmarshal w.env flags.config_path)) [
      | inr (x, l) ↦ let q = ap (λ r. r.1) (rw (main, g, l) at h) in cc
      | inl (cfg, l) ↦
          elim (Result-cases (load_public_key o w.readable cfg.log.verify_pub_file files)) [
            | inr (x, e) ↦
                let q =
                  ap (λ r. r.1)
                    (rw (main, g, l, with_config, ne_text flags.verify_log [] v, verify, e) at h) in
                cc
            | inl (key, e) ↦ elim (Option-cases (w.read_log flags.verify_log)) [
              | inl f ↦
                  let q =
                    ap (λ r. r.1)
                      (rw
                        (
                          main,
                          g,
                          l,
                          with_config,
                          ne_text flags.verify_log [] v,
                          verify,
                          e,
                          check_log,
                          f,
                        )
                        at h) in
                  cc
              | inr (lines, f) ↦
                  elim (Result-cases
                    (verify_log_file (record c { verify = o.verify_ed25519 key }) lines)) [
                      | inr (x, q) ↦
                          let z =
                            ap (λ r. r.1)
                              (rw
                                (
                                  main,
                                  g,
                                  l,
                                  with_config,
                                  ne_text flags.verify_log [] v,
                                  verify,
                                  e,
                                  check_log,
                                  f,
                                  q,
                                )
                                at h) in
                          cc
                      | inl (r, q) ↦ record {
                        config = cfg;
                        loaded = l;
                        key = key;
                        found = e;
                        lines = lines;
                        read = f;
                        last = r;
                        verified = q;
                      }
                    ]
            ]
          ]
    ],
    λ a.
        rw
          (
            main,
            g,
            a.loaded,
            with_config,
            ne_text flags.verify_log [] v,
            verify,
            a.found,
            check_log,
            a.read,
            a.verified,
          )
          refl,
  )
