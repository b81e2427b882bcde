-- ===== src/Config/Overrides.antt =====
-- How the environment, the file and the defaults of internal/config/config.go combine, and the
-- quantities in bytes and nanoseconds that the components compute from the result.
use agent_ssh.Base.{ℕ, suc, ◌*◌, ◌≤◌, ◌≡◌, ◌∙◌, Option, none, some, ◌∷◌, arith, ◌^◌, ◌<◌}
use agent_ssh.Base.Int.{ℤ, pos, negsuc, ◌≤ℤ◌, mul_pos, wrap64-pos}
use agent_ssh.Base.Result.{ok, err}
use agent_ssh.Base.Text.{Text, codes}
use agent_ssh.Config.Types.{Config, ExecutorConfig, TaskManagerConfig}
use agent_ssh.Config.Load.{
  Environment, bad_port, atoi, override, override_int, override_server, apply_env_overrides,
  fill_defaults, check_port, load_file, load, max_output_size, retention,
}

override_int-number :
    (c : ℕ) (v : Text) (old n : ℤ) → atoi (c ∷ v) ≡ some n → override_int (c ∷ v) old ≡ n
unfolding override_int override
override_int-number c v old n h = rw (h, override)

override_int-other :
    (c : ℕ) (v : Text) (old : ℤ) → atoi (c ∷ v) ≡ none → override_int (c ∷ v) old ≡ old
unfolding override_int override
override_int-other c v old h = rw (h, override)

check_port-ok : (c : Config) → pos 1 ≤ℤ c.server.port → check_port c ≡ ok c
unfolding check_port
check_port-ok c h = ground arith

check_port-bad : (c : Config) → c.server.port ≤ℤ pos 0 → check_port c ≡ err bad_port
unfolding check_port
check_port-bad c h = ground arith

module _ (read_file : Text → Option Text) (unmarshal : Text → Config → Option Config) where
  -- Given the Config of the file, and SERVER_PORT set: a positive number wins over the file's port,
  -- a negative number makes Load fail with bad_port even beside a valid port in the file, and a text
  -- that is no int64 leaves the file's port, which Load serves if it is positive.
  pub load-server_port :
      (env : Environment) (path : Text) (file : Config) (c n : ℕ) (v : Text)
      → load_file read_file unmarshal path ≡ ok file
      → env (codes "SERVER_PORT") ≡ c ∷ v
      → let d = fill_defaults (apply_env_overrides env file) in
        (atoi (c ∷ v) ≡ some (pos (suc n))
          → (load read_file unmarshal env path ≡ ok d) × (d.server.port ≡ pos (suc n)))
        × (atoi (c ∷ v) ≡ some (negsuc n) → load read_file unmarshal env path ≡ err bad_port)
        × (atoi (c ∷ v) ≡ none
            → file.server.port ≡ pos (suc n)
            → (load read_file unmarshal env path ≡ ok d) × (d.server.port ≡ pos (suc n)))
  unfolding load apply_env_overrides override_server fill_defaults
  load-server_port env path file c n v h e =
      let number = override_int-number c v file.server.port in
      let other = override_int-other c v file.server.port in
      let cfg = apply_env_overrides env file in
      let port : cfg.server.port ≡ override_int (c ∷ v) file.server.port = rw e in
      (
        λ a.
            let q = port ∙ number (pos (suc n)) a in
            (rw (h, check_port-ok cfg (rw q (omega arith))), q),
        λ a. rw (h, check_port-bad cfg (rw (port, number (negsuc n) a) (omega arith))),
        λ a p. let q = port ∙ other a ∙ p in (rw (h, check_port-ok cfg (rw q (omega arith))), q),
      )

-- Up to 106751 days the retention in nanoseconds is exact; it does not wrap.
pub retention_exact :
    (c : TaskManagerConfig) (m : ℕ)
    → c.retention_minutes ≡ pos m
    → m ≤ 153722867
    → retention c ≡ pos (m * 60000000000)
unfolding retention
retention_exact c m e h = rw (e, mul_pos) (wrap64-pos (m * 60000000000) (omega arith))

pub max_output_size_exact :
    (c : ExecutorConfig) (m : ℕ)
    → c.max_output_size_mb ≡ pos m
    → m < 2 ^ 43
    → max_output_size c ≡ pos (m * 1024 * 1024)
unfolding max_output_size
max_output_size_exact c m e h =
    rw (e, mul_pos, wrap64-pos (m * 1024) (omega arith), mul_pos)
      (wrap64-pos (m * 1024 * 1024) (omega arith))
