-- ===== src/Config/Listen.antt =====
-- ListenAddr of internal/config/config.go, and the port that SERVER_PORT gives.
use agent_ssh.Base.{
  ℕ, zero, suc, ◌+◌, ◌-◌, ◌*◌, ◌/◌, ◌%◌, ◌<◌, ◌≤◌, ◌≡◌, ◌≢◌, refl, ap, ◌∙◌, true, false, Option,
  some, [], ◌∷◌, ◌++◌, arith, ◌==◌, ltb, inl, inr, Bool-cases,
}
use agent_ssh.Base.Int.{pos, int64_half}
use agent_ssh.Base.Printing.{digits_of, decimal, print_int}
use agent_ssh.Base.Text.{Text, codes}
use agent_ssh.Base.Result.{ok}
use agent_ssh.Config.Types.{Config, ServerConfig}
use agent_ssh.Config.Load.{
  is_digit, digits_from, digits, in_range, atoi, Environment, load_file, load, fill_defaults,
  apply_env_overrides,
}
use agent_ssh.Config.Overrides.{load-server_port}

unfoldable pub listen_addr : ServerConfig → Text
listen_addr s = s.host ++ (b':' ∷ print_int s.port)

digits_from-snoc :
    (m v c : ℕ) (s : Text)
    → digits_from m s ≡ some v
    → c < 10
    → digits_from m (s ++ (48 + c) ∷ []) ≡ some (v * 10 + c)
unfolding digits_from is_digit
digits_from-snoc m v c [] h small = ground arith
digits_from-snoc m v c (d ∷ s) h small = elim (Bool-cases (is_digit d)) [
  | inl e ↦
      let k = rw (digits_from, e) at h in
      rw (digits_from, e) (digits_from-snoc (m * 10 + (d - 48)) v c s k small)
  | inr e ↦ let k = rw (digits_from, e) at h in absurd (ground arith)
]

digits_of-read : (fuel n : ℕ) → n ≤ fuel → digits_from 0 (digits_of fuel n) ≡ some n
unfolding digits_of digits_from is_digit
digits_of-read zero n h = ground arith
digits_of-read (suc fuel) n h = elim (Bool-cases (ltb n 10)) [
  | inl e ↦ rw e (ground arith)
  | inr e ↦ rw e (
      digits_from-snoc 0 (n / 10) (n % 10) (digits_of fuel (n / 10))
        (digits_of-read fuel (n / 10) (ground arith)) (omega arith)
      ∙ ap some (omega arith))
]

snoc_ne : (s : Text) (c : ℕ) → s ++ c ∷ [] ≢ []
snoc_ne [] c h = cc
snoc_ne (d ∷ s) c h = cc

digits_of-ne : (fuel n : ℕ) → digits_of fuel n ≢ []
unfolding digits_of
digits_of-ne zero n h = cc
digits_of-ne (suc fuel) n h = elim (Bool-cases (ltb n 10)) [
  | inl e ↦ let k = rw e at h in cc
  | inr e ↦ let k = rw e at h in snoc_ne (digits_of fuel (n / 10)) _ k
]

digit_first : (c n : ℕ) (s : Text) → digits_from 0 (c ∷ s) ≡ some n → is_digit c ≡ true
unfolding digits_from
digit_first c n s h = elim (Bool-cases (is_digit c)) [
  | inl e ↦ e
  | inr e ↦ let k = rw (digits_from, e) at h in absurd (ground arith)
]

atoi-digits :
    (n : ℕ) (t : Text) → t ≢ [] → digits_from 0 t ≡ some n → n < int64_half → atoi t ≡ some (pos n)
unfolding atoi digits in_range is_digit
atoi-digits n [] ne h small = elim (ne refl) [ ]
atoi-digits n (c ∷ s) ne h small =
    let d = digit_first c n s h in
    let not_minus : (c == b'-') ≡ false = ground arith in
    let not_plus : (c == b'+') ≡ false = ground arith in rw (not_minus, not_plus, h) (ground arith)

-- A port that is set by SERVER_PORT in the way %d prints it.
pub atoi-decimal : (n : ℕ) → n < int64_half → atoi (decimal n) ≡ some (pos n)
unfolding decimal
atoi-decimal n small =
    atoi-digits n (digits_of n n) (digits_of-ne n n) (digits_of-read n n (omega arith)) small

module _ (read_file : Text → Option Text) (unmarshal : Text → Config → Option Config) where
  -- Where `t` is what SERVER_PORT holds.
  listens_at :
      (env : Environment) (path : Text) (file : Config) (n : ℕ) (t : Text)
      → load_file read_file unmarshal path ≡ ok file
      → env (codes "SERVER_PORT") ≡ t
      → t ≢ []
      → atoi t ≡ some (pos (suc n))
      → let d = fill_defaults (apply_env_overrides env file) in
        (load read_file unmarshal env path ≡ ok d) × (d.server.port ≡ pos (suc n))
  listens_at env path file n [] h e ne a = elim (ne refl) [ ]
  listens_at env path file n (c ∷ v) h e ne a =
      (load-server_port read_file unmarshal env path file c n v h e).0 a

  -- When the file is read and SERVER_PORT holds a positive int64 as %d prints it, Load returns a
  -- configuration, and the address that the agent listens on is its host, a colon and the text of
  -- SERVER_PORT.
  pub load-listens :
      (env : Environment) (path : Text) (file : Config) (n : ℕ)
      → load_file read_file unmarshal path ≡ ok file
      → env (codes "SERVER_PORT") ≡ decimal (suc n)
      → suc n < int64_half
      → (d : Config) × (load read_file unmarshal env path ≡ ok d)
        × (listen_addr d.server ≡ d.server.host ++ (b':' ∷ env (codes "SERVER_PORT")))
  unfolding listen_addr print_int decimal
  load-listens env path file n h e small =
      let (a, b) =
        listens_at env path file n (decimal (suc n)) h e (digits_of-ne (suc n) (suc n))
          (atoi-decimal (suc n) small) in
      let d = fill_defaults (apply_env_overrides env file) in (d, a, rw (b, e) refl)
