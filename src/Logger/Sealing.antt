-- ===== src/Logger/Sealing.antt =====
-- The first critical section of Handle of internal/logger/logger.go.
use agent_ssh.Base.{◌+◌, ◌%◌, ◌≡◌, refl, sym, ap, ◌∙◌, Option, none, some, Option-cases, inl, inr}
use agent_ssh.Base.Hex
use agent_ssh.Base.Hex.{IsByte, decode-encode}
use agent_ssh.Base.Int.{int64_mod}
use agent_ssh.Base.Result.{ok, err, ok_inj, Result-cases}
use agent_ssh.Base.Text.{Text}
use agent_ssh.Logger.Entry.{Body, Entry, Crypto}
use agent_ssh.Logger.Handler.{Record, HandleError, sign_failed, Logger, next_body, sign_body, seal}

module _ (c : Crypto) where
  open c use {Attrs, marshal, sign, verify}

  -- What a sealed entry is.
  pub record Sealed (r : Record Attrs) (t : Logger c) (e : Entry Attrs) : Type 0 where
    pub body : e.body ≡ next_body c r t
    pub canonical : Text
    pub raw : Text
    pub marshalled : marshal (next_body c r t) ≡ some canonical
    pub signed : sign canonical ≡ some raw
    pub signature : e.signature ≡ Hex.encode raw

  -- Sealing takes a number and leaves the file alone.
  pub seal_keeps :
      (r : Record Attrs) (t : Logger c)
      → ((seal c r t).0.file ≡ t.file) × ((seal c r t).0.seq ≡ (t.seq + 1) % int64_mod)
  unfolding seal sign_body next_body
  seal_keeps r t = elim (Result-cases (sign_body c (next_body c r t) (marshal (next_body c r t)))) [
    | inl (e, f) ↦ rw (seal, f) (refl, refl)
    | inr (x, f) ↦ rw (seal, f) (refl, refl)
  ]

  pub unsigned :
      (b : Body Attrs) (d : Text) → sign d ≡ none → sign_body c b (some d) ≡ err sign_failed
  unfolding sign_body
  unsigned b d g = rw (sign_body, g) refl

  pub signed :
      (b : Body Attrs) (d s : Text)
      → sign d ≡ some s
      → sign_body c b (some d) ≡ ok (record { body = b; signature = Hex.encode s })
  unfolding sign_body
  signed b d s g = rw (sign_body, g) refl

  pub seal_yields :
      (r : Record Attrs) (t : Logger c) {e : Entry Attrs}
      → sign_body c (next_body c r t) (marshal (next_body c r t)) ≡ ok e
      → (seal c r t).1 ≡ ok e
  unfolding seal
  seal_yields r t f = rw (seal, f) refl

  pub seal_refuses :
      (r : Record Attrs) (t : Logger c) {x : HandleError}
      → sign_body c (next_body c r t) (marshal (next_body c r t)) ≡ err x
      → (seal c r t).1 ≡ err x
  unfolding seal
  seal_refuses r t f = rw (seal, f) refl

  seal_result :
      (r : Record Attrs) (t : Logger c) {e : Entry Attrs}
      → (seal c r t).1 ≡ ok e
      → sign_body c (next_body c r t) (marshal (next_body c r t)) ≡ ok e
  unfolding seal
  seal_result r t h =
      elim (Result-cases (sign_body c (next_body c r t) (marshal (next_body c r t)))) [
        | inl (e', f) ↦ f ∙ sym (seal_yields r t f) ∙ h
        | inr (x, f) ↦ let k = seal_refuses r t f in cc
      ]

  signed_body :
      (b : Body Attrs) (m : Option Text) (e : Entry Attrs)
      → sign_body c b m ≡ ok e
      → (d s : Text) × (m ≡ some d)
        × (sign d ≡ some s)
        × (record { body = b; signature = Hex.encode s } ≡ e)
  unfolding sign_body
  signed_body b none e h = cc
  signed_body b (some d) e h = elim (Option-cases (sign d)) [
    | inl g ↦ let k = unsigned b d g in cc
    | inr (s, g) ↦ (d, s, refl, g, ok_inj (sym (signed b d s g) ∙ h))
  ]

  pub seal_ok :
      (r : Record Attrs) (t : Logger c) (e : Entry Attrs) → (seal c r t).1 ≡ ok e → Sealed r t e
  unfolding seal
  seal_ok r t e h =
      let (d, s, f, g, q) =
        signed_body (next_body c r t) (marshal (next_body c r t)) e (seal_result r t h) in
      record {
        body = sym (ap (λ x. x.body) q);
        canonical = d;
        raw = s;
        marshalled = f;
        signed = g;
        signature = sym (ap (λ x. x.signature) q);
      }
