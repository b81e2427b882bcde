-- ===== src/Logger/Steps.antt =====
-- The two critical sections of Handle in internal/logger/logger.go: what an entry is sealed with and
-- what a call leaves behind.
use agent_ssh.Base.{
  ◌≡◌, refl, ap, Bool, true, false, none, some, [], ◌∷◌, ◌++◌, Bool-cases, Option-cases, inl, inr,
  ltb, length,
}
use agent_ssh.Base.Hex
use agent_ssh.Base.Hex.{IsByte, decode-encode}
use agent_ssh.Base.Result.{ok, err}
use agent_ssh.Base.Text.{Text}
use agent_ssh.Logger.Entry.{Entry, Crypto, hash, decoded}
use agent_ssh.Logger.Handler.{
  Record, canonicalize_failed, sign_failed, write_failed, Logger, next_body, sign_body, seal,
  append, enqueue, handle,
}
use agent_ssh.Logger.Sealing.{Sealed}

module _ (c : Crypto) where
  open c use {Attrs, marshal, sign, verify}

  -- What Handle did when it returned no error.
  pub record Handled (r : Record Attrs) (t after : Logger c) : Type 0 where
    pub entry : Entry Attrs
    pub sealed : Sealed c r t entry
    pub file : after.file ≡ t.file ++ some (decoded c entry) ∷ []
    pub seq : after.seq ≡ entry.seq
    pub last_hash : after.last_hash ≡ hash c entry

  enqueue_file : (e : Entry Attrs) (t : Logger c) → (enqueue c e t).file ≡ t.file
  unfolding enqueue
  enqueue_file e t = elim (Bool-cases (ltb (length t.queue) 4096)) [
    | inl g ↦ rw g refl
    | inr g ↦ rw g refl
  ]

  enqueue_seq : (e : Entry Attrs) (t : Logger c) → (enqueue c e t).seq ≡ t.seq
  unfolding enqueue
  enqueue_seq e t = elim (Bool-cases (ltb (length t.queue) 4096)) [
    | inl g ↦ rw g refl
    | inr g ↦ rw g refl
  ]

  enqueue_last_hash : (e : Entry Attrs) (t : Logger c) → (enqueue c e t).last_hash ≡ t.last_hash
  unfolding enqueue
  enqueue_last_hash e t = elim (Bool-cases (ltb (length t.queue) 4096)) [
    | inl g ↦ rw g refl
    | inr g ↦ rw g refl
  ]

  marshal_fails :
      (r : Record Attrs) (t : Logger c) (w : Bool)
      → marshal (next_body c r t) ≡ none
      → (handle c w r t).1 ≡ err canonicalize_failed
  unfolding handle seal sign_body
  marshal_fails r t w f = rw (handle, seal, f) refl

  sign_fails :
      (r : Record Attrs) (t : Logger c) (w : Bool) {d : Text}
      → marshal (next_body c r t) ≡ some d
      → sign d ≡ none
      → (handle c w r t).1 ≡ err sign_failed
  unfolding handle seal sign_body
  sign_fails r t w f g = rw (handle, seal, f, sign_body, g) refl

  write_fails :
      (r : Record Attrs) (t : Logger c) {d s : Text}
      → marshal (next_body c r t) ≡ some d
      → sign d ≡ some s
      → (handle c false r t).1 ≡ err write_failed
  unfolding handle seal sign_body append
  write_fails r t f g = rw (handle, seal, f, sign_body, g) refl

  unfoldable pub sealed_entry : (r : Record Attrs) (t : Logger c) → Text → Entry Attrs
  sealed_entry r t s = record { body = next_body c r t; signature = Hex.encode s }

  unfoldable pub written : Entry Attrs → Logger c → Logger c
  written e t = record {
    seq = e.seq;
    last_hash = hash c e;
    file = t.file ++ some (decoded c e) ∷ [];
    queue = t.queue;
    sent = t.sent;
  }

  seal_works :
      (r : Record Attrs) (t : Logger c) (d s : Text)
      → marshal (next_body c r t) ≡ some d
      → sign d ≡ some s
      → seal c r t ≡ (
        record {
          seq = (next_body c r t).seq;
          last_hash = hash c (sealed_entry r t s);
          file = t.file;
          queue = t.queue;
          sent = t.sent;
        },
        ok (sealed_entry r t s),
      )
  unfolding seal sign_body sealed_entry
  seal_works r t d s f g = rw (seal, f, sign_body, g) refl

  pub handle_works :
      (r : Record Attrs) (t : Logger c) (d s : Text)
      → marshal (next_body c r t) ≡ some d
      → sign d ≡ some s
      → (handle c true r t).0 ≡ enqueue c (sealed_entry r t s) (written (sealed_entry r t s) t)
  unfolding handle seal sign_body append sealed_entry written
  handle_works r t d s f g =
      rw
        (
          handle,
          ap (λ p. p.1) (seal_works r t d s f g),
          append,
          ap (λ p. p.0) (seal_works r t d s f g),
        )
        refl

  works :
      (r : Record Attrs) (t : Logger c) (d s : Text)
      → marshal (next_body c r t) ≡ some d
      → sign d ≡ some s
      → Handled r t (handle c true r t).0
  unfolding sealed_entry written
  works r t d s f g = record {
    entry = sealed_entry r t s;
    sealed = record {
      body = refl;
      canonical = d;
      raw = s;
      marshalled = f;
      signed = g;
      signature = refl;
    };
    file = rw (handle_works r t d s f g, enqueue_file) refl;
    seq = rw (handle_works r t d s f g, enqueue_seq) refl;
    last_hash = rw (handle_works r t d s f g, enqueue_last_hash) refl;
  }

  writes_or_not :
      (r : Record Attrs) (t : Logger c) (w : Bool) (d s : Text)
      → marshal (next_body c r t) ≡ some d
      → sign d ≡ some s
      → (handle c w r t).1 ≡ ok tt
      → Handled r t (handle c w r t).0
  writes_or_not r t true d s f g h = works r t d s f g
  writes_or_not r t false d s f g h = let q = write_fails r t f g in cc

  pub handled :
      (r : Record Attrs) (t : Logger c) (w : Bool)
      → (handle c w r t).1 ≡ ok tt
      → Handled r t (handle c w r t).0
  handled r t w h = elim (Option-cases (marshal (next_body c r t))) [
    | inl f ↦ let q = marshal_fails r t w f in cc
    | inr (d, f) ↦ elim (Option-cases (sign d)) [
      | inl g ↦ let q = sign_fails r t w f g in cc
      | inr (s, g) ↦ writes_or_not r t w d s f g h
    ]
  ]
