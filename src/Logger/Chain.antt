-- ===== src/Logger/Chain.antt =====
-- Handle of internal/logger/logger.go against VerifyLogFile: what the logger writes, the verifier
-- takes, also after a restart.
use agent_ssh.Base.{
  ℕ, ◌+◌, ◌%◌, ◌≡◌, refl, ap, ◌∙◌, ◌==◌, ==_iff, Bool, true, Option, none, some, List, [], ◌∷◌,
  ◌++◌, Bool-cases, inl, inr, All, ltb,
}
use agent_ssh.Base.Hex
use agent_ssh.Base.Hex.{IsByte, decode-encode}
use agent_ssh.Base.Int.{int64_mod}
use agent_ssh.Base.Result.{ok, ◌>>=◌, >>=-through}
use agent_ssh.Base.Text.{Text, text_eq_refl}
use agent_ssh.Logger.Entry.{Entry, Crypto, canonical_bytes, hash, decoded}
use agent_ssh.Logger.Handler.{Record, Logger, next_body, handle}
use agent_ssh.Logger.Verifier.{
  check_link, check_signature, verify_entry, verify_from, verify_log_file,
}
use agent_ssh.Logger.Sealing.{Sealed}
use agent_ssh.Logger.Steps.{handled}

-- What the logger relies on: attributes keep their JSON when they are read back, and a signature is
-- bytes that the key of the verifier takes.
pub record Sound (c : Crypto) : Type 0 where
  pub reread_marshal : (e : Entry c.Attrs) → c.marshal (decoded c e).body ≡ c.marshal e.body
  pub sign_verify : (d s : Text) → c.sign d ≡ some s → c.verify d s ≡ true
  pub sign_bytes : (d s : Text) → c.sign d ≡ some s → All IsByte s

check_link_same : (n : ℕ) (p : Text) → check_link n p p ≡ ok tt
unfolding check_link
check_link_same n p = elim (Bool-cases (ltb 1 n)) [
  | inl g ↦ rw (g, text_eq_refl p) refl
  | inr g ↦ rw g refl
]

module _ (c : Crypto) where
  open c use {Attrs, marshal, sign, verify}

  -- Reading a longer file is reading its first part and going on from there.
  pub verify_from-++ :
      (s : ℕ) (p : Text) (ls ms : List (Option (Entry Attrs)))
      → verify_from c s p (ls ++ ms)
        ≡ (verify_from c s p ls >>= λ (q : ℕ × Text). verify_from c q.0 q.1 ms)
  unfolding verify_from
  verify_from-++ s p [] ms = refl
  verify_from-++ s p (none ∷ ls) ms = refl
  verify_from-++ s p (some e ∷ ls) ms = elim (Bool-cases (e.seq == (s + 1) % int64_mod)) [
    | inr g ↦ rw g refl
    | inl g ↦ rw g (
        >>=-through (verify_entry c p e) _ (λ (q : ℕ × Text). verify_from c q.0 q.1 ms)
          (verify_from-++ e.seq (hash c e) ls ms))
  ]

  -- The logger remembers the end of a file that verifies.
  abbrev pub Verified : Logger c → Type 0
  Verified t = verify_log_file c t.file ≡ ok (t.seq, t.last_hash)

  decoded-hash : Sound c → (e : Entry Attrs) → hash c (decoded c e) ≡ hash c e
  unfolding hash canonical_bytes decoded
  decoded-hash snd e = rw (hash, canonical_bytes, snd.reread_marshal e) refl

  pub Sealed-seq :
      (r : Record Attrs) (t : Logger c) (e : Entry Attrs)
      → Sealed c r t e
      → (decoded c e).seq ≡ (t.seq + 1) % int64_mod
  unfolding next_body decoded
  Sealed-seq r t e h = ap (λ b. b.seq) h.body

  Sealed-prev :
      (r : Record Attrs) (t : Logger c) (e : Entry Attrs)
      → Sealed c r t e
      → (decoded c e).prev_hash ≡ Hex.encode t.last_hash
  unfolding next_body decoded
  Sealed-prev r t e h = ap (λ b. b.prev_hash) h.body

  Sealed-canonical :
      (snd : Sound c) (r : Record Attrs) (t : Logger c) (e : Entry Attrs) (h : Sealed c r t e)
      → canonical_bytes c (decoded c e) ≡ some h.canonical
  unfolding canonical_bytes
  Sealed-canonical snd r t e h = snd.reread_marshal e ∙ ap marshal h.body ∙ h.marshalled

  Sealed-signature :
      (snd : Sound c) (r : Record Attrs) (t : Logger c) (e : Entry Attrs) (h : Sealed c r t e)
      → Hex.decode (decoded c e).signature ≡ some h.raw
  unfolding decoded
  Sealed-signature snd r t e h =
      rw h.signature (decode-encode h.raw (snd.sign_bytes h.canonical h.raw h.signed))

  Sealed-entry_verifies :
      (snd : Sound c) (r : Record Attrs) (t : Logger c) (e : Entry Attrs) (h : Sealed c r t e)
      → verify_entry c t.last_hash (decoded c e) ≡ ok tt
  unfolding verify_entry check_signature check_link
  Sealed-entry_verifies snd r t e h =
      rw
        (
          verify_entry,
          Sealed-canonical snd r t e h,
          Sealed-signature snd r t e h,
          check_signature,
          snd.sign_verify h.canonical h.raw h.signed,
          Sealed-prev r t e h,
        )
        (check_link_same (decoded c e).seq (Hex.encode t.last_hash))

  -- A sealed entry is taken after the one it was sealed behind.
  pub Sealed-verifies :
      (snd : Sound c) (r : Record Attrs) (t : Logger c) (e : Entry Attrs)
      → Sealed c r t e
      → verify_from c t.seq t.last_hash (some (decoded c e) ∷ []) ≡ ok (e.seq, hash c e)
  unfolding verify_from decoded
  Sealed-verifies snd r t e h =
      rw ((==_iff (decoded c e).seq ((t.seq + 1) % int64_mod)).1 (Sealed-seq r t e h))
        (rw (Sealed-entry_verifies snd r t e h, decoded-hash snd e) refl)

  -- A logger whose file verifies up to the entry it remembers has such a file again after every
  -- Handle that returns no error, if attributes keep their JSON when read back and signatures are
  -- bytes that the verifier's key takes.
  pub handle-Verified :
      Sound c
      → (w : Bool) (r : Record Attrs) (t : Logger c) → Verified t
      → (handle c w r t).1 ≡ ok tt
      → Verified (handle c w r t).0
  unfolding verify_log_file
  handle-Verified snd w r t v h =
      let d = handled c r t w h in
      let e = d.entry in
      rw (d.file, verify_from-++ 0 [] t.file (some (decoded c e) ∷ []), v, d.seq, d.last_hash)
        (Sealed-verifies snd r t e d.sealed)
