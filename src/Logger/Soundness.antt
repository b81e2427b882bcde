-- ===== src/Logger/Soundness.antt =====
-- What VerifyLogFile of internal/logger/logger.go accepts, and what recoverLastHash makes of it.
use agent_ssh.Base.{
  ℕ, ◌+◌, ◌%◌, ◌<◌, ◌≡◌, refl, sym, ap, ◌∙◌, ◌==◌, ==_iff, ltb→lt, lt→ltb, true, false, Option,
  none, some, List, [], ◌∷◌, ◌++◌, Bool-cases, inl, inr, ltb, ◌↔◌,
}
use agent_ssh.Base.Hex
use agent_ssh.Base.Int.{int64_mod}
use agent_ssh.Base.Result.{ok, err, ◌>>=◌, >>=-eq-ok, ok_inj}
use agent_ssh.Base.Text.{Text, text_eq, text_eq_iff}
use agent_ssh.Logger.Entry.{Entry, Crypto, canonical_bytes, hash}
use agent_ssh.Logger.Handler.{Logger, last_line, recover}
use agent_ssh.Logger.Verifier.{
  bad_signature, sequence_gap, check_link, check_signature, verify_entry, verify_from,
  verify_log_file,
}
use agent_ssh.Logger.Chain.{Verified, verify_from-++}

pub check_link_iff : (n : ℕ) (p q : Text) → (check_link n p q ≡ ok tt) ↔ (1 < n → p ≡ q)
unfolding check_link
check_link_iff n p q = elim (Bool-cases (ltb 1 n)) [
  | inr g ↦ rw g (λ h l. let k = lt→ltb 1 n l in cc, λ h. refl)
  | inl g ↦ elim (Bool-cases (text_eq p q)) [
    | inl f ↦ rw (g, f) (λ h l. (text_eq_iff p q).0 f, λ h. refl)
    | inr f ↦ rw (g, f) (λ h. cc, λ h. let k = (text_eq_iff p q).1 (h (ltb→lt 1 n g)) in cc)
  ]
]

module _ (c : Crypto) where
  open c use {Attrs, verify}

  -- The signature of the entry is that of its canonical bytes.
  pub record IsSigned (e : Entry Attrs) : Type 0 where
    pub canonical : Text
    pub raw : Text
    pub has_bytes : canonical_bytes c e ≡ some canonical
    pub is_hex : Hex.decode e.signature ≡ some raw
    pub accepted : verify canonical raw ≡ true

  -- A chain of signed entries behind number s and hash p, which ends in number q.0 and hash q.1.
  abbrev pub Chained : ℕ → Text → List (Option (Entry Attrs)) → ℕ × Text → Type 0
  Chained s p [] q = (s, p) ≡ q
  Chained s p (none ∷ ls) q = ⊥
  Chained s p (some e ∷ ls) q =
      (e.seq ≡ (s + 1) % int64_mod)
      × IsSigned e
      × (1 < e.seq → e.prev_hash ≡ Hex.encode p)
      × Chained e.seq (hash c e) ls q

  refused :
      (d raw : Text)
      → verify d raw ≡ false
      → check_signature c (some d) (some raw) ≡ err bad_signature
  unfolding check_signature
  refused d raw g = rw g refl

  signature_parts :
      (m n : Option Text)
      → check_signature c m n ≡ ok tt
      → (d raw : Text) × (m ≡ some d) × (n ≡ some raw) × (verify d raw ≡ true)
  unfolding check_signature
  signature_parts none n h = cc
  signature_parts (some d) none h = cc
  signature_parts (some d) (some raw) h = elim (Bool-cases (verify d raw)) [
    | inl g ↦ (d, raw, refl, refl, g)
    | inr g ↦ let k = refused d raw g in cc
  ]

  checked-IsSigned :
      (e : Entry Attrs)
      → check_signature c (canonical_bytes c e) (Hex.decode e.signature) ≡ ok tt
      → IsSigned e
  checked-IsSigned e h =
      let (d, raw, b, x, a) = signature_parts (canonical_bytes c e) (Hex.decode e.signature) h in
      record { canonical = d; raw = raw; has_bytes = b; is_hex = x; accepted = a }

  signed_checks :
      (e : Entry Attrs)
      → IsSigned e
      → check_signature c (canonical_bytes c e) (Hex.decode e.signature) ≡ ok tt
  unfolding check_signature
  signed_checks e h = rw (h.has_bytes, h.is_hex, check_signature, h.accepted) refl

  verify_entry_iff :
      (p : Text) (e : Entry Attrs)
      → (verify_entry c p e ≡ ok tt) ↔ (IsSigned e × (1 < e.seq → e.prev_hash ≡ Hex.encode p))
  unfolding verify_entry
  verify_entry_iff p e = (
    λ h.
        let (u, a, b) =
          >>=-eq-ok (check_signature c (canonical_bytes c e) (Hex.decode e.signature))
            (λ _. check_link e.seq e.prev_hash (Hex.encode p)) h in
        (checked-IsSigned e a, (check_link_iff e.seq e.prev_hash (Hex.encode p)).0 b),
    λ h.
        rw (verify_entry, signed_checks e h.0)
          ((check_link_iff e.seq e.prev_hash (Hex.encode p)).1 h.1),
  )

  pub stops :
      (s : ℕ) (p : Text) (e : Entry Attrs) (ls : List (Option (Entry Attrs)))
      → (e.seq == (s + 1) % int64_mod) ≡ false
      → verify_from c s p (some e ∷ ls) ≡ err sequence_gap
  unfolding verify_from
  stops s p e ls g = rw g refl

  goes_on :
      (s : ℕ) (p : Text) (e : Entry Attrs) (ls : List (Option (Entry Attrs)))
      → (e.seq == (s + 1) % int64_mod) ≡ true
      → verify_from c s p (some e ∷ ls)
        ≡ (verify_entry c p e >>= λ _. verify_from c e.seq (hash c e) ls)
  unfolding verify_from
  goes_on s p e ls g = rw g refl

  -- One step of the loop.
  verify_cons :
      (s : ℕ) (p : Text) (e : Entry Attrs) (ls : List (Option (Entry Attrs))) {q : ℕ × Text}
      → verify_from c s p (some e ∷ ls) ≡ ok q
      → (e.seq ≡ (s + 1) % int64_mod)
        × (verify_entry c p e ≡ ok tt)
        × (verify_from c e.seq (hash c e) ls ≡ ok q)
  unfolding verify_from
  verify_cons s p e ls h = elim (Bool-cases (e.seq == (s + 1) % int64_mod)) [
    | inr g ↦ let k = stops s p e ls g in cc
    | inl g ↦
        let (u, a, b) =
          >>=-eq-ok (verify_entry c p e) (λ _. verify_from c e.seq (hash c e) ls)
            (sym (goes_on s p e ls g) ∙ h) in
        ((==_iff e.seq ((s + 1) % int64_mod)).0 g, a, b)
  ]

  pub verify_from_iff :
      (s : ℕ) (p : Text) (ls : List (Option (Entry Attrs))) (q : ℕ × Text)
      → (verify_from c s p ls ≡ ok q) ↔ Chained s p ls q
  unfolding verify_from
  verify_from_iff s p [] q = (ok_inj, λ h. ap ok h)
  verify_from_iff s p (none ∷ ls) q = (λ h. cc, elim [ ])
  verify_from_iff s p (some e ∷ ls) q = (
    λ h.
        let (a, b, r) = verify_cons s p e ls h in
        let (i, l) = (verify_entry_iff p e).0 b in
        (a, i, l, (verify_from_iff e.seq (hash c e) ls q).0 r),
    λ (a, i, l, r).
        rw ((==_iff e.seq ((s + 1) % int64_mod)).1 a, (verify_entry_iff p e).1 (i, l))
          ((verify_from_iff e.seq (hash c e) ls q).1 r),
  )

  -- A log file is accepted, up to a number and a hash, exactly if it is a chain from number 0:
  -- every line is an entry with the next number and a signature of its canonical bytes, each after
  -- number 1 names the hash of the one before.
  pub verify_log_file_iff :
      (ls : List (Option (Entry Attrs))) (q : ℕ × Text)
      → (verify_log_file c ls ≡ ok q) ↔ Chained 0 [] ls q
  unfolding verify_log_file
  verify_log_file_iff ls q = verify_from_iff 0 [] ls q

  -- The first lines of an accepted file are accepted: a log that lost its end does not show it.
  pub truncated_verifies :
      (ls ms : List (Option (Entry Attrs))) (q : ℕ × Text)
      → verify_log_file c (ls ++ ms) ≡ ok q
      → (r : ℕ × Text) × (verify_log_file c ls ≡ ok r)
  unfolding verify_log_file
  truncated_verifies ls ms q h =
      let (r, a, b) =
        >>=-eq-ok (verify_from c 0 [] ls) (λ (r : ℕ × Text). verify_from c r.0 r.1 ms)
          (sym (verify_from-++ c 0 [] ls ms) ∙ h) in
      (r, a)

  last_of :
      (s : ℕ) (p : Text) (l : Option (Entry Attrs)) (ls : List (Option (Entry Attrs)))
      (q : ℕ × Text)
      → verify_from c s p (l ∷ ls) ≡ ok q
      → (e : Entry Attrs) × (last_line c (l ∷ ls) ≡ some e) × ((e.seq, hash c e) ≡ q)
  unfolding last_line verify_from
  last_of s p none ls q h = cc
  last_of s p (some e) [] q h = (e, refl, ok_inj ((verify_cons s p e [] h).2))
  last_of s p (some e) (m ∷ ls) q h =
      last_of e.seq (hash c e) m ls q ((verify_cons s p e (m ∷ ls) h).2)

  -- A logger that starts on an accepted file takes it up where it ends, and its own file verifies.
  pub recover-Verified :
      (ls : List (Option (Entry Attrs))) (q : ℕ × Text)
      → verify_log_file c ls ≡ ok q
      → (t : Logger c) × (recover c ls ≡ some t) × (t.file ≡ ls) × Verified c t
  unfolding recover verify_log_file verify_from
  recover-Verified [] q h =
      (record { seq = 0; last_hash = []; file = []; queue = []; sent = [] }, refl, refl, refl)
  recover-Verified (l ∷ ls) q h =
      let (e, a, b) = last_of 0 [] l ls q h in
      (
        record { seq = e.seq; last_hash = hash c e; file = l ∷ ls; queue = []; sent = [] },
        rw (recover, a) refl,
        refl,
        h ∙ ap ok (sym b),
      )
