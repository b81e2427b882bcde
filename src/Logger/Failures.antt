-- ===== src/Logger/Failures.antt =====
-- Handle of internal/logger/logger.go when a call fails, and when two calls interleave.
use agent_ssh.Base.{
  ℕ, ◌+◌, ◌%◌, ◌≡◌, ◌≢◌, refl, ap, ◌∙◌, ◌==◌, Bool, true, false, some, [], ◌∷◌, ◌++◌, arith, inl,
  inr,
}
use agent_ssh.Base.Int.{int64_mod}
use agent_ssh.Base.Result.{ok, err, Result-cases}
use agent_ssh.Base.Text.{Text}
use agent_ssh.Logger.Entry.{Entry, Crypto, decoded}
use agent_ssh.Logger.Handler.{Record, HandleError, Logger, seal, append, handle}
use agent_ssh.Logger.Verifier.{sequence_gap, verify_from, verify_log_file}
use agent_ssh.Logger.Sealing.{seal_keeps, seal_ok}
use agent_ssh.Logger.Steps.{handled}
use agent_ssh.Logger.Chain.{Verified, Sealed-seq, verify_from-++}
use agent_ssh.Logger.Soundness.{stops}

successor_moves : (n : ℕ) → ((n + 1) % int64_mod + 1) % int64_mod ≢ (n + 1) % int64_mod
successor_moves n = omega arith

gap_test :
    (a n s : ℕ)
    → a ≡ (n + 1) % int64_mod
    → n ≡ (s + 1) % int64_mod
    → (a == (s + 1) % int64_mod) ≡ false
gap_test a n s h g = ground arith

module _ (c : Crypto) where
  open c use {Attrs, marshal, sign, verify}

  wrong_number :
      (s n : ℕ) (p : Text) (e : Entry Attrs)
      → e.seq ≡ (n + 1) % int64_mod
      → n ≡ (s + 1) % int64_mod
      → verify_from c s p (some e ∷ []) ≡ err sequence_gap
  wrong_number s n p e h g = stops c s p e [] (gap_test e.seq n s h g)

  stopped :
      (r : Record Attrs) (t : Logger c) (w : Bool) {x : HandleError}
      → (seal c r t).1 ≡ err x
      → (handle c w r t).0 ≡ (seal c r t).0
  unfolding handle
  stopped r t w h = rw (handle, h) refl

  unwritten :
      (r : Record Attrs) (t : Logger c) {e : Entry Attrs}
      → (seal c r t).1 ≡ ok e
      → (handle c false r t).0 ≡ (seal c r t).0
  unfolding handle append
  unwritten r t h = rw (handle, h, append) refl

  succeeds :
      (r : Record Attrs) (t : Logger c) {e : Entry Attrs}
      → (seal c r t).1 ≡ ok e
      → (handle c true r t).1 ≡ ok tt
  unfolding handle append
  succeeds r t h = rw (handle, h, append) refl

  only_sealed :
      (r : Record Attrs) (t : Logger c) (w : Bool) {x : HandleError}
      → (handle c w r t).1 ≡ err x
      → (handle c w r t).0 ≡ (seal c r t).0
  only_sealed r t true h = elim (Result-cases (seal c r t).1) [
    | inl (e, f) ↦ let k = succeeds r t f in cc
    | inr (x, f) ↦ stopped r t true f
  ]
  only_sealed r t false h = elim (Result-cases (seal c r t).1) [
    | inl (e, f) ↦ unwritten r t f
    | inr (x, f) ↦ stopped r t false f
  ]

  -- The number is taken and the file stays, when Handle fails.
  failed :
      (r : Record Attrs) (t : Logger c) (w : Bool) {x : HandleError}
      → (handle c w r t).1 ≡ err x
      → ((handle c w r t).0.file ≡ t.file) × ((handle c w r t).0.seq ≡ (t.seq + 1) % int64_mod)
  failed r t w h =
      let k = seal_keeps c r t in
      let s = only_sealed r t w h in (ap (λ u. u.file) s ∙ k.0, ap (λ u. u.seq) s ∙ k.1)

  -- After a Handle that failed on a verified file, the next one that returns no error writes a line
  -- at which the verifier stops.
  pub failed_handle-gap :
      (r r' : Record Attrs) (t : Logger c) (w w' : Bool) (x : HandleError)
      → Verified c t
      → (handle c w r t).1 ≡ err x
      → (handle c w' r' (handle c w r t).0).1 ≡ ok tt
      → verify_log_file c (handle c w' r' (handle c w r t).0).0.file ≡ err sequence_gap
  unfolding verify_log_file
  failed_handle-gap r r' t w w' x v h h' =
      let (f, n) = failed r t w h in
      let d = handled c r' (handle c w r t).0 w' h' in
      let e = d.entry in
      rw (d.file, f, verify_from-++ c 0 [] t.file (some (decoded c e) ∷ []), v)
        (wrong_number t.seq (handle c w r t).0.seq t.last_hash (decoded c e)
          (Sealed-seq c r' (handle c w r t).0 e d.sealed) n)

  -- Two calls on a verified file that seal in one order and write in the other leave a file at which
  -- the verifier stops.
  pub crossed_writes-gap :
      (r r' : Record Attrs) (t : Logger c) (e e' : Entry Attrs)
      → Verified c t
      → (seal c r t).1 ≡ ok e
      → (seal c r' (seal c r t).0).1 ≡ ok e'
      → let t' = (seal c r' (seal c r t).0).0 in
        verify_log_file c (append c true e (append c true e' t').0).0.file ≡ err sequence_gap
  unfolding verify_log_file append
  crossed_writes-gap r r' t e e' v h h' =
      let t1 = (seal c r t).0 in
      rw
        (
          verify_from-++ c 0 [] ((seal c r' t1).0.file ++ some (decoded c e') ∷ [])
              (some (decoded c e) ∷ []),
          (seal_keeps c r' t1).0,
          (seal_keeps c r t).0,
          verify_from-++ c 0 [] t.file (some (decoded c e') ∷ []),
          v,
          wrong_number t.seq t1.seq t.last_hash (decoded c e')
              (Sealed-seq c r' t1 e' (seal_ok c r' t1 e' h')) (seal_keeps c r t).1,
        )
        refl
