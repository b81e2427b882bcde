-- ===== src/Logger/Verifier.antt =====
-- VerifyEntry and VerifyLogFile of internal/logger/logger.go.
use agent_ssh.Base.{ℕ, ◌+◌, ◌%◌, Option, none, some, List, [], ◌∷◌, ltb, ◌==◌, if◌then◌else◌}
use agent_ssh.Base.Hex
use agent_ssh.Base.Int.{int64_mod}
use agent_ssh.Base.Result.{Result, ok, err, ◌>>=◌}
use agent_ssh.Base.Text.{Text, text_eq}
use agent_ssh.Logger.Entry.{Entry, Crypto, canonical_bytes, hash}

pub data VerifyError : Type 0 where
  decode_entry no_canonical decode_signature bad_signature broken_chain sequence_gap : VerifyError

unfoldable pub check_link : ℕ → Text → Text → Result VerifyError (Unit {0})
check_link seq prev expected =
    if ltb 1 seq then (if text_eq prev expected then ok tt else err broken_chain) else ok tt

module _ (c : Crypto) where
  open c use {Attrs, verify}

  -- The signature, decoded, against the canonical bytes.
  unfoldable pub check_signature : Option Text → Option Text → Result VerifyError (Unit {0})
  check_signature none sig = err no_canonical
  check_signature (some canonical) none = err decode_signature
  check_signature (some canonical) (some sig) =
      if verify canonical sig then ok tt else err bad_signature

  unfoldable pub verify_entry : Text → Entry Attrs → Result VerifyError (Unit {0})
  unfolding check_signature check_link
  verify_entry prev_hash e = do
    _ ← check_signature (canonical_bytes c e) (Hex.decode e.signature)
    check_link e.seq e.prev_hash (Hex.encode prev_hash)

  -- The loop of VerifyLogFile: the number and the hash of the last entry, at the end.
  unfoldable pub verify_from :
      ℕ → Text → List (Option (Entry Attrs)) → Result VerifyError (ℕ × Text)
  unfolding verify_entry
  verify_from seq prev [] = ok (seq, prev)
  verify_from seq prev (none ∷ ls) = err decode_entry
  verify_from seq prev (some e ∷ ls) =
      let rest = verify_from e.seq (hash c e) ls in
      if e.seq == (seq + 1) % int64_mod
      then (do _ ← verify_entry prev e; rest)
      else err sequence_gap

  unfoldable pub verify_log_file : List (Option (Entry Attrs)) → Result VerifyError (ℕ × Text)
  verify_log_file ls = verify_from 0 [] ls
