-- ===== src/Logger/Tests.antt =====
-- Runs of the models of internal/logger/logger.go and internal/logentry/entry.go with a toy
-- cryptography: digest and signature are the length of what they are taken of.
use agent_ssh.Base.{
  ◌+◌, ◌%◌, ◌≡◌, refl, subst, true, false, Option, some, List, [], ◌∷◌, ◌++◌, arith, All, length,
  ◌↔◌,
}
use agent_ssh.Base.Hex
use agent_ssh.Base.Hex.{IsByte}
use agent_ssh.Base.Result.{ok, err}
use agent_ssh.Base.Text.{Text, codes, text_eq, text_eq_refl}
use agent_ssh.Logger.Entry.{Entry, Crypto, canonical_bytes, hash, decoded}
use agent_ssh.Logger.Handler.{
  Record, write_failed, Logger, next_body, sign_body, seal, append, enqueue, handle,
}
use agent_ssh.Logger.Verifier.{
  sequence_gap, check_link, check_signature, verify_entry, verify_from, verify_log_file,
}
use agent_ssh.Logger.Chain.{Sound, Verified, handle-Verified}
use agent_ssh.Logger.Soundness.{Chained, verify_log_file_iff}
use mathlib.Core.List.Sublistᴰ.{slnil}
use agent_ssh.Logger.Lifecycle.{Event, handled, dispatched, run}
use agent_ssh.Logger.Replica.{Replicates, run-Replicates}
use agent_ssh.Logger.Numbers.{tally, uses, Numbered, taken, Reaches-Numbered}
use agent_ssh.Logger.Interleaved.{Reaches, State, seals, stays, goes_on, Safe, Reaches-Safe}
use agent_ssh.Logger.Failures.{failed_handle-gap, crossed_writes-gap}

abbrev digest : Text → Text
digest t = length t % 256 ∷ []

abbrev toy : Crypto
toy = record {
  Attrs = Unit {0};
  marshal = λ b. some (b.message ++ b.prev_hash);
  reread = λ a. a;
  sha256 = digest;
  sign = λ d. some (digest d);
  verify = λ d s. text_eq (digest d) s;
  algorithm = codes "toy";
}

same : (d s : Text) → some (digest d) ≡ some s → digest d ≡ s
same d s h = cc

toy_verifies : (d s : Text) → some (digest d) ≡ some s → text_eq (digest d) s ≡ true
toy_verifies d s h = subst (λ x. text_eq (digest d) x ≡ true) (same d s h) (text_eq_refl (digest d))

toy_bytes : (d s : Text) → some (digest d) ≡ some s → All IsByte s
toy_bytes d s h = subst (λ x. All IsByte x) (same d s h) (omega arith, tt)

toy-Sound : Sound toy
unfolding decoded
toy-Sound = record {
  reread_marshal = λ e. refl;
  sign_verify = toy_verifies;
  sign_bytes = toy_bytes;
}

abbrev said : Text → Record (Unit {0})
said m = record { time = 7; level = codes "INFO"; message = m; attrs = tt }

abbrev empty : Logger toy
empty = record { seq = 0; last_hash = []; file = []; queue = []; sent = [] }

empty-Verified : Verified toy empty
unfolding verify_log_file verify_from
empty-Verified = refl

first_works : (handle toy true (said (codes "up")) empty).1 ≡ ok tt
unfolding handle seal next_body sign_body append enqueue
first_works = refl

handle-Verified_example : Verified toy (handle toy true (said (codes "up")) empty).0
handle-Verified_example =
    handle-Verified toy toy-Sound true (said (codes "up")) empty empty-Verified first_works

abbrev first : Entry (Unit {0})
first = record {
  body = record {
    seq = 1;
    timestamp = 7;
    level = codes "INFO";
    message = codes "up";
    attrs = tt;
    prev_hash = [];
    algo = codes "toy";
  };
  signature = codes "02";
}

abbrev second : Entry (Unit {0})
second = record {
  body = record {
    seq = 2;
    timestamp = 7;
    level = codes "INFO";
    message = codes "on";
    attrs = tt;
    prev_hash = codes "04";
    algo = codes "toy";
  };
  signature = codes "04";
}

abbrev two_lines : List (Option (Entry (Unit {0})))
two_lines = some first ∷ some second ∷ []

two_lines_verify : verify_log_file toy two_lines ≡ ok (2, 6 ∷ [])
unfolding verify_log_file verify_from verify_entry check_signature check_link canonical_bytes hash
    Hex.decode Hex.encode text_eq
two_lines_verify = refl

verify_log_file_iff_example :
    (verify_log_file toy two_lines ≡ ok (2, 6 ∷ [])) ↔ Chained toy 0 [] two_lines (2, 6 ∷ [])
verify_log_file_iff_example = verify_log_file_iff toy two_lines (2, 6 ∷ [])

-- The disk is full at the first call.
first_fails : (handle toy false (said (codes "up")) empty).1 ≡ err write_failed
unfolding handle seal next_body sign_body append
first_fails = refl

second_works :
    (handle toy true (said (codes "on")) (handle toy false (said (codes "up")) empty).0).1 ≡ ok tt
unfolding handle seal next_body sign_body append enqueue hash canonical_bytes Hex.encode
second_works = refl

failed_handle-gap_example :
    verify_log_file toy
      (handle toy true (said (codes "on")) (handle toy false (said (codes "up")) empty).0).0.file
    ≡ err sequence_gap
failed_handle-gap_example =
    failed_handle-gap toy (said (codes "up")) (said (codes "on")) empty false true write_failed
      empty-Verified first_fails second_works

first_sealed : (seal toy (said (codes "up")) empty).1 ≡ ok first
unfolding seal next_body sign_body Hex.encode
first_sealed = refl

second_sealed : (seal toy (said (codes "on")) (seal toy (said (codes "up")) empty).0).1 ≡ ok second
unfolding seal next_body sign_body Hex.encode hash canonical_bytes
second_sealed = refl

crossed_writes-gap_example :
    let t' = (seal toy (said (codes "on")) (seal toy (said (codes "up")) empty).0).0 in
    verify_log_file toy (append toy true first (append toy true second t').0).0.file
    ≡ err sequence_gap
crossed_writes-gap_example =
    crossed_writes-gap toy (said (codes "up")) (said (codes "on")) empty first second empty-Verified
      first_sealed second_sealed

empty-Replicates : Replicates toy empty
empty-Replicates = record { ordered = slnil; bounded = omega arith }

abbrev said_twice : List (Event toy)
said_twice = handled true (said (codes "up")) ∷ dispatched ∷ handled false (said (codes "on")) ∷ []

run-Replicates_example : Replicates toy (run toy said_twice empty)
run-Replicates_example = run-Replicates toy said_twice empty empty-Replicates

abbrev waiting : Logger toy
waiting = record {
  seq = 2;
  last_hash = 6 ∷ [];
  file = two_lines;
  queue = first ∷ second ∷ [];
  sent = [];
}

abbrev idle : State toy
idle = record { logger = empty; sealed = []; written = [] }

seals_first : (seal toy (said (codes "up")) empty).1 ≡ ok first
unfolding seal next_body sign_body hash Hex.encode
seals_first = refl

abbrev one_sealed : State toy
one_sealed = record {
  logger = (seal toy (said (codes "up")) empty).0;
  sealed = first ∷ [];
  written = [];
}

Reaches-Safe_example : Safe toy one_sealed
Reaches-Safe_example =
    Reaches-Safe toy idle one_sealed
      (goes_on idle idle one_sealed (stays idle) (seals idle (said (codes "up")) first seals_first))
      (record { sent = tt; pending = tt; bounded = omega arith })

idle-Numbered : Numbered toy idle
unfolding uses tally
idle-Numbered = record { once = λ n. omega arith; above = λ n big. omega arith }

abbrev sealing : Reaches toy idle one_sealed
sealing =
    goes_on idle idle one_sealed (stays idle) (seals idle (said (codes "up")) first seals_first)

Reaches-Numbered_example :
    Numbered toy one_sealed × (one_sealed.logger.seq ≡ 0 + taken toy idle one_sealed sealing)
Reaches-Numbered_example = Reaches-Numbered toy idle one_sealed sealing (omega arith) idle-Numbered
