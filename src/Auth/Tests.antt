-- ===== src/Auth/Tests.antt =====
-- Runs of the model of internal/auth/auth.go at concrete inputs.
use agent_ssh.Base.{◌≡◌, refl, true, false, none, some, List, [], ◌∷◌, ◌++◌, OneOf}
use agent_ssh.Base.Hex
use agent_ssh.Base.Int.{pos}
use agent_ssh.Base.Result.{ok}
use agent_ssh.Base.Text.{codes, text_eq}
use agent_ssh.Auth.Model.{
  TokenManager, TokenFile, Io, generate_token, atomic_write_token, after_write, announce,
  rotate_token, verify_token, verify_file, trigger_manual_rotation, manual_rotate, rotation_round,
  init_token, init_file, fix_mode, load_token,
}
use agent_ssh.Auth.Rotation.{Rotates, Draws, rotate_token-Rotates, init_token-Starts}
use agent_ssh.Auth.Verify.{Verifies, verify_token-Verifies}
use agent_ssh.Auth.History.{
  Event, rotates, verifies, triggers, wakes, intrudes, step, run, drawn, placed, run-accepts,
}

-- Every call succeeds, and two bytes are drawn.
abbrev fine : Io
fine = record {
  mkdir = true;
  stat = true;
  read = true;
  random = some (1 ∷ 255 ∷ []);
  write = true;
  partial = none;
  rename = true;
  remove = true;
  chmod = true;
}

-- A token on disk that all may read.
abbrev open_file : TokenFile
open_file = record { content = codes "abcd"; mode = 0o644 }

abbrev old : TokenManager
old = record {
  token = codes "abcd";
  token_length = pos 2;
  rotation_hour = pos 0;
  on_rotate = true;
  manual = false;
  announced = [];
  file = some open_file;
  temp = none;
}

rotate_token-Rotates_example :
    Rotates (generate_token fine) old (rotate_token fine old).0 (rotate_token fine old).1
rotate_token-Rotates_example = rotate_token-Rotates fine old

fine-Draws : Draws fine
fine-Draws = λ bs h e. cc

starts : (init_token fine old).1 ≡ ok tt
unfolding init_token init_file fix_mode load_token
starts = refl

verify_token-Verifies_example :
    Verifies fine
      (codes "abcd")
      old
      (verify_token fine (codes "abcd") old).0
      (verify_token fine (codes "abcd") old).1
verify_token-Verifies_example = verify_token-Verifies fine (codes "abcd") old

-- A token of the start is accepted, a rotation draws a second one, the loop draws a third, and another
-- program puts a fourth into the file.
abbrev happens : List Event
happens =
    verifies fine (codes "abcd")
    ∷ rotates fine
    ∷ triggers
    ∷ wakes (record fine { random = some (2 ∷ []) }) manual_rotate
    ∷ intrudes (some (record open_file { content = codes "f0" })) none
    ∷ []

fourth_is_accepted : (verify_token fine (codes "f0") (run (init_token fine old).0 happens)).1 ≡ true
unfolding run step init_token init_file fix_mode load_token verify_token verify_file rotate_token
    generate_token atomic_write_token after_write announce rotation_round trigger_manual_rotation
    Hex.encode text_eq
fourth_is_accepted = refl

run-accepts_example :
    OneOf (codes "f0") ((init_token fine old).0.token ∷ drawn happens ++ placed happens)
run-accepts_example =
    run-accepts (init_token fine old).0 happens fine (codes "f0")
      (init_token-Starts fine old fine-Draws starts) fourth_is_accepted

-- The token in memory is accepted although its file is gone.
accepted_without_file :
    (verify_token fine (codes "abcd") (run (init_token fine old).0 (intrudes none none ∷ []))).1
    ≡ true
unfolding run step init_token init_file fix_mode load_token verify_token text_eq
accepted_without_file = refl
