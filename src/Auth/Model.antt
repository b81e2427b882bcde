-- ===== src/Auth/Model.antt =====
-- The token manager of internal/auth/auth.go with the token file and its temporary file. `Io` says how
-- the system calls of one operation go; the order of the calls is that of the source. Logging is
-- left out, and so is the mutex: each function is one atomic use of the state.
use agent_ssh.Base.{
  ℕ, Bool, true, false, Option, none, some, List, [], ◌∷◌, ◌==◌, not, if◌then◌else◌,
}
use agent_ssh.Base.Hex
use agent_ssh.Base.Int.{ℤ}
use agent_ssh.Base.Result.{Result, ok, err}
use agent_ssh.Base.Text.{Text, text_eq}
use agent_ssh.Config.Types.{AuthConfig}

pub record TokenFile : Type 0 where
  pub content : Text
  pub mode : ℕ

-- `announced` holds the tokens handed to OnRotate, the latest first; `manual` tells whether the
-- channel manualRotate, of capacity 1, is full.
pub record TokenManager : Type 0 where
  pub token : Text
  pub token_length : ℤ
  pub rotation_hour : ℤ
  pub on_rotate : Bool
  pub manual : Bool
  pub announced : List Text
  pub file : Option TokenFile
  pub temp : Option TokenFile

-- Of each call whether it succeeds; `random` is what rand.Read gives for token_length bytes, and
-- `partial` what a failed write leaves in the temporary file.
pub record Io : Type 0 where
  pub mkdir : Bool
  pub stat : Bool
  pub read : Bool
  pub random : Option (List ℕ)
  pub write : Bool
  pub partial : Option TokenFile
  pub rename : Bool
  pub remove : Bool
  pub chmod : Bool

pub data AuthError : Type 0 where
  mkdir_failed stat_failed read_failed generate_failed write_failed rename_failed chmod_failed :
      AuthError

abbrev pub owner_only : ℕ
owner_only = 0o600

-- New, on a disk that may hold a token file already.
unfoldable pub new : AuthConfig → Option TokenFile → TokenManager
new cfg file = record {
  token = [];
  token_length = cfg.token_length;
  rotation_hour = cfg.rotation_hour;
  on_rotate = false;
  manual = false;
  announced = [];
  file = file;
  temp = none;
}

unfoldable pub generate_token : Io → Result AuthError Text
generate_token io = elim io.random [
  | none ↦ err generate_failed
  | some bytes ↦ ok (Hex.encode bytes)
]

-- os.WriteFile gives its mode to a new file only; an old temporary file keeps its own.
unfoldable pub temp_mode : Option TokenFile → ℕ
temp_mode none = owner_only
temp_mode (some f) = f.mode

-- atomicWriteToken: the manager with the files as the calls leave them, and the error.
unfoldable pub atomic_write_token : Io → Text → TokenManager → TokenManager × Option AuthError
unfolding temp_mode
atomic_write_token io token tm =
    let written : TokenFile = record { content = token; mode = temp_mode tm.temp } in
    if not io.write
    then (record tm { temp = io.partial }, some write_failed)
    else if not io.rename
    then (record tm { temp = if io.remove then none else some written }, some rename_failed)
    else if not io.chmod
    then (record tm { file = some written; temp = none }, some chmod_failed)
    else (record tm { file = some (record written { mode = owner_only }); temp = none }, none)

unfoldable pub announce : Text → TokenManager → TokenManager
announce token tm = if tm.on_rotate then record tm { announced = token ∷ tm.announced } else tm

unfoldable pub after_write :
    Text → TokenManager × Option AuthError → TokenManager × Result AuthError Text
unfolding announce
after_write token (tm, some e) = (tm, err e)
after_write token (tm, none) = (announce token (record tm { token = token }), ok token)

unfoldable pub rotate_token : Io → TokenManager → TokenManager × Result AuthError Text
unfolding generate_token atomic_write_token after_write
rotate_token io tm = elim (generate_token io) [
  | err e ↦ (tm, err e)
  | ok token ↦ after_write token (atomic_write_token io token tm)
]

-- The second half of VerifyToken; `io.read` says whether the file, if there is one, can be read.
unfoldable pub verify_file : Io → Text → Option TokenFile → TokenManager → TokenManager × Bool
verify_file io token none tm = (tm, false)
verify_file io token (some f) tm =
    if not io.read
    then (tm, false)
    else if text_eq token f.content
    then (record tm { token = f.content }, true)
    else (tm, false)

unfoldable pub verify_token : Io → Text → TokenManager → TokenManager × Bool
verify_token io token tm =
    if text_eq token tm.token then (tm, true) else verify_file io token tm.file tm

unfoldable pub forget_result :
    TokenManager × Result AuthError Text → TokenManager × Result AuthError (Unit {0})
forget_result (tm, ok _) = (tm, ok tt)
forget_result (tm, err e) = (tm, err e)

-- InitToken where the token file exists with the content and mode of f, once the mode is right.
unfoldable pub load_token :
    Io → TokenFile → TokenManager → TokenManager × Result AuthError (Unit {0})
unfolding forget_result
load_token io f tm = if not io.read then (tm, err read_failed) else elim f.content [
  | [] ↦ forget_result (rotate_token io tm)
  | c ∷ s ↦ (record tm { token = c ∷ s }, ok tt)
]

unfoldable pub fix_mode : Io → TokenFile → TokenManager → TokenManager × Result AuthError (Unit {0})
unfolding load_token
fix_mode io f tm =
    if f.mode == owner_only
    then load_token io f tm
    else if not io.chmod
    then (tm, err chmod_failed)
    else let g : TokenFile = record f { mode = owner_only } in
      load_token io g (record tm { file = some g })

unfoldable pub init_file :
    Io → Option TokenFile → TokenManager → TokenManager × Result AuthError (Unit {0})
unfolding fix_mode
init_file io none tm = forget_result (rotate_token io tm)
init_file io (some f) tm = fix_mode io f tm

unfoldable pub init_token : Io → TokenManager → TokenManager × Result AuthError (Unit {0})
unfolding init_file
init_token io tm =
    if not io.mkdir
    then (tm, err mkdir_failed)
    else if not io.stat
    then (tm, err stat_failed)
    else init_file io tm.file tm

-- TriggerManualRotation: a send that does not wait.
unfoldable pub trigger_manual_rotation : TokenManager → TokenManager
trigger_manual_rotation tm = record tm { manual = true }

pub data Wake : Type 0 where
  timer manual_rotate done : Wake

-- One round of the select of rotationLoop: the manager, and whether the loop goes on. The case of
-- the channel is taken only if the channel holds something.
unfoldable pub rotation_round : Io → Wake → TokenManager → TokenManager × Bool
unfolding rotate_token
rotation_round io timer tm = ((rotate_token io tm).0, true)
rotation_round io manual_rotate tm =
    if tm.manual then ((rotate_token io (record tm { manual = false })).0, true) else (tm, true)
rotation_round io done tm = (tm, false)
