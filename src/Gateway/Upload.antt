-- ===== src/Gateway/Upload.antt =====
-- handleUpload, sanitizeFilename and saveUploadedFile of internal/gateway/gateway.go. Parsing the form
-- is a parameter; the upload directory is a map from paths to contents.
use agent_ssh.Base.{
  ℕ, zero, suc, Bool, true, false, not, ◌&&◌, ◌||◌, Option, none, some, List, [], ◌∷◌, ◌++◌, leb,
  ltb, ◌==◌, if◌then◌else◌, length, take, any,
}
use agent_ssh.Base.Files.{Files, put, is_file}
use agent_ssh.Base.Int.{ℤ, pos, ◌+ℤ◌, leb_ℤ, wrap64}
use agent_ssh.Base.Path.{base, clean, join, ext, dot, dotdot}
use agent_ssh.Base.Result.{Result, ok, err}
use agent_ssh.Base.Text.{Text, codes, text_eq, trim_space, has_prefix, to_lower}
use agent_ssh.Config.Types.{ExecutorConfig}
use agent_ssh.Executor.Filter.{upload_dir, max_upload_size}
use agent_ssh.Gateway.Types.{
  code_ok, bad_request, forbidden, file_too_large, invalid_file_name, internal_error, upload_failed,
  file_already_exists, nothing, uploaded, Response,
}
use agent_ssh.Gateway.Handlers.{respond}

within : ℕ → ℕ → ℕ → Bool
within low high c = leb low c && leb c high

-- A byte of the class [a-zA-Z0-9._-].
unfoldable pub is_name_byte : ℕ → Bool
unfolding within
is_name_byte c =
    within b'a' b'z' c
    || within b'A' b'Z' c
    || within b'0' b'9' c
    || c == b'.'
    || c == b'_'
    || c == b'-'

unfoldable pub continues : Text → Bool
unfolding within
continues [] = false
continues (c ∷ s) = within 128 191 c

-- The second byte that may follow a first byte of UTF-8, for which Go takes the whole sequence.
second_fits : ℕ → ℕ → Bool
unfolding within
second_fits c d =
    if c == 224
    then within 160 191 d
    else if c == 237
    then within 128 159 d
    else if c == 240
    then within 144 191 d
    else if c == 244
    then within 128 143 d
    else within 128 191 d

-- How many bytes of the text belong to its first rune, beside the first: 0 also for a byte that
-- begins no valid sequence, which is a rune of its own.
unfoldable pub rune_tail : ℕ → Text → ℕ
unfolding within continues second_fits
rune_tail c [] = 0
rune_tail c (d ∷ s) =
    if within 194 223 c && within 128 191 d
    then 1
    else if within 224 239 c && second_fits c d && continues s
    then 2
    else if within 240 244 c
        && second_fits c d
        && continues s
        && continues (elim s [ [] ↦ [] | _ ∷ t ↦ t ])
    then 3
    else 0

-- filenameSafeRE.ReplaceAllString with "_", behind `skip` more bytes of a replaced rune.
unfoldable pub replace_unsafe : ℕ → Text → Text
unfolding is_name_byte rune_tail
replace_unsafe skip [] = []
replace_unsafe (suc skip) (c ∷ s) = replace_unsafe skip s
replace_unsafe zero (c ∷ s) =
    let kept = replace_unsafe zero s in
    let replaced = replace_unsafe (rune_tail c s) s in
    if is_name_byte c then c ∷ kept else b'_' ∷ replaced

unfoldable pub is_no_name : Text → Bool
is_no_name s = text_eq s [] || text_eq s dot || text_eq s dotdot

pub data NameError : Type 0 where
  invalid_name invalid_after_sanitization : NameError

unfoldable pub sanitize_filename : Text → Result NameError Text
unfolding is_no_name replace_unsafe
sanitize_filename name =
    if is_no_name (base name)
    then err invalid_name
    else let safe = replace_unsafe 0 (base name) in
      if is_no_name safe then err invalid_after_sanitization else ok safe

-- An error of saveUploadedFile: one for which os.IsExist holds, or another.
pub data SaveError : Type 0 where
  exists failed : SaveError

-- How the calls go; `partial` is what a failed copy has written. OpenFile finds the temporary file by
-- itself, so that `create` is any other error of it; Rename onto a directory fails with EEXIST.
pub record SaveIo : Type 0 where
  pub create : Option SaveError
  pub copy : Bool
  pub partial : Text
  pub close : Bool
  pub rename : Option SaveError
  pub remove : Bool

unfoldable pub temp_path : Text → Text
temp_path dst = dst ++ codes ".tmp"

-- os.Remove of the temporary file, whose error is dropped.
unfoldable pub discard : SaveIo → Text → Files → Files
unfolding put
discard io tmp files = if io.remove then put tmp none files else files

-- From Rename on.
unfoldable pub rename_upload :
    SaveIo → Text → Text → Text → Files → Option SaveError → Files × Result SaveError ℕ
unfolding put discard
rename_upload io content tmp dst files (some x) =
    (discard io tmp (put tmp (some content) files), err x)
rename_upload io content tmp dst files none =
    (put dst (some content) (put tmp none (put tmp (some content) files)), ok (length content))

-- From Copy on.
unfoldable pub write_upload : SaveIo → Text → Text → Text → Files → Files × Result SaveError ℕ
unfolding put discard rename_upload
write_upload io content tmp dst files =
    if not io.copy
    then (discard io tmp (put tmp (some io.partial) files), err failed)
    else if not io.close
    then (discard io tmp (put tmp (some content) files), err failed)
    else rename_upload io content tmp dst files io.rename

unfoldable pub save_uploaded_file : SaveIo → Text → Text → Files → Files × Result SaveError ℕ
unfolding is_file write_upload
save_uploaded_file io content dst files =
    if is_file (files (temp_path dst)) then (files, err exists) else elim io.create [
      | some x ↦ (files, err x)
      | none ↦ write_upload io content (temp_path dst) dst files
    ]

-- What ParseMultipartForm and FormFile give.
pub data Form : Type 0 where
  too_large invalid missing : Form
  file : Text → Text → Form

unfoldable pub extension_allowed : List Text → Text → Bool
extension_allowed [] name = true
extension_allowed (e ∷ es) name =
    any (λ x. text_eq (to_lower (trim_space x)) (to_lower (ext name))) (e ∷ es)

unfoldable pub saved_response : Text → Text → Text → Result SaveError ℕ → Response
saved_response original saved path (ok n) = respond 200 code_ok (uploaded original saved path n)
saved_response original saved path (err exists) = respond 409 file_already_exists nothing
saved_response original saved path (err failed) = respond 500 upload_failed nothing

-- handleUpload from the name on.
unfoldable pub store_upload :
    SaveIo → (Text → Bool) → ExecutorConfig → Text → Text → Text → Text → Files → Files × Response
unfolding saved_response
store_upload io mkdir_all cfg request_id original safe content files =
    let saved = codes "upload_" ++ take 8 request_id ++ codes "_" ++ safe in
    let dir = upload_dir cfg in
    let path = join dir saved in
    if not (mkdir_all dir)
    then (files, respond 500 internal_error nothing)
    else if not (has_prefix (clean path) (clean dir ++ codes "/"))
    then (files, respond 400 invalid_file_name nothing)
    else let (files', answer) = save_uploaded_file io content path files in
      (files', saved_response original saved path answer)

-- The limit of http.MaxBytesReader for the body: MaxUploadSize, or 64 MiB, and 1 MiB of form.
unfoldable pub body_limit : ExecutorConfig → ℤ
body_limit cfg =
    let size = max_upload_size cfg in
    wrap64 ((if leb_ℤ size (pos 0) then pos 67108864 else size) +ℤ pos 1048576)

-- `none` is a panic: a request id of less than 8 bytes makes `reqID[:8]` panic.
unfoldable pub handle_upload :
    SaveIo → (Text → Bool) → ExecutorConfig → Text → Form → Files → Files × Option Response
unfolding store_upload
handle_upload io mkdir_all cfg request_id too_large files =
    (files, some (respond 413 file_too_large nothing))
handle_upload io mkdir_all cfg request_id invalid files =
    (files, some (respond 400 bad_request nothing))
handle_upload io mkdir_all cfg request_id missing files =
    (files, some (respond 400 bad_request nothing))
handle_upload io mkdir_all cfg request_id (file original content) files =
    elim (sanitize_filename original) [
      | err _ ↦ (files, some (respond 400 invalid_file_name nothing))
      | ok safe ↦
          if not (extension_allowed cfg.allowed_extensions safe)
          then (files, some (respond 403 forbidden nothing))
          else if ltb (length request_id) 8
          then (files, none)
          else let (files', answer) =
              store_upload io mkdir_all cfg request_id original safe content files in
            (files', some answer)
    ]
