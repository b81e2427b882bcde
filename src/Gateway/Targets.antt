-- ===== src/Gateway/Targets.antt =====
-- When handleUpload of internal/gateway/gateway.go touches a file, and which.
use agent_ssh.Base.{
  ℕ, ◌≡◌, ◌≤◌, ◌<◌, ◌⊎◌, ◌↔◌, inl, inr, refl, sym, subst, Bool, true, false, none, ◌++◌, arith,
  Bool-cases, ltb, length, take,
}
use agent_ssh.Base.Files.{Files}
use agent_ssh.Base.Path.{clean, join}
use agent_ssh.Base.Result.{ok, ok_inj, Result-cases}
use agent_ssh.Base.Text.{Text, codes, has_prefix}
use agent_ssh.Config.Types.{ExecutorConfig}
use agent_ssh.Executor.Filter.{upload_dir}
use agent_ssh.Gateway.Upload.{
  sanitize_filename, extension_allowed, SaveIo, save_uploaded_file, file, store_upload,
  handle_upload,
}

abbrev pub saved_name : Text → Text → Text
saved_name request_id safe = codes "upload_" ++ take 8 request_id ++ codes "_" ++ safe

-- The upload of `original` was saved as `safe` in the upload directory.
pub record Stored (io : SaveIo) (cfg : ExecutorConfig) (request_id original content : Text)
    (files after : Files) : Type 0 where
  pub safe : Text
  pub sanitized : sanitize_filename original ≡ ok safe
  pub allowed : extension_allowed cfg.allowed_extensions safe ≡ true
  pub long_enough : 8 ≤ length request_id
  pub inside :
      has_prefix
        (clean (join (upload_dir cfg) (saved_name request_id safe)))
        (clean (upload_dir cfg) ++ codes "/")
      ≡ true
  pub saved :
      after
      ≡ (save_uploaded_file io content (join (upload_dir cfg) (saved_name request_id safe)) files).0

short_enough : (n : ℕ) → ltb n 8 ≡ false → 8 ≤ n
short_enough n h = ground arith

-- An uploaded file either leaves every file as it was, or is handed to saveUploadedFile: then its name
-- passed sanitizeFilename and the list of extensions, the request id has at least 8 bytes, and the
-- path is that of the sanitized name, which after Clean begins with the upload directory.
pub handle_upload_lem :
    (io : SaveIo) (mkdir_all : Text → Bool) (cfg : ExecutorConfig)
    (request_id original content : Text) (files : Files)
    → let after = (handle_upload io mkdir_all cfg request_id (file original content) files).0 in
      (after ≡ files) ⊎ Stored io cfg request_id original content files after
unfolding handle_upload store_upload
handle_upload_lem io mkdir_all cfg request_id original content files =
    elim (Result-cases (sanitize_filename original)) [
      | inr (x, e) ↦ inl (rw (handle_upload, e) refl)
      | inl (safe, e) ↦ elim (Bool-cases (extension_allowed cfg.allowed_extensions safe)) [
        | inr f ↦ inl (rw (handle_upload, e, f) refl)
        | inl f ↦ elim (Bool-cases (ltb (length request_id) 8)) [
          | inl g ↦ inl (rw (handle_upload, e, f, g) refl)
          | inr g ↦ elim (Bool-cases (mkdir_all (upload_dir cfg))) [
            | inr k ↦ inl (rw (handle_upload, e, f, g, store_upload, k) refl)
            | inl k ↦
                elim (Bool-cases (
                  has_prefix (clean (join (upload_dir cfg) (saved_name request_id safe)))
                    (clean (upload_dir cfg) ++ codes "/"))) [
                      | inr l ↦ inl (rw (handle_upload, e, f, g, store_upload, k, l) refl)
                      | inl l ↦ inr (record {
                        safe = safe;
                        sanitized = e;
                        allowed = f;
                        long_enough = short_enough (length request_id) g;
                        inside = l;
                        saved = rw (handle_upload, e, f, g, store_upload, k, l) refl;
                      })
                    ]
          ]
        ]
      ]
    ]

-- An uploaded file makes the handler panic exactly if its name is accepted and the request id has less
-- than 8 bytes.
pub handle_upload-panics_iff :
    (io : SaveIo) (mkdir_all : Text → Bool) (cfg : ExecutorConfig)
    (request_id original content : Text) (files : Files)
    → ((handle_upload io mkdir_all cfg request_id (file original content) files).1 ≡ none) ↔ (
        (safe : Text) × (sanitize_filename original ≡ ok safe)
        × (extension_allowed cfg.allowed_extensions safe ≡ true)
        × (length request_id < 8))
unfolding handle_upload
handle_upload-panics_iff io mkdir_all cfg request_id original content files =
    elim (Result-cases (sanitize_filename original)) [
      | inr (x, e) ↦ rw (handle_upload, e) ((λ h. cc), λ (_, q, _, _). cc)
      | inl (safe, e) ↦ elim (Bool-cases (extension_allowed cfg.allowed_extensions safe)) [
        | inr f ↦
            rw (handle_upload, e, f)
              (
                (λ h. cc),
                λ (t, q, g, _).
                    let same = ok_inj q in
                    let k =
                      subst (λ x. extension_allowed cfg.allowed_extensions x ≡ true) (sym same) g in
                    cc,
              )
        | inl f ↦ elim (Bool-cases (ltb (length request_id) 8)) [
          | inl g ↦ rw (handle_upload, e, f, g) ((λ h. (safe, refl, f, ground arith)), λ _. refl)
          | inr g ↦ rw (handle_upload, e, f, g) ((λ h. cc), λ (_, _, _, n). absurd (ground arith))
        ]
      ]
    ]
