-- ===== src/Gateway/Inside.antt =====
-- handleUpload of internal/gateway/gateway.go and the files outside the upload directory.
use agent_ssh.Base.{
  ℕ, ◌≡◌, ◌≢◌, refl, sym, ap, subst, ◌∙◌, inl, inr, Bool, true, [], ◌∷◌, ◌++◌, arith, length,
  length-append,
}
use agent_ssh.Base.Files.{Files}
use agent_ssh.Base.Path.{clean, join, is_abs, dotdot}
use agent_ssh.Base.Clean.{clean-clean}
use agent_ssh.Base.Within.{Below}
use agent_ssh.Base.Beneath.{prefix-Below, beside-Below}
use agent_ssh.Base.Result.{Result, ok, err}
use agent_ssh.Base.Text.{Text, codes, split, prepend}
use agent_ssh.Config.Types.{ExecutorConfig}
use agent_ssh.Executor.Filter.{upload_dir}
use agent_ssh.Gateway.Upload.{SaveIo, SaveError, temp_path, save_uploaded_file, file, handle_upload}
use agent_ssh.Gateway.Names.{Saves, save_uploaded_file-Saves}
use agent_ssh.Gateway.Targets.{saved_name, handle_upload_lem}

-- A save leaves every file but the two it is about.
Saves-other :
    (io : SaveIo) (content dst : Text) (files after : Files) (r : Result SaveError ℕ) (q : Text)
    → Saves io content dst files after r
    → q ≢ dst
    → q ≢ temp_path dst
    → after q ≡ files q
Saves-other io content dst files after (ok n) q h a b = h.4 q a b
Saves-other io content dst files after (err x) q (inl h) a b = ap (λ f. f q) h.2
Saves-other io content dst files after (err x) q (inr h) a b = h.2 q b

join-clean : (d t : Text) → is_abs d ≡ true → clean (join d t) ≡ join d t
unfolding join is_abs
join-clean [] t h = cc
join-clean (c ∷ s) t h = clean-clean ((c ∷ s) ++ (b'/' ∷ t))

tmp_word : split b'/' (codes ".tmp") ≡ codes ".tmp" ∷ []
unfolding split prepend
tmp_word = refl

tmp-ne-dotdot : (w : Text) → w ++ codes ".tmp" ≢ dotdot
tmp-ne-dotdot w q = omega (arith, ap length q, length-append w (codes ".tmp"))

-- With an upload directory that is an absolute path, an upload changes no file but those that lie below
-- that directory, whatever its name, its content and its request id are.
pub handle_upload-inside :
    (io : SaveIo) (mkdir_all : Text → Bool) (cfg : ExecutorConfig)
    (request_id original content : Text) (files : Files) (q : Text)
    → is_abs (upload_dir cfg) ≡ true
    → (Below (clean (upload_dir cfg)) q → ⊥)
    → (handle_upload io mkdir_all cfg request_id (file original content) files).0 q ≡ files q
unfolding temp_path
handle_upload-inside io mkdir_all cfg request_id original content files q rooted out =
    elim (handle_upload_lem io mkdir_all cfg request_id original content files) [
      | inl e ↦ ap (λ f. f q) e
      | inr st ↦
          let d = upload_dir cfg in
          let p = join d (saved_name request_id st.safe) in
          let same : clean p ≡ p = join-clean d (saved_name request_id st.safe) rooted in
          let here = prefix-Below d p rooted st.inside in
          let beside = beside-Below d p rooted st.inside (codes ".tmp") tmp_word tmp-ne-dotdot in
          ap (λ f. f q) st.saved
          ∙ Saves-other io content p files (save_uploaded_file io content p files).0
              (save_uploaded_file io content p files).1 q
              (save_uploaded_file-Saves io content p files)
              (λ e. out (subst (λ x. Below (clean d) x) (same ∙ sym e) here))
              (λ e.
                out (
                  subst (λ x. Below (clean d) x) (ap (λ y. y ++ codes ".tmp") same ∙ sym e) beside))
    ]
