-- ===== src/Gateway/Names.antt =====
-- What sanitizeFilename and saveUploadedFile of internal/gateway/gateway.go leave.
use agent_ssh.Base.{
  ℕ, zero, suc, Option, ◌≡◌, ◌≢◌, ◌⊎◌, inl, inr, refl, sym, ap, subst, ◌∙◌, true, false, none, some,
  [], ◌∷◌, ◌++◌, arith, All, Bool-cases, Option-cases, length,
}
use agent_ssh.Base.Files.{Files, put, is_file, put_same, put_other}
use agent_ssh.Base.Path.{base, dot, dotdot}
use agent_ssh.Base.Result.{Result, ok, err, ok_inj}
use agent_ssh.Base.Text.{Text, text_eq_iff}
use agent_ssh.Gateway.Upload.{
  is_name_byte, rune_tail, replace_unsafe, is_no_name, sanitize_filename, SaveIo, SaveError, exists,
  failed, temp_path, discard, rename_upload, write_upload, save_uploaded_file,
}

-- A byte that the class of filenameSafeRE lets through.
abbrev pub IsNameByte : ℕ → Type 0
IsNameByte c = is_name_byte c ≡ true

underscore-IsNameByte : IsNameByte b'_'
unfolding is_name_byte
underscore-IsNameByte = refl

replace_unsafe-IsNameByte : (skip : ℕ) (s : Text) → All IsNameByte (replace_unsafe skip s)
unfolding replace_unsafe
replace_unsafe-IsNameByte skip [] = tt
replace_unsafe-IsNameByte (suc skip) (c ∷ s) = replace_unsafe-IsNameByte skip s
replace_unsafe-IsNameByte zero (c ∷ s) = elim (Bool-cases (is_name_byte c)) [
  | inl h ↦ rw h (h, replace_unsafe-IsNameByte zero s)
  | inr h ↦ rw h (underscore-IsNameByte, replace_unsafe-IsNameByte (rune_tail c s) s)
]

named : (s : Text) → is_no_name s ≡ false → (s ≢ []) × (s ≢ dot) × (s ≢ dotdot)
unfolding is_no_name
named s h = ground (arith, text_eq_iff s [], text_eq_iff s dot, text_eq_iff s dotdot)

-- A name that passes has only letters, digits, ".", "_" and "-", so no separator, and is not empty,
-- "." or "..".
pub sanitize_filename_lem :
    (name safe : Text)
    → sanitize_filename name ≡ ok safe
    → All IsNameByte safe × (safe ≢ []) × (safe ≢ dot) × (safe ≢ dotdot)
unfolding sanitize_filename
sanitize_filename_lem name safe h = elim (Bool-cases (is_no_name (base name))) [
  | inl b ↦ let k = rw (b) at h in cc
  | inr b ↦ elim (Bool-cases (is_no_name (replace_unsafe 0 (base name)))) [
    | inl d ↦ let k = rw (b, d) at h in cc
    | inr d ↦
        let k = ok_inj (rw (b, d) at h) in
        let (x, y, z) = named _ d in
        subst (λ w. All IsNameByte w × (w ≢ []) × (w ≢ dot) × (w ≢ dotdot)) k
          (replace_unsafe-IsNameByte 0 (base name), x, y, z)
  ]
]

-- What saveUploadedFile leaves, by its result.
abbrev pub Saves : SaveIo → Text → Text → Files → Files → Result SaveError ℕ → Type 0
Saves io content dst files after (ok n) =
    (files (temp_path dst) ≡ none)
    × (n ≡ length content)
    × (after dst ≡ some content)
    × (after (temp_path dst) ≡ none)
    × ((p : Text) → p ≢ dst → p ≢ temp_path dst → after p ≡ files p)
Saves io content dst files after (err x) =
    ((files (temp_path dst) ≢ none) × (x ≡ exists) × (after ≡ files))
    ⊎ ((files (temp_path dst) ≡ none)
        × (io.remove ≡ true → after (temp_path dst) ≡ none)
        × ((p : Text) → p ≢ temp_path dst → after p ≡ files p))

append_longer : (s : Text) (c : ℕ) (t : Text) → (s ++ c ∷ t) ≢ s
append_longer [] c t h = cc
append_longer (x ∷ s) c t h = append_longer s c t (ap (λ l. elim l [ [] ↦ [] | _ ∷ r ↦ r ]) h)

temp_path_ne : (dst : Text) → temp_path dst ≢ dst
unfolding temp_path
temp_path_ne dst = append_longer dst _ _

discard_other :
    (io : SaveIo) (tmp p : Text) (files : Files) → p ≢ tmp → discard io tmp files p ≡ files p
unfolding discard
discard_other io tmp p files h = elim (Bool-cases io.remove) [
  | inl e ↦ rw (discard, e) (put_other tmp p none files h)
  | inr e ↦ rw (discard, e) refl
]

discard_same :
    (io : SaveIo) (tmp : Text) (files : Files) → io.remove ≡ true → discard io tmp files tmp ≡ none
unfolding discard
discard_same io tmp files e = rw (discard, e) (put_same tmp none files)

-- A save that fails after it has made the temporary file.
gives_up :
    (io : SaveIo) (content dst part : Text) (files : Files) (x : SaveError)
    → files (temp_path dst) ≡ none
    → Saves io content dst files
        (discard io (temp_path dst) (put (temp_path dst) (some part) files))
        (err x)
gives_up io content dst part files x free = inr (
  free,
  discard_same io (temp_path dst) _,
  λ p h. discard_other io (temp_path dst) p _ h ∙ put_other (temp_path dst) p (some part) files h,
)

rename_upload-Saves :
    (io : SaveIo) (content dst : Text) (files : Files) (o : Option SaveError)
    → files (temp_path dst) ≡ none
    → let (after, r) = rename_upload io content (temp_path dst) dst files o in
      Saves io content dst files after r
unfolding rename_upload
rename_upload-Saves io content dst files (some x) free =
    gives_up io content dst content files x free
rename_upload-Saves io content dst files none free =
    let tmp = temp_path dst in
    let written = put tmp (some content) files in
    let cleared = put tmp none written in
    (
      free,
      refl,
      put_same dst (some content) cleared,
      put_other dst tmp (some content) cleared (temp_path_ne dst) ∙ put_same tmp none written,
      λ p h h'.
          put_other dst p (some content) cleared h
          ∙ put_other tmp p none written h'
          ∙ put_other tmp p (some content) files h',
    )

write_upload-Saves :
    (io : SaveIo) (content dst : Text) (files : Files)
    → files (temp_path dst) ≡ none
    → let (after, r) = write_upload io content (temp_path dst) dst files in
      Saves io content dst files after r
unfolding write_upload
write_upload-Saves io content dst files free = elim (Bool-cases io.copy) [
  | inr g ↦ rw (write_upload, g) (gives_up io content dst io.partial files failed free)
  | inl g ↦ elim (Bool-cases io.close) [
    | inr k ↦ rw (write_upload, g, k) (gives_up io content dst content files failed free)
    | inl k ↦ rw (write_upload, g, k) (rename_upload-Saves io content dst files io.rename free)
  ]
]

-- A save that succeeds found no temporary file; it leaves the content under its path, no temporary
-- file, and every other file as it was. One that finds the temporary file there fails as existing and
-- changes nothing. One that fails otherwise changes at most the temporary file, which is gone again if
-- it can be removed.
pub save_uploaded_file-Saves :
    (io : SaveIo) (content dst : Text) (files : Files)
    → Saves io content dst files
        (save_uploaded_file io content dst files).0
        (save_uploaded_file io content dst files).1
unfolding save_uploaded_file is_file
save_uploaded_file-Saves io content dst files = elim (Option-cases (files (temp_path dst))) [
  | inr (x, e) ↦ rw (save_uploaded_file, e) (inl ((λ h. let k = sym e ∙ h in cc), refl, refl))
  | inl e ↦ elim (Option-cases io.create) [
    | inr (x, f) ↦ rw (save_uploaded_file, e, f) (inr (e, (λ _. e), λ p h. refl))
    | inl f ↦ rw (save_uploaded_file, e, f) (write_upload-Saves io content dst files e)
  ]
]

-- A save of which every call succeeds succeeds whenever the temporary file is not there: a file
-- that stands under the path is replaced, and no conflict is reported.
pub save_replaces :
    (io : SaveIo) (content dst : Text) (files : Files)
    → files (temp_path dst) ≡ none
    → io.create ≡ none
    → io.copy ≡ true
    → io.close ≡ true
    → io.rename ≡ none
    → ((save_uploaded_file io content dst files).1 ≡ ok (length content))
      × ((save_uploaded_file io content dst files).0 dst ≡ some content)
unfolding save_uploaded_file is_file write_upload rename_upload
save_replaces io content dst files e f g k l =
    rw (save_uploaded_file, e, f, write_upload, g, k, l, rename_upload)
      (
        refl,
        put_same dst (some content)
            (put (temp_path dst) none (put (temp_path dst) (some content) files)),
      )
