-- ===== src/Auth/Rotation.antt =====
-- RotateToken and InitToken of internal/auth/auth.go: what they leave in memory and on disk.
use agent_ssh.Base.{
  ℕ, ◌≡◌, ◌≢◌, refl, sym, ap, subst, ◌∙◌, ◌==◌, ==_iff, Option, none, some, List, [], ◌∷◌, arith,
  if◌then◌else◌, Bool-cases, Option-cases, inl, inr,
}
use agent_ssh.Base.Hex
use agent_ssh.Base.Hex.{length-encode}
use agent_ssh.Base.Result.{Result, ok, err, ok_inj}
use agent_ssh.Base.Text.{Text}
use agent_ssh.Auth.Model.{
  TokenFile, TokenManager, Io, AuthError, chmod_failed, owner_only, generate_token,
  atomic_write_token, after_write, announce, rotate_token, forget_result, load_token, fix_mode,
  init_file, init_token,
}

-- Memory, disk and the announcement agree on one token, which only its owner can read.
pub record InStep (t : Text) (tm : TokenManager) : Type 0 where
  pub memory : tm.token ≡ t
  pub disk : tm.file ≡ some (record { content = t; mode = owner_only })

abbrev pub content_of : Option TokenFile → Option Text
content_of none = none
content_of (some f) = some f.content

-- What a write of the token t may do to the manager, by its result.
abbrev Writes : Text → TokenManager → TokenManager → Option AuthError → Type 0
Writes t tm after none =
    (after.file ≡ some (record { content = t; mode = owner_only }))
    × (after.temp ≡ none)
    × (after.token ≡ tm.token)
    × (after.announced ≡ tm.announced)
    × (after.on_rotate ≡ tm.on_rotate)
Writes t tm after (some chmod_failed) =
    (after.token ≡ tm.token) × (after.announced ≡ tm.announced) × (content_of after.file ≡ some t)
Writes t tm after (some e) =
    (after.token ≡ tm.token) × (after.announced ≡ tm.announced) × (after.file ≡ tm.file)

atomic_write_token-Writes :
    (io : Io) (t : Text) (tm : TokenManager)
    → Writes t tm (atomic_write_token io t tm).0 (atomic_write_token io t tm).1
unfolding atomic_write_token
atomic_write_token-Writes io t tm = elim (Bool-cases io.write) [
  | inr e ↦ rw (e, atomic_write_token) (refl, refl, refl)
  | inl e ↦ elim (Bool-cases io.rename) [
    | inr f ↦ rw (e, f, atomic_write_token) (refl, refl, refl)
    | inl f ↦ elim (Bool-cases io.chmod) [
      | inr g ↦ rw (e, f, g, atomic_write_token) (refl, refl, refl)
      | inl g ↦ rw (e, f, g, atomic_write_token) (refl, refl, refl, refl, refl)
    ]
  ]
]

-- What RotateToken may do to the manager, by the token that was drawn and by its result.
abbrev pub Rotates :
    Result AuthError Text → TokenManager → TokenManager → Result AuthError Text → Type 0
Rotates drawn tm after (ok t) =
    (drawn ≡ ok t)
    × InStep t after
    × (after.temp ≡ none)
    × (after.announced ≡ (if tm.on_rotate then t ∷ tm.announced else tm.announced))
Rotates drawn tm after (err chmod_failed) =
    (after.token ≡ tm.token)
    × (after.announced ≡ tm.announced)
    × (t : Text) × (drawn ≡ ok t)
    × (content_of after.file ≡ some t)
Rotates drawn tm after (err e) =
    (after.token ≡ tm.token) × (after.announced ≡ tm.announced) × (after.file ≡ tm.file)

after_write-Rotates :
    (t : Text) (tm u : TokenManager) (e : Option AuthError)
    → Writes t tm u e
    → Rotates (ok t) tm (after_write t (u, e)).0 (after_write t (u, e)).1
unfolding after_write announce
after_write-Rotates t tm u none w = ground arith
after_write-Rotates t tm u (some chmod_failed) w = (w.0, w.1, t, refl, w.2)
after_write-Rotates t tm u (some e) w = w

-- A rotation that succeeds puts the token drawn into memory and, for its owner only, into the file,
-- and announces it if there is a callback. One that fails leaves the token in memory, announces
-- nothing and leaves the file, unless it is the last chmod that failed: then the file already holds
-- the new token.
pub rotate_token-Rotates :
    (io : Io) (tm : TokenManager)
    → Rotates (generate_token io) tm (rotate_token io tm).0 (rotate_token io tm).1
unfolding rotate_token
rotate_token-Rotates io tm = elim (Option-cases io.random) [
  | inl e ↦ rw (e, rotate_token, generate_token) (refl, refl, refl)
  | inr (bs, e) ↦
      rw (e, rotate_token, generate_token)
        (after_write-Rotates (Hex.encode bs) tm _ _
          (atomic_write_token-Writes io (Hex.encode bs) tm))
]

encode-nonempty : (bs : List ℕ) → bs ≢ [] → Hex.encode bs ≢ []
unfolding Hex.encode
encode-nonempty [] h = h
encode-nonempty (b ∷ bs) h = λ e. cc

-- rand.Read fills a buffer of token_length bytes, which is not empty.
abbrev pub Draws : Io → Type 0
Draws io = (bs : List ℕ) → io.random ≡ some bs → bs ≢ []

drawn-nonempty : (io : Io) (t : Text) → Draws io → generate_token io ≡ ok t → t ≢ []
unfolding generate_token
drawn-nonempty io t real drawn = elim (Option-cases io.random) [
  | inl e ↦ let h = rw (e, generate_token) at drawn in absurd (ground arith)
  | inr (bs, e) ↦
      subst (λ x. x ≢ []) (ok_inj (rw (e, generate_token) at drawn))
        (encode-nonempty bs (real bs e))
]

-- What InitToken promises when it succeeds: a token that is not empty, the same in memory and on
-- disk, where only its owner can read it.
abbrev pub Starts : TokenManager → Type 0
Starts tm = InStep tm.token tm × (tm.token ≢ [])

Rotates-Starts :
    (io : Io) (tm u : TokenManager) (r : Result AuthError Text)
    → Draws io
    → Rotates (generate_token io) tm u r
    → (forget_result (u, r)).1 ≡ ok tt
    → Starts (forget_result (u, r)).0
unfolding forget_result
Rotates-Starts io tm u (ok t) real w h = (
  record {
    memory = refl;
    disk =
        subst (λ x. u.file ≡ some (record { content = x; mode = owner_only })) (sym w.1.memory)
          w.1.disk;
  },
  subst (λ x. x ≢ []) (sym w.1.memory) (drawn-nonempty io t real w.0),
)
Rotates-Starts io tm u (err e) real w h = absurd (ground arith)

rotation-Starts :
    (io : Io) (tm : TokenManager)
    → Draws io
    → (forget_result (rotate_token io tm)).1 ≡ ok tt
    → Starts (forget_result (rotate_token io tm)).0
rotation-Starts io tm real h =
    Rotates-Starts io tm _ (rotate_token io tm).1 real (rotate_token-Rotates io tm) h

load_token-Starts :
    (io : Io) (content : Text) (tm : TokenManager)
    → let f : TokenFile = record { content = content; mode = owner_only } in
      Draws io → tm.file ≡ some f → (load_token io f tm).1 ≡ ok tt → Starts (load_token io f tm).0
unfolding load_token
load_token-Starts io [] tm real at h = elim (Bool-cases io.read) [
  | inr e ↦ let g = rw (e, load_token) at h in absurd (ground arith)
  | inl e ↦ simp (e, load_token) (rotation-Starts io tm real (simp (e, load_token) at h))
]
load_token-Starts io (c ∷ s) tm real at h = elim (Bool-cases io.read) [
  | inr e ↦ let g = rw (e, load_token) at h in absurd (ground arith)
  | inl e ↦ rw (e, load_token) (record { memory = refl; disk = at }, λ x. cc)
]

fix_mode-Starts :
    (io : Io) (f : TokenFile) (tm : TokenManager)
    → Draws io
    → tm.file ≡ some f
    → (fix_mode io f tm).1 ≡ ok tt
    → Starts (fix_mode io f tm).0
unfolding fix_mode
fix_mode-Starts io f tm real at h = elim (Bool-cases (f.mode == owner_only)) [
  | inl e ↦
      let same : f ≡ record { content = f.content; mode = owner_only } =
        λ i. record { content = f.content; mode = (==_iff f.mode owner_only).0 e i } in
      rw (e, fix_mode)
        (subst (λ x. (load_token io x tm).1 ≡ ok tt → Starts (load_token io x tm).0) (sym same)
          (load_token-Starts io f.content tm real (at ∙ ap some same)) (rw (e, fix_mode) at h))
  | inr e ↦ elim (Bool-cases io.chmod) [
    | inr g ↦ let k = rw (e, g, fix_mode) at h in absurd (ground arith)
    | inl g ↦
        rw (e, g, fix_mode)
          (load_token-Starts io f.content
            (record tm { file = some (record f { mode = owner_only }) }) real refl
            (rw (e, g, fix_mode) at h))
  ]
]

init_file-Starts :
    (io : Io) (o : Option TokenFile) (tm : TokenManager)
    → Draws io
    → tm.file ≡ o
    → (init_file io o tm).1 ≡ ok tt
    → Starts (init_file io o tm).0
unfolding init_file
init_file-Starts io none tm real at h = rotation-Starts io tm real h
init_file-Starts io (some f) tm real at h = fix_mode-Starts io f tm real at h

-- When InitToken succeeds, memory and disk hold the same token, which is not empty, and the file is
-- for its owner only, whatever mode and content it had before.
pub init_token-Starts :
    (io : Io) (tm : TokenManager)
    → Draws io
    → (init_token io tm).1 ≡ ok tt
    → Starts (init_token io tm).0
unfolding init_token
init_token-Starts io tm real h = elim (Bool-cases io.mkdir) [
  | inr e ↦ let k = rw (e, init_token) at h in absurd (ground arith)
  | inl e ↦ elim (Bool-cases io.stat) [
    | inr g ↦ let k = rw (e, g, init_token) at h in absurd (ground arith)
    | inl g ↦
        simp (e, g, init_token)
          (init_file-Starts io tm.file tm real refl (simp (e, g, init_token) at h))
  ]
]
