-- ===== src/Auth/History.antt =====
-- Any sequence of calls on the token manager of internal/auth/auth.go: rotations, requests with a
-- token, triggers, rounds of rotationLoop, and changes that other programs make to its files.
use agent_ssh.Base.{
  ◌≡◌, refl, sym, ap, subst, ◌∙◌, inl, inr, true, false, Option, none, some, List, [], ◌∷◌, ◌++◌,
  All, OneOf, All-split, All-OneOf, Bool-cases,
}
use agent_ssh.Base.Result.{Result, ok, err}
use agent_ssh.Base.Text.{Text}
use agent_ssh.Auth.Model.{
  TokenFile, TokenManager, Io, AuthError, mkdir_failed, stat_failed, read_failed, generate_failed,
  write_failed, rename_failed, chmod_failed, generate_token, rotate_token, verify_token,
  trigger_manual_rotation, Wake, timer, manual_rotate, done, rotation_round,
}
use agent_ssh.Auth.Rotation.{Starts, Rotates, content_of, rotate_token-Rotates}
use agent_ssh.Auth.Verify.{verify_token-Verifies}

pub data Event : Type 0 where
  rotates : Io → Event
  verifies : Io → Text → Event
  triggers : Event
  wakes : Io → Wake → Event
  intrudes : Option TokenFile → Option TokenFile → Event

unfoldable pub step : TokenManager → Event → TokenManager
step tm (rotates io) = (rotate_token io tm).0
step tm (verifies io token) = (verify_token io token tm).0
step tm triggers = trigger_manual_rotation tm
step tm (wakes io w) = (rotation_round io w tm).0
step tm (intrudes file temp) = record tm { file = file; temp = temp }

unfoldable pub run : TokenManager → List Event → TokenManager
unfolding step
run tm [] = tm
run tm (e ∷ es) = run (step tm e) es

abbrev pub token_of : Result AuthError Text → List Text
token_of (ok t) = t ∷ []
token_of (err x) = []

-- The tokens that are drawn at random.
unfoldable pub drawn : List Event → List Text
drawn [] = []
drawn (rotates io ∷ es) = token_of (generate_token io) ++ drawn es
drawn (wakes io w ∷ es) = token_of (generate_token io) ++ drawn es
drawn (verifies io token ∷ es) = drawn es
drawn (triggers ∷ es) = drawn es
drawn (intrudes file temp ∷ es) = drawn es

unfoldable pub contents : Option TokenFile → List Text
contents none = []
contents (some f) = f.content ∷ []

-- The contents that other programs put into the token file, such as a rotation from outside.
unfoldable pub placed : List Event → List Text
unfolding contents
placed [] = []
placed (intrudes file temp ∷ es) = contents file ++ placed es
placed (rotates io ∷ es) = placed es
placed (wakes io w ∷ es) = placed es
placed (verifies io token ∷ es) = placed es
placed (triggers ∷ es) = placed es

-- Memory and file hold tokens of the list.
pub record Known (tokens : List Text) (tm : TokenManager) : Type 0 where
  pub memory : OneOf tm.token tokens
  pub disk : (t : Text) → content_of tm.file ≡ some t → OneOf t tokens

pub some_text : {s t : Text} → ◌≡◌ {A = Option Text} (some s) (some t) → s ≡ t
some_text h = cc

unchanged-Known :
    (tokens : List Text) (tm after : TokenManager)
    → after.token ≡ tm.token
    → after.file ≡ tm.file
    → Known tokens tm
    → Known tokens after
unchanged-Known tokens tm after m f h = record {
  memory = subst (λ x. OneOf x tokens) (sym m) h.memory;
  disk = λ t e. h.disk t (ap content_of (sym f) ∙ e);
}

Rotates-Known :
    (tokens : List Text) (new : Result AuthError Text) (tm after : TokenManager)
    (r : Result AuthError Text)
    → Rotates new tm after r
    → All (λ t. OneOf t tokens) (token_of new)
    → Known tokens tm
    → Known tokens after
Rotates-Known tokens new tm after (ok t) w a h =
    let here = (subst (λ x. All (λ u. OneOf u tokens) (token_of x)) w.0 a).0 in
    record {
      memory = subst (λ x. OneOf x tokens) (sym w.1.memory) here;
      disk = λ u e. subst (λ x. OneOf x tokens) (some_text (sym (ap content_of w.1.disk) ∙ e)) here;
    }
Rotates-Known tokens new tm after (err chmod_failed) w a h =
    let here = (subst (λ x. All (λ u. OneOf u tokens) (token_of x)) w.3 a).0 in
    record {
      memory = subst (λ x. OneOf x tokens) (sym w.0) h.memory;
      disk = λ u e. subst (λ x. OneOf x tokens) (some_text (sym w.4 ∙ e)) here;
    }
Rotates-Known tokens new tm after (err mkdir_failed) w a h =
    unchanged-Known tokens tm after w.0 w.2 h
Rotates-Known tokens new tm after (err stat_failed) w a h =
    unchanged-Known tokens tm after w.0 w.2 h
Rotates-Known tokens new tm after (err read_failed) w a h =
    unchanged-Known tokens tm after w.0 w.2 h
Rotates-Known tokens new tm after (err generate_failed) w a h =
    unchanged-Known tokens tm after w.0 w.2 h
Rotates-Known tokens new tm after (err write_failed) w a h =
    unchanged-Known tokens tm after w.0 w.2 h
Rotates-Known tokens new tm after (err rename_failed) w a h =
    unchanged-Known tokens tm after w.0 w.2 h

rotate_token-Known :
    (tokens : List Text) (io : Io) (tm : TokenManager)
    → All (λ t. OneOf t tokens) (token_of (generate_token io))
    → Known tokens tm
    → Known tokens (rotate_token io tm).0
rotate_token-Known tokens io tm a h =
    Rotates-Known tokens (generate_token io) tm (rotate_token io tm).0 (rotate_token io tm).1
      (rotate_token-Rotates io tm) a h

pub verify_token-Known :
    (tokens : List Text) (io : Io) (token : Text) (tm : TokenManager)
    → Known tokens tm
    → Known tokens (verify_token io token tm).0
verify_token-Known tokens io token tm h =
    let v = verify_token-Verifies io token tm in
    elim (Bool-cases (verify_token io token tm).1) [
      | inr e ↦ subst (Known tokens) (sym (v.refused e)) h
      | inl e ↦ record {
        memory = elim (v.exactly.0 e) [
          | inl same ↦ subst (λ x. OneOf x tokens) (sym (v.refreshed e ∙ same)) h.memory
          | inr there ↦ subst (λ x. OneOf x tokens) (sym (v.refreshed e)) (h.disk token there.1)
        ];
        disk = λ t q. h.disk t (ap content_of (sym v.disk) ∙ q);
      }
    ]

pub round-Known :
    (tokens : List Text) (io : Io) (w : Wake) (tm : TokenManager)
    → All (λ t. OneOf t tokens) (token_of (generate_token io))
    → Known tokens tm
    → Known tokens (rotation_round io w tm).0
unfolding rotation_round
round-Known tokens io timer tm a h = rotate_token-Known tokens io tm a h
round-Known tokens io manual_rotate tm a h = elim (Bool-cases tm.manual) [
  | inl e ↦
      simp (rotation_round, e)
        (rotate_token-Known tokens io (record tm { manual = false }) a
          (record { memory = h.memory; disk = h.disk }))
  | inr e ↦ simp (rotation_round, e) h
]
round-Known tokens io done tm a h = h

pub intrudes-Known :
    (tokens : List Text) (file temp : Option TokenFile) (tm : TokenManager)
    → All (λ t. OneOf t tokens) (contents file)
    → Known tokens tm
    → Known tokens (record tm { file = file; temp = temp })
unfolding contents
intrudes-Known tokens none temp tm a h = record { memory = h.memory; disk = λ t e. absurd (cc) }
intrudes-Known tokens (some f) temp tm a h = record {
  memory = h.memory;
  disk = λ t e. subst (λ x. OneOf x tokens) (some_text e) a.0;
}

run-Known :
    (tokens : List Text) (es : List Event) (tm : TokenManager)
    → All (λ t. OneOf t tokens) (drawn es)
    → All (λ t. OneOf t tokens) (placed es)
    → Known tokens tm
    → Known tokens (run tm es)
unfolding run step drawn placed trigger_manual_rotation
run-Known tokens [] tm a p h = h
run-Known tokens (rotates io ∷ es) tm a p h =
    let (x, y) = All-split (λ t. OneOf t tokens) (token_of (generate_token io)) (drawn es) a in
    run-Known tokens es (rotate_token io tm).0 y p (rotate_token-Known tokens io tm x h)
run-Known tokens (wakes io w ∷ es) tm a p h =
    let (x, y) = All-split (λ t. OneOf t tokens) (token_of (generate_token io)) (drawn es) a in
    run-Known tokens es (rotation_round io w tm).0 y p (round-Known tokens io w tm x h)
run-Known tokens (verifies io token ∷ es) tm a p h =
    run-Known tokens es (verify_token io token tm).0 a p (verify_token-Known tokens io token tm h)
run-Known tokens (triggers ∷ es) tm a p h =
    run-Known tokens es (trigger_manual_rotation tm) a p
      (record { memory = h.memory; disk = h.disk })
run-Known tokens (intrudes file temp ∷ es) tm a p h =
    let (x, y) = All-split (λ t. OneOf t tokens) (contents file) (placed es) p in
    run-Known tokens es (record tm { file = file; temp = temp }) a y
      (intrudes-Known tokens file temp tm x h)

-- From a start that succeeded on, after any rotations, requests, triggers and rounds of the loop,
-- of which every system call may fail, and any changes that other programs make to the token file, the
-- only tokens that are accepted are the first one, those that were drawn at random since, and those
-- that another program has put into the token file since.
pub run-accepts :
    (tm : TokenManager) (es : List Event) (io : Io) (x : Text)
    → Starts tm
    → (verify_token io x (run tm es)).1 ≡ true
    → OneOf x (tm.token ∷ drawn es ++ placed es)
run-accepts tm es io x started accepted =
    let tokens = tm.token ∷ drawn es ++ placed es in
    let first : Known tokens tm = record {
      memory = inl refl;
      disk = λ t e. inl (some_text (sym e ∙ ap content_of started.0.disk));
    } in
    let (a, p) = All-split (λ t. OneOf t tokens) (drawn es) (placed es) (All-OneOf tokens).1 in
    let known = run-Known tokens es tm a p first in
    elim ((verify_token-Verifies io x (run tm es)).exactly.0 accepted) [
      | inl same ↦ subst (λ y. OneOf y tokens) (sym same) known.memory
      | inr there ↦ known.disk x there.1
    ]
