-- ===== src/Base/Normal.antt =====
-- The normal form to which Clean of path/filepath, as Base/Path models it, brings the words of a path.
use Prim.Native.Nat.{ℕ}
use mathlib.Core.Path.{◌≡◌, refl, ap, ◌∙◌}
use mathlib.Core.Logic.{◌≢◌, inl, inr}
use mathlib.Core.Bool.{Bool, true, false}
use mathlib.Core.List.{List, [], ◌∷◌}
use native.Mathlib.Omega.{arith}
use agent_ssh.Base.Tests.{◌==◌, Bool-cases}
use agent_ssh.Base.Lists.{All}
use agent_ssh.Base.Text.{Text, text_eq, text_eq_iff, prepend, split}
use agent_ssh.Base.Path.{dot, dotdot, up, push_word, resolve, unwind}

-- A word between slashes that Clean keeps.
pub record IsWord (w : Text) : Type 0 where
  pub no_slash : All (λ c. c ≢ b'/') w
  pub ne_nil : w ≢ []
  pub ne_dot : w ≢ dot

abbrev pub IsSlashFree : Text → Type 0
IsSlashFree w = All (λ c. c ≢ b'/') w

prepend-IsSlashFree :
    (c : ℕ) (ws : List Text) → c ≢ b'/' → All IsSlashFree ws → All IsSlashFree (prepend c ws)
unfolding prepend
prepend-IsSlashFree c [] ne h = ((ne, tt), tt)
prepend-IsSlashFree c (w ∷ ws) ne h = ((ne, h.0), h.1)

pub split-IsSlashFree : (s : Text) → All IsSlashFree (split b'/' s)
unfolding split prepend
split-IsSlashFree [] = (tt, tt)
split-IsSlashFree (c ∷ s) = elim (Bool-cases (c == b'/')) [
  | inl e ↦ rw e (tt, split-IsSlashFree s)
  | inr e ↦ rw e (prepend-IsSlashFree c (split b'/' s) (λ q. ground arith) (split-IsSlashFree s))
]

-- A stack of words, the last one first, that Clean can be left with: ".." only at the start of a
-- path that is not rooted.
abbrev pub IsNormal : Bool → List Text → Type 0
IsNormal rooted [] = Unit
IsNormal rooted (w ∷ st) =
    IsWord w × (w ≡ dotdot → (rooted ≡ false) × All (λ x. x ≡ dotdot) st) × IsNormal rooted st

pub dotdot-IsWord : IsWord dotdot
dotdot-IsWord = record {
  no_slash = (λ h. omega arith, (λ h. omega arith, tt));
  ne_nil = λ h. cc;
  ne_dot = λ h. cc;
}

up-IsNormal : (rooted : Bool) (st : List Text) → IsNormal rooted st → IsNormal rooted (up rooted st)
unfolding up
up-IsNormal true [] h = tt
up-IsNormal false [] h = (dotdot-IsWord, λ _. (refl, tt), tt)
up-IsNormal rooted (x ∷ st) h = elim (Bool-cases (text_eq x dotdot)) [
  | inl e ↦
      let q = (text_eq_iff x dotdot).0 e in
      rw e (dotdot-IsWord, λ _. ((h.1 q).0, (q, (h.1 q).1)), h)
  | inr e ↦ rw e h.2
]

pub text_ne : {s t : Text} → text_eq s t ≡ false → s ≢ t
text_ne {s} {t} h q = ground (arith, text_eq_iff s t)

pub ne_text : (s t : Text) → s ≢ t → text_eq s t ≡ false
ne_text s t h = ground (arith, text_eq_iff s t)

push_word-IsNormal :
    (rooted : Bool) (st : List Text) (w : Text)
    → IsSlashFree w
    → IsNormal rooted st
    → IsNormal rooted (push_word rooted st w)
unfolding push_word up
push_word-IsNormal rooted st w free h = elim (Bool-cases (text_eq w [])) [
  | inl a ↦ rw a h
  | inr a ↦ elim (Bool-cases (text_eq w dot)) [
    | inl b ↦ rw (a, b) h
    | inr b ↦ elim (Bool-cases (text_eq w dotdot)) [
      | inl d ↦ rw (a, b, d) (up-IsNormal rooted st h)
      | inr d ↦
          rw (a, b, d)
            (
              record { no_slash = free; ne_nil = text_ne a; ne_dot = text_ne b },
              λ q. absurd (text_ne d q),
              h,
            )
    ]
  ]
]

pub resolve-IsNormal :
    (rooted : Bool) (st ws : List Text)
    → All IsSlashFree ws
    → IsNormal rooted st
    → IsNormal rooted (resolve rooted st ws)
unfolding resolve
resolve-IsNormal rooted st [] free h = h
resolve-IsNormal rooted st (w ∷ ws) free h =
    resolve-IsNormal rooted (push_word rooted st w) ws free.1
      (push_word-IsNormal rooted st w free.0 h)

up-normal : (st : List Text) → All (λ x. x ≡ dotdot) st → up false st ≡ dotdot ∷ st
unfolding up
up-normal [] h = refl
up-normal (x ∷ st) h = rw ((text_eq_iff x dotdot).1 h.0) refl

pub push_word-normal :
    (rooted : Bool) (st : List Text) (w : Text)
    → IsNormal rooted (w ∷ st)
    → push_word rooted st w ≡ w ∷ st
unfolding push_word up
push_word-normal rooted st w h = elim (Bool-cases (text_eq w dotdot)) [
  | inr d ↦ rw (ne_text w [] h.0.ne_nil, ne_text w dot h.0.ne_dot, d) refl
  | inl d ↦
      let q = (text_eq_iff w dotdot).0 d in
      let (r, a) = h.1 q in
      rw (ne_text w [] h.0.ne_nil, ne_text w dot h.0.ne_dot, d, r, q) (up-normal st a)
]

pub resolve-unwind :
    (rooted : Bool) (st ws : List Text)
    → IsNormal rooted st
    → resolve rooted [] (unwind st ws) ≡ resolve rooted st ws
unfolding resolve unwind
resolve-unwind rooted [] ws h = refl
resolve-unwind rooted (w ∷ st) ws h =
    resolve-unwind rooted st (w ∷ ws) h.2
    ∙ ap (λ x. resolve rooted x ws) (push_word-normal rooted st w h)
