-- ===== src/Base/Within.antt =====
-- Rel of path/filepath, as Base/Path models it, between clean paths: when its result does not lead out
-- of the base.
use mathlib.Core.Path.{◌≡◌, refl, sym, ap, subst, ◌∙◌}
use mathlib.Core.Logic.{◌≢◌, ◌⊎◌, inl, inr}
use mathlib.Core.Bool.{Bool, true, false, ◌||◌}
use mathlib.Core.Option.{Option, none, some}
use mathlib.Core.List.{List, [], ◌∷◌, ◌++◌, append-nil}
use agent_ssh.Base.Tests.{if◌then◌else◌, Bool-cases}
use agent_ssh.Base.Lists.{All}
use agent_ssh.Base.Text.{Text, codes, text_eq, text_eq_iff, has_prefix}
use agent_ssh.Base.Path.{
  dot, dotdot, is_abs, unwind, join_words, clean, base_words, words, ups, rel_words, same_root, rel,
}
use agent_ssh.Base.Path.{render, drop_empty}
use agent_ssh.Base.Text.{split, prepend}
use agent_ssh.Base.Normal.{IsWord, IsNormal, text_ne, ne_text}
use agent_ssh.Base.Clean.{
  unwind-IsNormal, is_abs-clean, normal_words, normal_words-IsNormal, clean_words, clean-clean,
}

abbrev pub IsDown : List Text → Type 0
IsDown ws = All (λ w. w ≢ dotdot) ws

-- After a word that is not ".." there is none.
abbrev pub IsSettled : List Text → Type 0
IsSettled [] = Unit
IsSettled (w ∷ ws) = (w ≢ dotdot → IsDown ws) × IsSettled ws

unwind-IsSettled :
    (rooted : Bool) (st ws : List Text)
    → IsNormal rooted st
    → IsSettled ws
    → (All (λ x. x ≡ dotdot) st ⊎ IsDown ws)
    → IsSettled (unwind st ws)
unfolding unwind
unwind-IsSettled rooted [] ws h a d = a
unwind-IsSettled rooted (w ∷ st) ws h a d = elim (Bool-cases (text_eq w dotdot)) [
  | inl e ↦
      let q = (text_eq_iff w dotdot).0 e in
      unwind-IsSettled rooted st (w ∷ ws) h.2 (λ ne. absurd (ne q), a) (inl (h.1 q).1)
  | inr e ↦
      let down : IsDown ws = elim d [ inl x ↦ absurd (text_ne e x.0) | inr y ↦ y ] in
      unwind-IsSettled rooted st (w ∷ ws) h.2 (λ ne. down, a) (inr (text_ne e, down))
]

IsSettled-append : (bs ws : List Text) → IsSettled (bs ++ ws) → IsSettled ws
IsSettled-append [] ws h = h
IsSettled-append (b ∷ bs) ws h = IsSettled-append bs ws h.1

-- What a refusal looks for in the result of Rel.
abbrev pub leads_out : Text → Bool
leads_out r = text_eq r dotdot || has_prefix r (codes "../")

leads_out-up : (ws : List Text) → leads_out (join_words (dotdot ∷ ws)) ≡ true
unfolding join_words text_eq has_prefix
leads_out-up [] = refl
leads_out-up (w ∷ ws) = refl

-- The first word of a path that does not lead out is not "..".
first_word : (ts : List Text) → leads_out (join_words ts) ≡ false → IsSettled ts → IsDown ts
first_word [] h a = tt
first_word (t ∷ ts) h a = elim (Bool-cases (text_eq t dotdot)) [
  | inl e ↦
      let q = (text_eq_iff t dotdot).0 e in
      let k = subst (λ x. leads_out (join_words (x ∷ ts)) ≡ false) q h in
      let l = leads_out-up ts in cc
  | inr e ↦ (text_ne e, a.0 (text_ne e))
]

up-contra :
    (ws : List Text) (r : Text)
    → ◌≡◌ {A = Option Text} (some (join_words (dotdot ∷ ws))) (some r)
    → leads_out r ≡ false
    → ⊥
up-contra ws r h out =
    let q : join_words (dotdot ∷ ws) ≡ r = cc in
    let k = leads_out-up ws in let l = subst (λ x. leads_out x ≡ false) (sym q) out in cc

rel_words-inside :
    (bs ts : List Text) (r : Text)
    → rel_words bs ts ≡ some r
    → leads_out r ≡ false
    → IsSettled ts
    → (rest : List Text) × (ts ≡ bs ++ rest) × IsDown rest
unfolding rel_words ups
rel_words-inside [] ts r h out a =
    let q : join_words ts ≡ r = cc in
    (ts, refl, first_word ts (subst (λ x. leads_out x ≡ false) (sym q) out) a)
rel_words-inside (b ∷ bs) [] r h out a = absurd (up-contra (ups bs) r h out)
rel_words-inside (b ∷ bs) (t ∷ ts) r h out a = elim (Bool-cases (text_eq b t)) [
  | inl e ↦
      let p = (text_eq_iff b t).0 e in
      let (rest, q, d) = rel_words-inside bs ts r (rw e at h) out a.1 in (rest, cc, d)
  | inr e ↦ elim (Bool-cases (text_eq b dotdot)) [
    | inl f ↦ let k = rw (e, f) at h in cc
    | inr f ↦ absurd (up-contra (ups bs ++ (t ∷ ts)) r (rw (e, f) at h) out)
  ]
]

pub clean_def : (a : Text) → clean a ≡ render (is_abs a) (unwind (normal_words a) [])
unfolding clean
clean_def a = refl

clean-render : (a : Text) → clean a ≡ render (is_abs a) (base_words (clean a))
clean-render a = clean_def a ∙ ap (render (is_abs a)) (sym (clean_words a))

base_words-clean-IsWord : (a : Text) → All IsWord (base_words (clean a))
base_words-clean-IsWord a =
    subst (λ ws. All IsWord ws) (sym (clean_words a))
      (unwind-IsNormal (is_abs a) (normal_words a) [] (normal_words-IsNormal a) tt)

base_words-clean-IsSettled : (a : Text) → IsSettled (base_words (clean a))
base_words-clean-IsSettled a =
    subst (λ ws. IsSettled ws) (sym (clean_words a))
      (unwind-IsSettled (is_abs a) (normal_words a) [] (normal_words-IsNormal a) tt (inr tt))

same_root_eq : (a b : Bool) → same_root a b ≡ true → a ≡ b
unfolding same_root
same_root_eq true b h = sym h
same_root_eq false true h = cc
same_root_eq false false h = refl

-- Two clean paths of the same root with the same words are the same.
pub clean_eq :
    (a b : Text)
    → is_abs a ≡ is_abs b
    → base_words (clean a) ≡ base_words (clean b)
    → clean a ≡ clean b
clean_eq a b r w = clean-render a ∙ (λ i. render (r i) (w i)) ∙ sym (clean-render b)

base_words-dot : base_words dot ≡ []
unfolding base_words text_eq
base_words-dot = refl

words-dot : words dot ≡ dot ∷ []
unfolding words split prepend drop_empty
words-dot = refl

only_nil : (bs rest : List Text) → All IsWord bs → dot ∷ [] ≡ bs ++ rest → bs ≡ []
only_nil [] rest h e = refl
only_nil (b ∷ bs) rest h e = absurd (h.0.ne_dot (ap (λ l. elim l [ [] ↦ dot | x ∷ _ ↦ x ]) (sym e)))

base_words-words : (t : Text) → t ≢ dot → base_words t ≡ words t
unfolding base_words
base_words-words t h = rw (ne_text t dot h) refl

rel_lem :
    (p q : Text)
    → rel p q ≡ (
        if text_eq (clean p) (clean q)
        then some dot
        else if same_root (is_abs (clean p)) (is_abs (clean q))
        then rel_words (base_words (clean p)) (words (clean q))
        else none)
unfolding rel
rel_lem p q = refl

rel-clean :
    (a b : Text)
    → rel (clean a) (clean b) ≡ (
        if text_eq (clean a) (clean b)
        then some dot
        else if same_root (is_abs (clean a)) (is_abs (clean b))
        then rel_words (base_words (clean a)) (words (clean b))
        else none)
rel-clean a b = rel_lem (clean a) (clean b) ∙ rw (clean-clean a, clean-clean b) refl

-- The path "." is inside no other clean path of its root.
dot-outside :
    (a : Text) (rest : List Text)
    → clean a ≢ dot
    → is_abs (clean a) ≡ false
    → dot ∷ [] ≡ base_words (clean a) ++ rest
    → ⊥
unfolding render
dot-outside a rest ne r e =
    let q = only_nil (base_words (clean a)) rest (base_words-clean-IsWord a) e in
    ne (clean-render a ∙ (λ i. render ((sym (is_abs-clean a) ∙ r) i) (q i)))

-- Where Rel from one path to another leads neither out nor to the root, the second has the words of the
-- first and more words, none of which is "..".
pub rel-inside :
    (a b r : Text)
    → rel (clean a) (clean b) ≡ some r
    → leads_out r ≡ false
    → (is_abs (clean a) ≡ is_abs (clean b))
      × (rest : List Text) × (base_words (clean b) ≡ base_words (clean a) ++ rest)
      × IsDown rest
unfolding is_abs
rel-inside a b r h out = elim (Bool-cases (text_eq (clean a) (clean b))) [
  | inl e ↦
      let q = (text_eq_iff (clean a) (clean b)).0 e in
      (ap is_abs q, [], ap base_words (sym q) ∙ sym (append-nil (base_words (clean a))), tt)
  | inr e ↦ elim (Bool-cases (same_root (is_abs (clean a)) (is_abs (clean b)))) [
    | inr f ↦ let k = sym (rel-clean a b) ∙ h in let l = rw (e, f) at k in cc
    | inl f ↦
        let k = sym (rel-clean a b) ∙ h in
        let l : rel_words (base_words (clean a)) (words (clean b)) ≡ some r = rw (e, f) at k in
        elim (Bool-cases (text_eq (clean b) dot)) [
          | inr g ↦
              let w = base_words-words (clean b) (text_ne g) in
              let s = subst (λ x. IsSettled x) w (base_words-clean-IsSettled b) in
              let (rest, q, d) =
                rel_words-inside (base_words (clean a)) (words (clean b)) r l out s in
              (same_root_eq (is_abs (clean a)) (is_abs (clean b)) f, rest, w ∙ q, d)
          | inl g ↦
              let p = (text_eq_iff (clean b) dot).0 g in
              let w = ap words p ∙ words-dot in
              let (rest, q, d) =
                rel_words-inside (base_words (clean a)) (words (clean b)) r l out
                  (subst (λ x. IsSettled x) (sym w) (λ _. tt, tt)) in
              absurd (
                dot-outside a rest (λ z. text_ne e (z ∙ sym p))
                  (same_root_eq (is_abs (clean a)) (is_abs (clean b)) f ∙ ap is_abs p) (sym w ∙ q))
        ]
  ]
]

-- The path t is the path d, or lies below it.
pub record Below (d t : Text) : Type 0 where
  pub root : is_abs d ≡ is_abs t
  pub rest : List Text
  pub words : base_words t ≡ base_words d ++ rest
  pub down : IsDown rest

pub Below-refl : (d : Text) → Below d d
unfolding is_abs base_words
Below-refl d = record { root = refl; rest = []; words = sym (append-nil (base_words d)); down = tt }
