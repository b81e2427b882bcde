-- ===== src/Base/Beneath.antt =====
-- Clean paths with a prefix, as handleUpload tests for it, and files beside them.
use Prim.Native.Nat.{ℕ}
use mathlib.Core.Path.{◌≡◌, refl, sym, ap, subst, ◌∙◌}
use mathlib.Core.Logic.{◌≢◌, inl, inr}
use mathlib.Core.Bool.{true}
use mathlib.Core.List.{List, [], ◌∷◌, ◌++◌, append_assoc}
use agent_ssh.Base.Tests.{◌==◌, Bool-cases}
use agent_ssh.Base.Text.{Text, codes, has_prefix, has_prefix-split, trim_prefix, split, prepend}
use agent_ssh.Base.Path.{dot, dotdot, is_abs, unwind, clean, base_words, words, drop_empty}
use agent_ssh.Base.Normal.{IsNormal, ne_text}
use agent_ssh.Base.Clean.{normal_words, normal_words-IsNormal, clean_words, is_abs-clean}
use agent_ssh.Base.Within.{IsDown, Below}

-- No path from the root goes up.
normal-IsDown : (st : List Text) → IsNormal true st → IsDown st
normal-IsDown [] h = tt
normal-IsDown (w ∷ st) h = (λ q. let k = (h.1 q).0 in cc, normal-IsDown st h.2)

unwind-IsDown : (st ws : List Text) → IsDown st → IsDown ws → IsDown (unwind st ws)
unfolding unwind
unwind-IsDown [] ws h a = a
unwind-IsDown (w ∷ st) ws h a = unwind-IsDown st (w ∷ ws) h.1 (h.0, a)

rooted-IsDown : (s : Text) → is_abs s ≡ true → IsDown (base_words (clean s))
rooted-IsDown s r =
    subst (λ ws. IsDown ws) (sym (clean_words s))
      (unwind-IsDown (normal_words s) []
        (normal-IsDown (normal_words s)
          (subst (λ b. IsNormal b (normal_words s)) r (normal_words-IsNormal s)))
        tt)

rooted_words : (s : Text) → is_abs s ≡ true → base_words s ≡ words s
unfolding base_words is_abs
rooted_words s r = rw (ne_text s dot (λ q. let k = ap is_abs q in cc)) refl

prepend-++ : (c : ℕ) (ws xs : List Text) → ws ≢ [] → prepend c (ws ++ xs) ≡ prepend c ws ++ xs
unfolding prepend
prepend-++ c [] xs h = absurd (h refl)
prepend-++ c (w ∷ ws) xs h = refl

prepend-ne-nil : (c : ℕ) (ws : List Text) → prepend c ws ≢ []
unfolding prepend
prepend-ne-nil c [] h = cc
prepend-ne-nil c (w ∷ ws) h = cc

split-ne-nil : (s : Text) → split b'/' s ≢ []
unfolding split prepend
split-ne-nil [] h = cc
split-ne-nil (c ∷ s) h = elim (Bool-cases (c == b'/')) [
  | inl e ↦ let k = rw e at h in cc
  | inr e ↦ prepend-ne-nil c (split b'/' s) (rw e at h)
]

pub split-slash : (s t : Text) → split b'/' (s ++ (b'/' ∷ t)) ≡ split b'/' s ++ split b'/' t
unfolding split
split-slash [] t = refl
split-slash (c ∷ s) t = elim (Bool-cases (c == b'/')) [
  | inl e ↦ rw (e, split-slash s t) refl
  | inr e ↦ rw (e, split-slash s t) (prepend-++ c (split b'/' s) (split b'/' t) (split-ne-nil s))
]

drop_empty-++ : (xs ys : List Text) → drop_empty (xs ++ ys) ≡ drop_empty xs ++ drop_empty ys
unfolding drop_empty
drop_empty-++ [] ys = refl
drop_empty-++ ([] ∷ xs) ys = drop_empty-++ xs ys
drop_empty-++ ((c ∷ w) ∷ xs) ys = ap (λ l. (c ∷ w) ∷ l) (drop_empty-++ xs ys)

words-slash : (s t : Text) → words (s ++ (b'/' ∷ t)) ≡ words s ++ words t
unfolding words
words-slash s t = ap drop_empty (split-slash s t) ∙ drop_empty-++ (split b'/' s) (split b'/' t)

-- The last word of a path with more bytes at its end.
onto_last : Text → List Text → List Text
onto_last t [] = t ∷ []
onto_last t (w ∷ []) = (w ++ t) ∷ []
onto_last t (w ∷ x ∷ ws) = w ∷ onto_last t (x ∷ ws)

prepend-onto_last :
    (c : ℕ) (t : Text) (ws : List Text)
    → ws ≢ []
    → prepend c (onto_last t ws) ≡ onto_last t (prepend c ws)
unfolding prepend onto_last
prepend-onto_last c t [] h = absurd (h refl)
prepend-onto_last c t (w ∷ []) h = refl
prepend-onto_last c t (w ∷ x ∷ ws) h = refl

cons-onto_last : (w t : Text) (ws : List Text) → ws ≢ [] → w ∷ onto_last t ws ≡ onto_last t (w ∷ ws)
unfolding onto_last
cons-onto_last w t [] h = absurd (h refl)
cons-onto_last w t (x ∷ ws) h = refl

split-onto_last :
    (s t : Text) → split b'/' t ≡ t ∷ [] → split b'/' (s ++ t) ≡ onto_last t (split b'/' s)
unfolding split onto_last
split-onto_last [] t h = h
split-onto_last (c ∷ s) t h = elim (Bool-cases (c == b'/')) [
  | inl e ↦ rw (e, split-onto_last s t h) (cons-onto_last [] t (split b'/' s) (split-ne-nil s))
  | inr e ↦ rw (e, split-onto_last s t h) (prepend-onto_last c t (split b'/' s) (split-ne-nil s))
]

single-IsDown : (w : Text) → w ≢ dotdot → IsDown (drop_empty (w ∷ []))
unfolding drop_empty
single-IsDown [] h = tt
single-IsDown (c ∷ w) h = (h, tt)

onto_last-IsDown :
    (t : Text) (ws : List Text)
    → ((w : Text) → w ++ t ≢ dotdot)
    → IsDown (drop_empty ws)
    → IsDown (drop_empty (onto_last t ws))
unfolding onto_last drop_empty
onto_last-IsDown t [] h a = single-IsDown t (h [])
onto_last-IsDown t (w ∷ []) h a = single-IsDown (w ++ t) (h w)
onto_last-IsDown t ([] ∷ x ∷ ws) h a = onto_last-IsDown t (x ∷ ws) h a
onto_last-IsDown t ((c ∷ w) ∷ x ∷ ws) h a = (a.0, onto_last-IsDown t (x ∷ ws) h a.1)

is_abs-++ : (s t : Text) → is_abs s ≡ true → is_abs (s ++ t) ≡ true
unfolding is_abs
is_abs-++ [] t h = cc
is_abs-++ (c ∷ s) t h = h

back-IsDown : (ws xs : List Text) → IsDown (ws ++ xs) → IsDown xs
back-IsDown [] xs h = h
back-IsDown (w ∷ ws) xs h = back-IsDown ws xs h.1

-- What is behind the directory d and a slash lies below d, if it does not go up.
slash-Below : (d x : Text) → is_abs d ≡ true → IsDown (words x) → Below d (d ++ (b'/' ∷ x))
slash-Below d x r h = record {
  root = r ∙ sym (is_abs-++ d (b'/' ∷ x) r);
  rest = words x;
  words =
      rooted_words (d ++ (b'/' ∷ x)) (is_abs-++ d (b'/' ∷ x) r)
      ∙ words-slash d x
      ∙ ap (λ ws. ws ++ words x) (sym (rooted_words d r));
  down = h;
}

-- What a clean path is behind the directory that is its prefix.
behind : (d p : Text) → has_prefix p (d ++ codes "/") ≡ true → (x : Text) × (p ≡ d ++ (b'/' ∷ x))
behind d p h =
    let x = trim_prefix p (d ++ codes "/") in
    (x, has_prefix-split p (d ++ codes "/") h ∙ append_assoc d (codes "/") x)

module _ (d p : Text) (rooted : is_abs d ≡ true)
    (inside : has_prefix (clean p) (clean d ++ codes "/") ≡ true) where
  behind-IsDown : (x : Text) → clean p ≡ clean d ++ (b'/' ∷ x) → IsDown (words x)
  behind-IsDown x q =
      let r = is_abs-clean d ∙ rooted in
      let a = ap is_abs q ∙ is_abs-++ (clean d) (b'/' ∷ x) r in
      let down = rooted-IsDown p (sym (is_abs-clean p) ∙ a) in
      let w = rooted_words (clean p) a ∙ ap words q ∙ words-slash (clean d) x in
      back-IsDown (words (clean d)) (words x) (subst (λ ws. IsDown ws) w down)

  -- A clean path with the prefix lies below the directory.
  pub prefix-Below : Below (clean d) (clean p)
  prefix-Below =
      let (x, q) = behind (clean d) (clean p) inside in
      subst (λ y. Below (clean d) y) (sym q)
        (slash-Below (clean d) x (is_abs-clean d ∙ rooted) (behind-IsDown x q))

  -- So does the file beside it whose name has more bytes at its end.
  pub beside-Below :
      (t : Text)
      → split b'/' t ≡ t ∷ []
      → ((w : Text) → w ++ t ≢ dotdot)
      → Below (clean d) (clean p ++ t)
  unfolding words
  beside-Below t one h =
      let (x, q) = behind (clean d) (clean p) inside in
      let down =
        subst (λ ws. IsDown (drop_empty ws)) (sym (split-onto_last x t one))
          (onto_last-IsDown t (split b'/' x) h (behind-IsDown x q)) in
      subst (λ y. Below (clean d) y)
        (sym (ap (λ y. y ++ t) q ∙ append_assoc (clean d) (b'/' ∷ x) t))
        (slash-Below (clean d) (x ++ t) (is_abs-clean d ∙ rooted) down)
