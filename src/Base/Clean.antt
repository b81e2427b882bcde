-- ===== src/Base/Clean.antt =====
-- Clean of path/filepath, as Base/Path models it: its results are in normal form, and it leaves these
-- as they are.
use Prim.Native.Nat.{ℕ}
use mathlib.Core.Path.{◌≡◌, refl, sym, ap, subst, ◌∙◌}
use mathlib.Core.Logic.{◌≢◌}
use mathlib.Core.Bool.{Bool, true, false}
use mathlib.Core.List.{List, [], ◌∷◌, ◌++◌, append-nil}
use native.Mathlib.Omega.{arith}
use agent_ssh.Base.Tests.{◌==◌}
use agent_ssh.Base.Lists.{All}
use agent_ssh.Base.Text.{Text, text_eq, prepend, split}
use agent_ssh.Base.Path.{
  dot, is_abs, push_word, resolve, unwind, join_words, render, clean, drop_empty, words, base_words,
}
use agent_ssh.Base.Normal.{
  IsWord, IsSlashFree, IsNormal, resolve-IsNormal, split-IsSlashFree, resolve-unwind, ne_text,
}

-- What Clean renders.
abbrev pub normal_words : Text → List Text
normal_words s = resolve (is_abs s) [] (split b'/' s)

pub normal_words-IsNormal : (s : Text) → IsNormal (is_abs s) (normal_words s)
normal_words-IsNormal s = resolve-IsNormal (is_abs s) [] (split b'/' s) (split-IsSlashFree s) tt

slash_test : (c : ℕ) → c ≢ b'/' → (c == b'/') ≡ false
slash_test c h = ground arith

pub split-word : (w : Text) → IsSlashFree w → split b'/' w ≡ w ∷ []
unfolding split prepend
split-word [] h = refl
split-word (c ∷ w) h = rw (slash_test c h.0, split-word w h.1) refl

split-++ : (w s : Text) → IsSlashFree w → split b'/' (w ++ (b'/' ∷ s)) ≡ w ∷ split b'/' s
unfolding split prepend
split-++ [] s h = refl
split-++ (c ∷ w) s h = rw (slash_test c h.0, split-++ w s h.1) refl

split-join_words :
    (w : Text) (ws : List Text)
    → All IsSlashFree (w ∷ ws)
    → split b'/' (join_words (w ∷ ws)) ≡ w ∷ ws
unfolding join_words
split-join_words w [] h = split-word w h.0
split-join_words w (x ∷ ws) h =
    split-++ w (join_words (x ∷ ws)) h.0 ∙ ap (λ l. w ∷ l) (split-join_words x ws h.1)

pub unwind-IsNormal :
    (rooted : Bool) (st ws : List Text)
    → IsNormal rooted st
    → All IsWord ws
    → All IsWord (unwind st ws)
unfolding unwind
unwind-IsNormal rooted [] ws h a = a
unwind-IsNormal rooted (w ∷ st) ws h a = unwind-IsNormal rooted st (w ∷ ws) h.2 (h.0, a)

slash_free : (ws : List Text) → All IsWord ws → All IsSlashFree ws
slash_free [] h = tt
slash_free (w ∷ ws) h = (h.0.no_slash, slash_free ws h.1)

-- The words of a rendered path.
split-render :
    (rooted : Bool) (ws : List Text)
    → All IsWord ws
    → (st : List Text) → resolve rooted st (split b'/' (render rooted ws)) ≡ resolve rooted st ws
unfolding render resolve push_word split text_eq
split-render true [] h st = refl
split-render true (w ∷ ws) h st =
    ap (λ l. resolve true st l) (split-join_words w ws (slash_free (w ∷ ws) h))
split-render false [] h st = refl
split-render false (w ∷ ws) h st =
    ap (λ l. resolve false st l) (split-join_words w ws (slash_free (w ∷ ws) h))

is_abs-word : (w t : Text) → IsWord w → is_abs (w ++ t) ≡ false
unfolding is_abs
is_abs-word [] t h = elim (h.ne_nil refl) [ ]
is_abs-word (c ∷ w) t h = slash_test c h.no_slash.0

is_abs-join_words : (w : Text) (ws : List Text) → IsWord w → is_abs (join_words (w ∷ ws)) ≡ false
unfolding join_words
is_abs-join_words w [] h = subst (λ x. is_abs x ≡ false) (append-nil w) (is_abs-word w [] h)
is_abs-join_words w (x ∷ ws) h = is_abs-word w (b'/' ∷ join_words (x ∷ ws)) h

is_abs-render :
    (rooted : Bool) (ws : List Text) → All IsWord ws → is_abs (render rooted ws) ≡ rooted
unfolding render is_abs
is_abs-render true ws h = refl
is_abs-render false [] h = refl
is_abs-render false (w ∷ ws) h = is_abs-join_words w ws h.0

drop_empty-words : (ws : List Text) → All IsWord ws → drop_empty ws ≡ ws
unfolding drop_empty
drop_empty-words [] h = refl
drop_empty-words ([] ∷ ws) h = elim (h.0.ne_nil refl) [ ]
drop_empty-words ((c ∷ w) ∷ ws) h = ap (λ l. (c ∷ w) ∷ l) (drop_empty-words ws h.1)

words-join_words :
    (w : Text) (ws : List Text) → All IsWord (w ∷ ws) → words (join_words (w ∷ ws)) ≡ w ∷ ws
unfolding words
words-join_words w ws h =
    ap drop_empty (split-join_words w ws (slash_free (w ∷ ws) h)) ∙ drop_empty-words (w ∷ ws) h

join_words-ne-dot : (w : Text) (ws : List Text) → All IsWord (w ∷ ws) → join_words (w ∷ ws) ≢ dot
unfolding split prepend
join_words-ne-dot w ws h q =
    let k = sym (split-join_words w ws (slash_free (w ∷ ws) h)) ∙ ap (split b'/') q in
    h.0.ne_dot (ap (λ l. elim l [ [] ↦ [] | x ∷ _ ↦ x ]) k)

-- The words of a rendered path, as Rel counts them.
pub base_words-render :
    (rooted : Bool) (ws : List Text) → All IsWord ws → base_words (render rooted ws) ≡ ws
unfolding base_words render words split drop_empty text_eq
base_words-render true [] h = refl
base_words-render true (w ∷ ws) h = words-join_words w ws h
base_words-render false [] h = refl
base_words-render false (w ∷ ws) h =
    rw (ne_text (join_words (w ∷ ws)) dot (join_words-ne-dot w ws h)) (words-join_words w ws h)

-- The words of what Clean gives.
pub clean_words : (s : Text) → base_words (clean s) ≡ unwind (normal_words s) []
unfolding clean
clean_words s =
    base_words-render (is_abs s) (unwind (normal_words s) [])
      (unwind-IsNormal (is_abs s) (normal_words s) [] (normal_words-IsNormal s) tt)

pub is_abs-clean : (s : Text) → is_abs (clean s) ≡ is_abs s
unfolding clean
is_abs-clean s =
    is_abs-render (is_abs s) (unwind (normal_words s) [])
      (unwind-IsNormal (is_abs s) (normal_words s) [] (normal_words-IsNormal s) tt)

-- Clean has nothing to do on what it gave.
pub normal_words-clean : (s : Text) → normal_words (clean s) ≡ normal_words s
unfolding clean
normal_words-clean s =
    let st = normal_words s in
    let h = normal_words-IsNormal s in
    let a = unwind-IsNormal (is_abs s) st [] h tt in
    ap (λ r. resolve r [] (split b'/' (render (is_abs s) (unwind st []))))
      (is_abs-render (is_abs s) (unwind st []) a)
    ∙ split-render (is_abs s) (unwind st []) a []
    ∙ resolve-unwind (is_abs s) st [] h

pub clean-clean : (s : Text) → clean (clean s) ≡ clean s
unfolding clean
clean-clean s =
    ap (λ r. render r (unwind (resolve r [] (split b'/' (clean s))) [])) (is_abs-clean s)
    ∙ ap (λ st. render (is_abs s) (unwind st []))
        (ap (λ r. resolve r [] (split b'/' (clean s))) (sym (is_abs-clean s))
          ∙ normal_words-clean s)

render-ne-nil : (rooted : Bool) (ws : List Text) → All IsWord ws → render rooted ws ≢ []
unfolding render join_words
render-ne-nil true ws h q = cc
render-ne-nil false [] h q = cc
render-ne-nil false (w ∷ []) h q = h.0.ne_nil q
render-ne-nil false ([] ∷ x ∷ ws) h q = h.0.ne_nil refl
render-ne-nil false ((c ∷ w) ∷ x ∷ ws) h q = cc

pub clean-ne-nil : (s : Text) → clean s ≢ []
unfolding clean
clean-ne-nil s =
    render-ne-nil (is_abs s) (unwind (normal_words s) [])
      (unwind-IsNormal (is_abs s) (normal_words s) [] (normal_words-IsNormal s) tt)
