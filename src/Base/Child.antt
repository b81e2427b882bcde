-- ===== src/Base/Child.antt =====
-- Join of path/filepath, as Base/Path models it, of a directory and a name in it.
use mathlib.Core.Path.{◌≡◌, refl, sym, ap, ◌∙◌}
use mathlib.Core.Logic.{◌≢◌}
use mathlib.Core.Bool.{Bool, true, false}
use mathlib.Core.List.{List, [], ◌∷◌, ◌++◌, append_assoc}
use agent_ssh.Base.Text.{Text, split}
use agent_ssh.Base.Path.{
  dot, dotdot, is_abs, push_word, resolve, unwind, join_words, render, clean, join, base_words,
}
use agent_ssh.Base.Normal.{IsSlashFree, ne_text}
use agent_ssh.Base.Clean.{normal_words, clean_words, split-word}
use agent_ssh.Base.Within.{clean_def}
use agent_ssh.Base.Beneath.{split-slash}

-- A name of a file in a directory.
pub record IsName (w : Text) : Type 0 where
  pub no_slash : IsSlashFree w
  pub ne_nil : w ≢ []
  pub ne_dot : w ≢ dot
  pub ne_dotdot : w ≢ dotdot

join-clean : (d w : Text) → d ≢ [] → join d w ≡ clean (d ++ (b'/' ∷ w))
unfolding join
join-clean [] w h = absurd (h refl)
join-clean (c ∷ d) w h = refl

is_abs-front : (d t : Text) → d ≢ [] → is_abs (d ++ t) ≡ is_abs d
unfolding is_abs
is_abs-front [] t h = absurd (h refl)
is_abs-front (c ∷ d) t h = refl

resolve-++ :
    (r : Bool) (st xs ys : List Text) → resolve r st (xs ++ ys) ≡ resolve r (resolve r st xs) ys
unfolding resolve
resolve-++ r st [] ys = refl
resolve-++ r st (x ∷ xs) ys = resolve-++ r (push_word r st x) xs ys

push-name : (r : Bool) (st : List Text) (w : Text) → IsName w → push_word r st w ≡ w ∷ st
unfolding push_word
push-name r st w n =
    rw (ne_text w [] n.ne_nil, ne_text w dot n.ne_dot, ne_text w dotdot n.ne_dotdot) refl

child_words : (d w : Text) → d ≢ [] → IsName w → normal_words (d ++ (b'/' ∷ w)) ≡ w ∷ normal_words d
unfolding resolve
child_words d w h n =
    ap (λ r. resolve r [] (split b'/' (d ++ (b'/' ∷ w)))) (is_abs-front d (b'/' ∷ w) h)
    ∙ ap (resolve (is_abs d) [])
        (split-slash d w ∙ ap (λ l. split b'/' d ++ l) (split-word w n.no_slash))
    ∙ resolve-++ (is_abs d) [] (split b'/' d) (w ∷ [])
    ∙ push-name (is_abs d) (normal_words d) w n

-- The path of a file in a directory, and its last word.
pub join_child :
    (d w : Text)
    → d ≢ []
    → IsName w
    → join d w ≡ render (is_abs d) (unwind (normal_words d) (w ∷ []))
unfolding unwind
join_child d w h n =
    join-clean d w h
    ∙ clean_def (d ++ (b'/' ∷ w))
    ∙ ap (λ r. render r (unwind (normal_words (d ++ (b'/' ∷ w))) [])) (is_abs-front d (b'/' ∷ w) h)
    ∙ ap (λ l. render (is_abs d) (unwind l [])) (child_words d w h n)

child_base :
    (d w : Text) → d ≢ [] → IsName w → base_words (join d w) ≡ unwind (normal_words d) (w ∷ [])
unfolding unwind
child_base d w h n =
    ap base_words (join-clean d w h)
    ∙ clean_words (d ++ (b'/' ∷ w))
    ∙ ap (λ l. unwind l []) (child_words d w h n)

unwind_cancel : (st xs ys : List Text) → unwind st xs ≡ unwind st ys → xs ≡ ys
unfolding unwind
unwind_cancel [] xs ys h = h
unwind_cancel (x ∷ st) xs ys h =
    ap (λ l. elim l [ [] ↦ [] | _ ∷ r ↦ r ]) (unwind_cancel st (x ∷ xs) (x ∷ ys) h)

-- Two names in a directory have one path only if they are the same.
pub join_inj : (d v w : Text) → d ≢ [] → IsName v → IsName w → join d v ≡ join d w → v ≡ w
join_inj d v w h m n q =
    ap (λ l. elim l [ [] ↦ [] | x ∷ _ ↦ x ])
      (unwind_cancel (normal_words d) (v ∷ []) (w ∷ [])
        (sym (child_base d v h m) ∙ ap base_words q ∙ child_base d w h n))

join_words-more :
    (x y z t : Text) (ys zs : List Text)
    → join_words (y ∷ ys) ++ t ≡ join_words (z ∷ zs)
    → join_words (x ∷ y ∷ ys) ++ t ≡ join_words (x ∷ z ∷ zs)
unfolding join_words
join_words-more x y z t ys zs h =
    append_assoc x (b'/' ∷ join_words (y ∷ ys)) t ∙ ap (λ l. x ++ (b'/' ∷ l)) h

render-more :
    (r : Bool) (st : List Text) (y z t : Text) (ys zs : List Text)
    → join_words (y ∷ ys) ++ t ≡ join_words (z ∷ zs)
    → render r (unwind st (y ∷ ys)) ++ t ≡ render r (unwind st (z ∷ zs))
unfolding render unwind
render-more true [] y z t ys zs h = ap (λ l. b'/' ∷ l) h
render-more false [] y z t ys zs h = h
render-more r (x ∷ st) y z t ys zs h =
    render-more r st x x t (y ∷ ys) (z ∷ zs) (join_words-more x y z t ys zs h)

-- More bytes at the end of a path are more bytes at the end of the name.
pub join-more :
    (d w t : Text) → d ≢ [] → IsName w → IsName (w ++ t) → join d w ++ t ≡ join d (w ++ t)
unfolding join_words
join-more d w t h n m =
    ap (λ s. s ++ t) (join_child d w h n)
    ∙ render-more (is_abs d) (normal_words d) w (w ++ t) t [] [] refl
    ∙ sym (join_child d (w ++ t) h m)
