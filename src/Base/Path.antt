-- ===== src/Base/Path.antt =====
-- What the program uses of path/filepath on Unix: Clean, Join, IsAbs, Rel, Base and Ext, on the words
-- between slashes.
use agent_ssh.Base.Tests.{◌==◌, if◌then◌else◌}
use agent_ssh.Base.Text.{Text, codes, text_eq, split}
use mathlib.Core.Bool.{Bool, true, false, ◌||◌}
use mathlib.Core.Option.{Option, none, some}
use mathlib.Core.List.{List, [], ◌∷◌, ◌++◌}

abbrev pub dot : Text
dot = codes "."

abbrev pub dotdot : Text
dotdot = codes ".."

unfoldable pub is_abs : Text → Bool
is_abs [] = false
is_abs (c ∷ s) = c == b'/'

-- What ".." does to the words so far, the last one first.
unfoldable pub up : Bool → List Text → List Text
up rooted [] = if rooted then [] else dotdot ∷ []
up rooted (w ∷ st) = if text_eq w dotdot then dotdot ∷ w ∷ st else st

unfoldable pub push_word : Bool → List Text → Text → List Text
unfolding up text_eq
push_word rooted st w =
    if text_eq w [] || text_eq w dot then st else if text_eq w dotdot then up rooted st else w ∷ st

unfoldable pub resolve : Bool → List Text → List Text → List Text
unfolding push_word
resolve rooted st [] = st
resolve rooted st (w ∷ ws) = resolve rooted (push_word rooted st w) ws

-- The words of a stack, first word first, before those that follow.
unfoldable pub unwind : List Text → List Text → List Text
unwind [] ws = ws
unwind (w ∷ st) ws = unwind st (w ∷ ws)

unfoldable pub join_words : List Text → Text
join_words [] = []
join_words (w ∷ []) = w
join_words (w ∷ x ∷ ws) = w ++ (b'/' ∷ join_words (x ∷ ws))

unfoldable pub render : Bool → List Text → Text
unfolding join_words
render true ws = b'/' ∷ join_words ws
render false [] = dot
render false (w ∷ ws) = join_words (w ∷ ws)

-- filepath.Clean
unfoldable pub clean : Text → Text
unfolding is_abs resolve unwind render split
clean s = render (is_abs s) (unwind (resolve (is_abs s) [] (split b'/' s)) [])

-- filepath.Join of two elements
unfoldable pub join : Text → Text → Text
unfolding clean
join [] [] = []
join [] (d ∷ t) = clean (d ∷ t)
join (c ∷ s) t = clean ((c ∷ s) ++ (b'/' ∷ t))

unfoldable pub drop_empty : List Text → List Text
drop_empty [] = []
drop_empty ([] ∷ ws) = drop_empty ws
drop_empty ((c ∷ w) ∷ ws) = (c ∷ w) ∷ drop_empty ws

unfoldable pub words : Text → List Text
unfolding drop_empty split
words s = drop_empty (split b'/' s)

-- Rel takes the base "." for the empty text.
unfoldable pub base_words : Text → List Text
unfolding words text_eq
base_words s = if text_eq s dot then [] else words s

unfoldable pub ups : List Text → List Text
ups [] = []
ups (w ∷ ws) = dotdot ∷ ups ws

-- Rel from the first words that differ on: an error if the base goes up there.
unfoldable pub rel_words : List Text → List Text → Option Text
unfolding ups join_words text_eq
rel_words [] ts = some (join_words ts)
rel_words (b ∷ bs) [] = some (join_words (ups (b ∷ bs)))
rel_words (b ∷ bs) (t ∷ ts) =
    let rest = rel_words bs ts in
    if text_eq b t
    then rest
    else if text_eq b dotdot
    then none
    else some (join_words (ups (b ∷ bs) ++ (t ∷ ts)))

unfoldable pub same_root : Bool → Bool → Bool
same_root true b = b
same_root false true = false
same_root false false = true

-- filepath.Rel
unfoldable pub rel : Text → Text → Option Text
unfolding clean rel_words base_words words is_abs same_root text_eq
rel base target =
    let b = clean base in
    let t = clean target in
    if text_eq b t
    then some dot
    else if same_root (is_abs b) (is_abs t)
    then rel_words (base_words b) (words t)
    else none

up_to_slash : Text → Text
up_to_slash [] = []
up_to_slash (c ∷ s) = elim (up_to_slash s) [
  | [] ↦ if c == b'/' then c ∷ [] else []
  | d ∷ r ↦ c ∷ d ∷ r
]

-- filepath.Dir
unfoldable pub dir : Text → Text
unfolding up_to_slash clean
dir s = clean (up_to_slash s)

last_or : Text → List Text → Text
last_or d [] = d
last_or d (w ∷ ws) = last_or w ws

-- filepath.Base: the last word; "." for the empty text, "/" for slashes only
unfoldable pub base : Text → Text
unfolding words last_or
base [] = dot
base (c ∷ s) = last_or (codes "/") (words (c ∷ s))

ext_from : Text → Text → Text
ext_from found [] = found
ext_from found (c ∷ s) = ext_from (if c == b'/' then [] else if c == b'.' then c ∷ s else found) s

-- filepath.Ext: from the last dot of the last word on
unfoldable pub ext : Text → Text
unfolding ext_from
ext s = ext_from [] s
