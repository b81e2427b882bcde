-- ===== src/Base/Text.antt =====
-- Go strings as lists of bytes, and what the program uses of the packages strings and strconv.
use Prim.Native.Char.{code}
use Prim.Native.String.{String}
use Prim.Native.Nat.{ℕ, zero, suc, ◌+◌}
use mathlib.Core.Path.{◌≡◌, refl}
use mathlib.Core.Logic.{◌↔◌}
use mathlib.Core.Bool.{Bool, true, false, ◌&&◌, ◌||◌}
use mathlib.Core.List.{List, [], ◌∷◌, ◌++◌, reverse}
use native.Mathlib.Omega.{arith}
use agent_ssh.Base.Tests.{leb, ◌==◌, if◌then◌else◌}

abbrev pub Text : Type 0
Text = List ℕ

-- The bytes of an ASCII literal.
abbrev pub codes : String → Text
codes String.[] = []
codes (String.◌∷◌ c s) = code c ∷ codes s

unfoldable pub text_eq : Text → Text → Bool
text_eq [] [] = true
text_eq [] (d ∷ t) = false
text_eq (c ∷ s) [] = false
text_eq (c ∷ s) (d ∷ t) = c == d && text_eq s t

pub text_eq_iff : (s t : Text) → (text_eq s t ≡ true) ↔ (s ≡ t)
unfolding text_eq
text_eq_iff [] [] = ground arith
text_eq_iff [] (d ∷ t) = ground arith
text_eq_iff (c ∷ s) [] = ground arith
text_eq_iff (c ∷ s) (d ∷ t) = ground (arith, text_eq_iff s t)

pub text_eq_refl : (s : Text) → text_eq s s ≡ true
text_eq_refl s = (text_eq_iff s s).1 refl

-- strings.HasPrefix
unfoldable pub has_prefix : Text → Text → Bool
has_prefix s [] = true
has_prefix [] (d ∷ t) = false
has_prefix (c ∷ s) (d ∷ t) = c == d && has_prefix s t

-- strings.TrimPrefix; without the prefix the text is returned as it is
strip : Text → Text → Text → Text
strip whole s [] = s
strip whole [] (d ∷ t) = whole
strip whole (c ∷ s) (d ∷ t) = if c == d then strip whole s t else whole

unfoldable pub trim_prefix : Text → Text → Text
unfolding strip
trim_prefix s prefix = strip s s prefix

-- strings.Contains
unfoldable pub contains : Text → Text → Bool
unfolding has_prefix
contains [] sub = has_prefix [] sub
contains (c ∷ s) sub = has_prefix (c ∷ s) sub || contains s sub

-- The number of bytes of the character that the text begins with, if unicode.IsSpace holds of it, and
-- else 0: ASCII white space, U+0085, U+00A0, U+1680, U+2000 to U+200A, U+2028, U+2029, U+202F, U+205F
-- and U+3000. All have one, two or three bytes in UTF-8.
is_space_1 : ℕ → Bool
is_space_1 c = c == b' ' || leb 9 c && leb c 13

is_space_2 : ℕ → ℕ → Bool
is_space_2 c d = c == 0xc2 && (d == 0x85 || d == 0xa0)

is_space_3 : ℕ → ℕ → ℕ → Bool
is_space_3 c d e =
    (c == 0xe1 && (d == 0x9a && e == 0x80))
    || (c == 0xe2
        && (d == 0x80 && (leb 0x80 e && leb e 0x8a || (e == 0xa8 || (e == 0xa9 || e == 0xaf)))))
    || (c == 0xe2 && (d == 0x81 && e == 0x9f))
    || (c == 0xe3 && (d == 0x80 && e == 0x80))

unfoldable pub leading_space : Text → ℕ
unfolding is_space_1 is_space_2 is_space_3
leading_space [] = 0
leading_space (c ∷ []) = if is_space_1 c then 1 else 0
leading_space (c ∷ d ∷ []) = if is_space_1 c then 1 else if is_space_2 c d then 2 else 0
leading_space (c ∷ d ∷ e ∷ s) =
    if is_space_1 c then 1 else if is_space_2 c d then 2 else if is_space_3 c d e then 3 else 0

-- The same of the character that a text ends with, on the text backwards.
unfoldable pub trailing_space : Text → ℕ
unfolding is_space_1 is_space_2 is_space_3
trailing_space [] = 0
trailing_space (c ∷ []) = if is_space_1 c then 1 else 0
trailing_space (c ∷ d ∷ []) = if is_space_1 c then 1 else if is_space_2 d c then 2 else 0
trailing_space (c ∷ d ∷ e ∷ s) =
    if is_space_1 c then 1 else if is_space_2 d c then 2 else if is_space_3 e d c then 3 else 0

-- Drops characters from the front as long as they have a width; of the first, `skip` bytes are left.
unfoldable pub drop_spaces : (Text → ℕ) → ℕ → Text → Text
drop_spaces width skip [] = []
drop_spaces width (suc skip) (c ∷ s) = drop_spaces width skip s
drop_spaces width zero (c ∷ s) = elim (width (c ∷ s)) [
  | zero ↦ c ∷ s
  | suc skip ↦ drop_spaces width skip s
]

unfoldable pub trim_left : Text → Text
unfolding drop_spaces leading_space
trim_left s = drop_spaces leading_space 0 s

-- strings.TrimSpace
unfoldable pub trim_space : Text → Text
unfolding trim_left drop_spaces trailing_space
trim_space s = reverse (drop_spaces trailing_space 0 (reverse (trim_left s)))

-- strings.ToLower on ASCII
unfoldable pub to_lower_byte : ℕ → ℕ
to_lower_byte c = if leb b'A' c && leb c b'Z' then c + 32 else c

unfoldable pub to_lower : Text → Text
unfolding to_lower_byte
to_lower [] = []
to_lower (c ∷ s) = to_lower_byte c ∷ to_lower s

unfoldable pub prepend : ℕ → List Text → List Text
prepend c [] = (c ∷ []) ∷ []
prepend c (w ∷ ws) = (c ∷ w) ∷ ws

-- strings.Split by a one-byte separator: never the empty list
unfoldable pub split : ℕ → Text → List Text
unfolding prepend
split sep [] = [] ∷ []
split sep (c ∷ s) = let rest = split sep s in if c == sep then [] ∷ rest else prepend c rest

strip_split : (whole s p : Text) → has_prefix s p ≡ true → s ≡ p ++ strip whole s p
unfolding has_prefix strip
strip_split whole s [] h = refl
strip_split whole [] (d ∷ t) h = cc
strip_split whole (c ∷ s) (d ∷ t) h = ground (arith, strip_split whole s t)

-- A prefix that is there and what is left without it.
pub has_prefix-split : (s p : Text) → has_prefix s p ≡ true → s ≡ p ++ trim_prefix s p
unfolding trim_prefix
has_prefix-split s p h = strip_split s s p h

-- strings.TrimSuffix
unfoldable pub trim_suffix : Text → Text → Text
unfolding trim_prefix
trim_suffix s suffix = reverse (trim_prefix (reverse s) (reverse suffix))
