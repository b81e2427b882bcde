-- ===== src/Base/Decimal.antt =====
-- The verb %0*d of fmt for a number that fits the width, and the number that its digits stand for.
use Prim.Native.Nat.{ℕ, zero, suc, ◌+◌, ◌-◌, ◌*◌, ◌/◌, ◌%◌, ◌<◌}
use mathlib.Core.Path.{◌≡◌, refl, ap, ◌∙◌}
use mathlib.Core.List.{[], ◌∷◌, ◌++◌}
use native.Mathlib.Omega.{arith}
use agent_ssh.Base.Lists.{length, length-append, All, All-append}
use agent_ssh.Base.Text.{Text}

unfoldable pub ten_to : ℕ → ℕ
ten_to zero = 1
ten_to (suc w) = 10 * ten_to w

-- The last w digits.
unfoldable pub padded : ℕ → ℕ → Text
padded zero n = []
padded (suc w) n = padded w (n / 10) ++ (48 + n % 10) ∷ []

-- The number that digits stand for, behind the digits of `n`.
unfoldable pub digits_value : ℕ → Text → ℕ
digits_value n [] = n
digits_value n (c ∷ s) = digits_value (n * 10 + (c - 48)) s

pub digits_value-++ :
    (n : ℕ) (s t : Text) → digits_value n (s ++ t) ≡ digits_value (digits_value n s) t
unfolding digits_value
digits_value-++ n [] t = refl
digits_value-++ n (c ∷ s) t = digits_value-++ (n * 10 + (c - 48)) s t

-- The digits of a number that fits them stand for it.
pub digits_value-padded : (w n : ℕ) → n < ten_to w → digits_value 0 (padded w n) ≡ n
unfolding ten_to padded digits_value
digits_value-padded zero n h = omega arith
digits_value-padded (suc w) n h =
    let front = digits_value-padded w (n / 10) (omega arith) in
    digits_value-++ 0 (padded w (n / 10)) ((48 + n % 10) ∷ [])
    ∙ ap (λ m. m * 10 + (48 + n % 10 - 48)) front
    ∙ omega arith

pub length-padded : (w n : ℕ) → length (padded w n) ≡ w
unfolding padded
length-padded zero n = refl
length-padded (suc w) n =
    omega (arith, length-append (padded w (n / 10)) ((48 + n % 10) ∷ []), length-padded w (n / 10))

pub padded-digits : (w n : ℕ) → All (λ c. (47 < c) × (c < 58)) (padded w n)
unfolding padded
padded-digits zero n = tt
padded-digits (suc w) n =
    All-append (λ c. (47 < c) × (c < 58)) (padded w (n / 10)) ((48 + n % 10) ∷ [])
      (padded-digits w (n / 10)) ((omega arith, omega arith), tt)
