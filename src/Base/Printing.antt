-- ===== src/Base/Printing.antt =====
-- The verb %d of fmt.
use Prim.Native.Nat.{ℕ, zero, suc, ◌+◌, ◌/◌, ◌%◌}
use mathlib.Core.List.{[], ◌∷◌, ◌++◌}
use agent_ssh.Base.Tests.{if◌then◌else◌, ltb}
use agent_ssh.Base.Int.{ℤ, pos, negsuc}
use agent_ssh.Base.Text.{Text}

-- On fuel; a number has at most as many digits as it counts, but for 0, which has one.
unfoldable pub digits_of : ℕ → ℕ → Text
digits_of zero n = (48 + n % 10) ∷ []
digits_of (suc fuel) n =
    let front = digits_of fuel (n / 10) in
    if ltb n 10 then (48 + n) ∷ [] else front ++ (48 + n % 10) ∷ []

unfoldable pub decimal : ℕ → Text
unfolding digits_of
decimal n = digits_of n n

unfoldable pub print_int : ℤ → Text
unfolding decimal
print_int (pos n) = decimal n
print_int (negsuc n) = b'-' ∷ decimal (n + 1)
