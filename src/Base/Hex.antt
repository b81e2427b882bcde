-- ===== src/Base/Hex.antt =====
-- encoding/hex: EncodeToString and DecodeString, on bytes.
use Prim.Native.Nat.{ℕ, ◌+◌, ◌-◌, ◌*◌, ◌/◌, ◌%◌, ◌<◌}
use native.Mathlib.Omega.{arith}
use mathlib.Core.Path.{◌≡◌, refl}
use mathlib.Core.Bool.{◌&&◌}
use mathlib.Core.Option.{Option, none, some}
use mathlib.Core.List.{List, [], ◌∷◌}
use agent_ssh.Base.Tests.{leb, ltb, if◌then◌else◌}
use agent_ssh.Base.Lists.{All, length}
use agent_ssh.Base.Text.{Text}

unfoldable pub hex_digit : ℕ → ℕ
hex_digit n = if ltb n 10 then n + b'0' else n - 10 + b'a'

unfoldable pub encode : List ℕ → Text
unfolding hex_digit
encode [] = []
encode (b ∷ bs) = hex_digit (b / 16) ∷ hex_digit (b % 16) ∷ encode bs

unfoldable pub digit_value : ℕ → Option ℕ
digit_value c =
    if leb b'0' c && leb c b'9'
    then some (c - b'0')
    else if leb b'a' c && leb c b'f'
    then some (c - b'a' + 10)
    else if leb b'A' c && leb c b'F'
    then some (c - b'A' + 10)
    else none

pair : Option ℕ → Option ℕ → Option (List ℕ) → Option (List ℕ)
pair (some h) (some l) (some bs) = some ((h * 16 + l) ∷ bs)
pair _ _ _ = none

unfoldable pub decode : Text → Option (List ℕ)
unfolding pair digit_value
decode [] = some []
decode (c ∷ []) = none
decode (c ∷ d ∷ s) = pair (digit_value c) (digit_value d) (decode s)

abbrev pub IsByte : ℕ → Type 0
IsByte b = b < 256

digit_value-hex_digit : (n : ℕ) → n < 16 → digit_value (hex_digit n) ≡ some n
unfolding digit_value hex_digit
digit_value-hex_digit n h = ground arith

-- What EncodeToString writes, DecodeString reads back.
pub decode-encode : (bs : List ℕ) → All IsByte bs → decode (encode bs) ≡ some bs
unfolding decode encode
decode-encode [] h = refl
decode-encode (b ∷ bs) h =
    ground
      (arith, digit_value-hex_digit (b / 16), digit_value-hex_digit (b % 16), decode-encode bs h.1)

pub length-encode : (bs : List ℕ) → length (encode bs) ≡ 2 * length bs
unfolding encode
length-encode [] = refl
length-encode (b ∷ bs) = omega (arith, length-encode bs)
