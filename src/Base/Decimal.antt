-- ===== src/Base/Decimal.antt =====
-- `str(n)` and `int(text, 10)` for natural numbers, and the digits `[0-9]`.
pub mod Laws
use linux_tcp_cc.Base.Compare.{Text, ltb, leb}
use Prim.Native.Nat.{ℕ, zero, suc, ◌+◌, ◌-◌, ◌*◌, ◌/◌, ◌%◌}
use mathlib.Core.Bool.{Bool, true, false, ◌&&◌}
use mathlib.Core.List.{[], ◌∷◌}

abbrev pub is_digit : ℕ → Bool
is_digit c = leb b'0' c && leb c b'9'

-- The fuel is above the number, which every division by ten makes smaller.
unfoldable pub decimal_from : ℕ → ℕ → Text → Text
decimal_from zero n rest = rest
decimal_from (suc fuel) n rest = elim (ltb n 10) [
  | true ↦ (b'0' + n) ∷ rest
  | false ↦ decimal_from fuel (n / 10) ((b'0' + n % 10) ∷ rest)
]

unfoldable pub decimal : ℕ → Text
unfolding decimal_from
decimal n = decimal_from (suc n) n []

-- `int(text, 10)`, for a text of digits.
unfoldable pub value_from : ℕ → Text → ℕ
value_from n [] = n
value_from n (c ∷ text) = value_from (n * 10 + (c - b'0')) text

unfoldable pub int_of : Text → ℕ
unfolding value_from
int_of text = value_from 0 text

-- The longest prefix of digits, and what follows it.
unfoldable pub digit_span : Text → Text × Text
digit_span [] = ([], [])
digit_span (c ∷ text) = elim (is_digit c) [
  | true ↦ let (digits, rest) = digit_span text in (c ∷ digits, rest)
  | false ↦ ([], c ∷ text)
]

-- `[1-9][0-9]*`, for a text that is known to hold digits only.
abbrev pub is_positive_numeral : Text → Bool
is_positive_numeral [] = false
is_positive_numeral (c ∷ _) = leb b'1' c

unfoldable pub all_digits : Text → Bool
all_digits [] = true
all_digits (c ∷ text) = is_digit c && all_digits text
