-- ===== src/Base/Decimal/Laws.antt =====
-- A printed number is read back, from any text that goes on after it.
use linux_tcp_cc.Base.Compare.{Text, ltb, Bool-cases}
use linux_tcp_cc.Base.Decimal.{
  is_digit, decimal_from, decimal, value_from, int_of, digit_span, is_positive_numeral, all_digits,
}
use Prim.Native.Nat.{ℕ, zero, suc, ◌+◌, ◌/◌, ◌%◌, ◌<◌}
use mathlib.Core.Path.{◌≡◌, refl, ◌∙◌, ap}
use mathlib.Core.Logic.{inl, inr}
use mathlib.Core.Bool.{true, false}
use mathlib.Core.List.{[], ◌∷◌, ◌++◌}
use native.Mathlib.Omega.{arith}

value_from-decimal_from :
    (fuel n : ℕ) (rest : Text)
    → n < fuel
    → value_from 0 (decimal_from fuel n rest) ≡ value_from n rest
unfolding value_from decimal_from
value_from-decimal_from zero n rest h = elim h [ ]
value_from-decimal_from (suc fuel) n rest h = elim (Bool-cases (ltb n 10)) [
  | inl small ↦ rw (small, decimal_from) (ap (λ m. value_from m rest) (omega arith))
  | inr large ↦
      rw (large, decimal_from)
        (value_from-decimal_from fuel (n / 10) ((b'0' + n % 10) ∷ rest) (ground arith)
          ∙ ap (λ m. value_from m rest) (omega arith))
]

pub int_of-decimal : (n : ℕ) → int_of (decimal n) ≡ n
unfolding decimal int_of
int_of-decimal n = value_from-decimal_from (suc n) n [] (omega arith)

all_digits-decimal_from :
    (fuel n : ℕ) (rest : Text)
    → all_digits rest ≡ true
    → all_digits (decimal_from fuel n rest) ≡ true
unfolding all_digits decimal_from
all_digits-decimal_from zero n rest h = h
all_digits-decimal_from (suc fuel) n rest h =
    ground (arith, all_digits-decimal_from fuel (n / 10) ((b'0' + n % 10) ∷ rest))

pub all_digits-decimal : (n : ℕ) → all_digits (decimal n) ≡ true
unfolding decimal all_digits
all_digits-decimal n = all_digits-decimal_from (suc n) n [] refl

is_positive_numeral-decimal_from :
    (fuel n : ℕ) (rest : Text)
    → n < fuel
    → 0 < n
    → is_positive_numeral (decimal_from fuel n rest) ≡ true
unfolding decimal_from
is_positive_numeral-decimal_from zero n rest h p = elim h [ ]
is_positive_numeral-decimal_from (suc fuel) n rest h p =
    ground (arith, is_positive_numeral-decimal_from fuel (n / 10) ((b'0' + n % 10) ∷ rest))

pub is_positive_numeral-decimal : (n : ℕ) → 0 < n → is_positive_numeral (decimal n) ≡ true
unfolding decimal
is_positive_numeral-decimal n p = is_positive_numeral-decimal_from (suc n) n [] (omega arith) p

pub digit_span-append :
    (digits : Text) (c : ℕ) (rest : Text)
    → all_digits digits ≡ true
    → is_digit c ≡ false
    → digit_span (digits ++ (c ∷ rest)) ≡ (digits, c ∷ rest)
unfolding digit_span all_digits
digit_span-append [] c rest h e = ground arith
digit_span-append (d ∷ digits) c rest h e = ground (arith, digit_span-append digits c rest)
