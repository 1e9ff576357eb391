-- ===== src/Common/Decimal.antt =====
-- The verb %d of package fmt on an unsigned number.
use Prim.Native.Nat.{ℕ, zero, suc, ◌+◌, ◌/◌, ◌%◌, ◌<◌, ◌≤◌}
use mathlib.Core.Path.{◌≡◌, refl, ap}
use mathlib.Core.Logic.{inl, inr}
use mathlib.Core.Bool.{false}
use native.Mathlib.Omega.{arith}
use mathlib.Core.List.{[], ◌∷◌, ◌++◌}
use clean_architect.Common.Tests.{Bool-cases, ltb, if◌then◌else◌}
use clean_architect.Common.Texts.{Text}

-- The decimal digits of `n`; `decimal` gives more fuel than there are digits.
decimal_digits : ℕ → ℕ → Text
decimal_digits zero n = []
decimal_digits (suc fuel) n =
    let higher = decimal_digits fuel (n / 10) ++ ((48 + n % 10) ∷ []) in
    if ltb n 10 then (48 + n) ∷ [] else higher

unfoldable pub decimal : ℕ → Text
unfolding decimal_digits
decimal n = decimal_digits (suc n) n

-- Any fuel above `n` gives the same digits.
decimal_digits-fuel : (f g n : ℕ) → n < f → n < g → decimal_digits f n ≡ decimal_digits g n
unfolding decimal_digits
decimal_digits-fuel zero g n h k = absurd (omega arith)
decimal_digits-fuel (suc f) zero n h k = absurd (omega arith)
decimal_digits-fuel (suc f) (suc g) n h k = elim (Bool-cases (ltb n 10)) [
  | inl e ↦ rw e refl
  | inr e ↦ rw e (
      ap (λ (s : Text). s ++ ((48 + n % 10) ∷ []))
        (decimal_digits-fuel f g (n / 10) (below f n h e) (below g n k e)))
]
  where
    below : (f n : ℕ) → n < suc f → ltb n 10 ≡ false → n / 10 < f
    below f n h e = ground arith

-- The fuel is enough: the digits of a number from 10 on are those of its tenth and its last digit.
pub decimal_step : (n : ℕ) → 10 ≤ n → decimal n ≡ decimal (n / 10) ++ ((48 + n % 10) ∷ [])
unfolding decimal
decimal_step n h = elim (Bool-cases (ltb n 10)) [
  | inl e ↦ absurd (ground arith)
  | inr e ↦ rw e (
      ap (λ (s : Text). s ++ ((48 + n % 10) ∷ []))
        (decimal_digits-fuel n (suc (n / 10)) (n / 10) (omega (arith, h)) (omega arith)))
]

test_decimal : decimal 8071 ≡ 56 ∷ 48 ∷ 55 ∷ 49 ∷ []
unfolding decimal
test_decimal = refl
