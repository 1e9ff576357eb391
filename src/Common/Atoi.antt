-- ===== src/Common/Atoi.antt =====
-- strconv.Atoi on a 64-bit machine; its error is `none`.
use Prim.Native.Nat.{ℕ, ◌+◌, ◌-◌, ◌*◌, ◌^◌}
use mathlib.Core.Path.{◌≡◌, refl}
use mathlib.Core.Bool.{◌&&◌}
use mathlib.Core.Option.{Option, none, some}
use mathlib.Core.List.{[], ◌∷◌}
use clean_architect.Common.Tests.{ltb, leb, nat_beq, if◌then◌else◌}
use clean_architect.Common.Texts.{Text, txt}
use clean_architect.Common.Int.{ℤ, pos, negsuc, neg}

-- The digits of `s` after those that make `n`.
digits_value : ℕ → Text → Option ℕ
digits_value n [] = some n
digits_value n (c ∷ s) = if leb 48 c && leb c 57 then digits_value (n * 10 + (c - 48)) s else none

unsigned_value : Text → Option ℕ
unfolding digits_value
unsigned_value [] = none
unsigned_value (c ∷ s) = digits_value 0 (c ∷ s)

in_int64 : Option ℕ → Option ℤ
in_int64 none = none
in_int64 (some n) = if ltb n (2 ^ 63) then some (pos n) else none

negated_in_int64 : Option ℕ → Option ℤ
negated_in_int64 none = none
negated_in_int64 (some n) = if leb n (2 ^ 63) then some (neg n) else none

unfoldable pub atoi : Text → Option ℤ
unfolding unsigned_value in_int64 negated_in_int64
atoi [] = none
atoi (c ∷ s) =
    if nat_beq c 45
    then negated_in_int64 (unsigned_value s)
    else if nat_beq c 43
    then in_int64 (unsigned_value s)
    else in_int64 (unsigned_value (c ∷ s))

test_atoi :
    (atoi (txt "-12") ≡ some (negsuc 11))
    × (atoi (txt "+007") ≡ some (pos 7))
    × (atoi (txt "9223372036854775808") ≡ none)
    × (atoi (txt "1a") ≡ none)
    × (atoi [] ≡ none)
unfolding atoi
test_atoi = (refl, refl, refl, refl, refl)
