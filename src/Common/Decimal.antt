-- ===== src/Common/Decimal.antt =====
-- Decimal text: `%d` of fmt, and `strconv.Atoi` on the digits that a pattern has matched.
use Prim.Native.Nat.{ℕ, zero, suc, ◌+◌, ◌-◌, ◌*◌, ◌/◌, ◌%◌, ◌^◌, ◌≤◌, ◌<◌}
use mathlib.Core.Path.{◌≡◌, refl}
use mathlib.Core.Bool.{Bool, true, ◌&&◌}
use mathlib.Core.List.{[], ◌∷◌, ◌++◌}
use native.Mathlib.Omega.{arith}
use serverpouch.Common.Tests.{ltb, leb, if◌then◌else◌}
use serverpouch.Common.Lists.{every, occupied}
use serverpouch.Common.Equality.{ℤ, pos, negsuc}
use serverpouch.Common.Results.{Result, ok, err}
use serverpouch.Common.Text.{Bytes, codes}

abbrev pub max_int : ℕ
max_int = 2 ^ 63 - 1

-- `\d`
abbrev pub is_digit : ℕ → Bool
is_digit c = leb b'0' c && leb c b'9'

-- The digits of `n` in front of `out`; the fuel exceeds `n`.
emit : ℕ → ℕ → Bytes → Bytes
emit zero n out = out
emit (suc f) n out =
    let shown = (b'0' + n % 10) ∷ out in
    let rest = emit f (n / 10) shown in if ltb n 10 then shown else rest

pub format : ℕ → Bytes
unfolding emit
format n = emit (suc n) n []

-- `%d`
unfoldable pub format_int : ℤ → Bytes
unfolding format emit
format_int (pos n) = format n
format_int (negsuc n) = b'-' ∷ format (suc n)

-- The value of a text of digits that stands behind the number `n`.
abbrev pub value_from : ℕ → Bytes → ℕ
value_from n [] = n
value_from n (c ∷ s) = value_from (n * 10 + (c - b'0')) s

-- The number is refused if it exceeds `int`. The text is that of the wrapped `strconv` error.
unfoldable pub atoi : Bytes → Result ℤ
atoi s =
    if leb (value_from 0 s) max_int
    then ok (pos (value_from 0 s))
    else err (codes "strconv.Atoi: parsing \"" ++ s ++ codes "\": value out of range")

value_from-emit : (f n : ℕ) (out : Bytes) → n < f → value_from 0 (emit f n out) ≡ value_from n out
unfolding emit
value_from-emit zero n out h = elim h [ ]
value_from-emit (suc f) n out h = ground (arith, value_from-emit f (n / 10) ((b'0' + n % 10) ∷ out))

every-emit :
    (f n : ℕ) (out : Bytes) → every is_digit out ≡ true → every is_digit (emit f n out) ≡ true
unfolding emit
every-emit zero n out h = h
every-emit (suc f) n out h = ground (arith, every-emit f (n / 10) ((b'0' + n % 10) ∷ out))

occupied-emit : (f n : ℕ) (out : Bytes) → occupied out ≡ true → occupied (emit f n out) ≡ true
unfolding emit
occupied-emit zero n out h = h
occupied-emit (suc f) n out h = ground (arith, occupied-emit f (n / 10) ((b'0' + n % 10) ∷ out))

occupied-emit-suc : (f n : ℕ) (out : Bytes) → occupied (emit (suc f) n out) ≡ true
unfolding emit
occupied-emit-suc f n out = ground (arith, occupied-emit f (n / 10) ((b'0' + n % 10) ∷ out))

-- The print of a number that is not negative is a nonempty text of digits.
pub format_int-every : (n : ℕ) → every is_digit (format_int (pos n)) ≡ true
unfolding format_int
format_int-every n = every-emit (suc n) n [] refl

pub format_int-occupied : (n : ℕ) → occupied (format_int (pos n)) ≡ true
unfolding format_int
format_int-occupied n = occupied-emit-suc n n []

-- Every `int` that is not negative is read back from its print.
pub atoi-format_int : (n : ℕ) → n ≤ max_int → atoi (format_int (pos n)) ≡ ok (pos n)
unfolding atoi format_int
atoi-format_int n h = ground (arith, value_from-emit (suc n) n [])

format_8080 : format_int (pos 8080) ≡ codes "8080"
unfolding format_int
format_8080 = refl
