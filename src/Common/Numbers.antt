-- ===== src/Common/Numbers.antt =====
-- JavaScript numbers and bigints, and division that rounds up.
use Prim.Native.Nat.{ℕ, suc, ◌+◌, ◌-◌, ◌*◌, ◌/◌, ◌≤◌, ◌<◌}
use native.Mathlib.Nat.{div-lt_iff_lt-mul}
use mathlib.Core.Logic.{◌↔◌}
use mathlib.Core.Bool.{Bool, true, false}
use native.Mathlib.Omega.{arith}
use xdcid.Common.Tests.{leb}

-- `other` stands for the fractions, the infinities and NaN, which no code modelled here accepts.
pub data Number : Type 0 where
  int : ℕ → Number
  neg : ℕ → Number
  other : Number

abbrev pub max_safe_integer : ℕ
max_safe_integer = 9_007_199_254_740_991

-- `neg n` is the integer -(n + 1).
abbrev pub is_safe_integer : Number → Bool
is_safe_integer (int n) = leb n max_safe_integer
is_safe_integer (neg n) = leb (suc n) max_safe_integer
is_safe_integer other = false

abbrev pub is_integer : Number → Bool
is_integer (int n) = true
is_integer (neg n) = true
is_integer other = false

-- The value of a number that the code has found to be a non-negative integer.
abbrev pub value : Number → ℕ
value (int n) = n
value _ = 0

-- A bigint; `negsuc n` is -(n + 1).
pub data ℤ : Type 0 where
  pos : ℕ → ℤ
  negsuc : ℕ → ℤ

-- `(numerator + denominator - 1n) / denominator` of bigints that are not negative.
unfoldable pub divide_rounding_up : ℕ → ℕ → ℕ
divide_rounding_up numerator denominator = (numerator + denominator - 1) / denominator

-- It is the least number of denominators that covers the numerator.
pub divide_rounding_up-le_iff : (n d q : ℕ) → 0 < d → (divide_rounding_up n d ≤ q) ↔ (n ≤ q * d)
unfolding divide_rounding_up
divide_rounding_up-le_iff n d q h =
    let (to, from) = div-lt_iff_lt-mul {k = d} {x = n + d - 1} {y = suc q} h in
    (
      λ le. let lt : n + d - 1 < suc q * d = to (omega arith) in omega arith,
      λ le. let lt : n + d - 1 < suc q * d = omega arith in omega (arith, from lt),
    )

-- `BigInt(n)` of an integer.
abbrev pub to_bigint : Number → ℤ
to_bigint (int n) = pos n
to_bigint (neg n) = negsuc n
to_bigint other = pos 0

-- `a <= b` of bigints.
abbrev pub leb_ℤ : ℤ → ℤ → Bool
leb_ℤ (pos m) (pos n) = leb m n
leb_ℤ (pos m) (negsuc n) = false
leb_ℤ (negsuc m) (pos n) = true
leb_ℤ (negsuc m) (negsuc n) = leb n m
