-- ===== src/Common/Doubles.antt =====
-- JavaScript numbers that are natural numbers below 2 ^ 80: what a product and a rounded-up quotient
-- are as doubles of 53 bits, ties rounded to even.
use Prim.Native.Nat.{ℕ, zero, suc, ◌+◌, ◌*◌, ◌/◌, ◌%◌, ◌^◌, ◌≤◌, ◌<◌}
use mathlib.Core.Path.{◌≡◌, refl}
use mathlib.Core.Logic.{◌⊎◌, inl, inr}
use mathlib.Core.Bool.{Bool, true, false, ◌&&◌, ◌||◌}
use native.Mathlib.Omega.{arith}
use xdcid.Common.Tests.{ltb, leb, ◌==◌, if◌then◌else◌, Bool-cases, ==_iff}
use xdcid.Common.Numbers.{divide_rounding_up}

-- 2 ^ 53, below which every natural number is a double.
abbrev pub exact_limit : ℕ
exact_limit = 9_007_199_254_740_992

-- The greatest power of two that is at most n, of those up to 2 ^ k.
leading : ℕ → ℕ → ℕ
leading zero n = 1
leading (suc k) n = let rest = leading k n in if leb (2 ^ suc k) n then 2 ^ suc k else rest

-- The natural number nearest to n / d, the even one of two.
round_even : ℕ → ℕ → ℕ
round_even n d =
    let q = n / d in if ltb (n % d * 2) d || (n % d * 2 == d && q % 2 == 0) then q else q + 1

-- The double nearest to a natural number.
unfoldable pub to_double : ℕ → ℕ
unfolding leading round_even
to_double n =
    if ltb n exact_limit
    then n
    else (let unit = leading 79 n / (exact_limit / 2) in round_even n unit * unit)

-- Whether the double nearest to q + r / d is q, for q below 2 ^ 53 and d below it too: half a unit of
-- the last place of q is the leading power over 2 ^ 53.
rounds_down : ℕ → ℕ → ℕ → Bool
unfolding leading
rounds_down q r d =
    let lead = leading 79 q in
    ltb (exact_limit * r) (d * lead)
    || (exact_limit * r == d * lead && (ltb lead (exact_limit / 2) || q % 2 == 0))

-- `Math.ceil(n / d)` of doubles.
unfoldable pub ceil_divide : ℕ → ℕ → ℕ
unfolding leading round_even rounds_down
ceil_divide n d =
    let q = n / d in
    if ltb q exact_limit
    then (if n % d == 0 || rounds_down q (n % d) d then q else q + 1)
    else (let unit = leading 79 q / (exact_limit / 2) in round_even n (d * unit) * unit)

pub to_double_exact : (n : ℕ) → n < exact_limit → to_double n ≡ n
unfolding to_double
to_double_exact n h = ground arith

leading-le : (k n : ℕ) → (leading k n ≤ n) ⊎ (leading k n ≡ 1)
unfolding leading
leading-le zero n = inr refl
leading-le (suc k) n = elim (Bool-cases (leb (2 ^ suc k) n)) [
  | inl below ↦ inl (rw (below, leading) (ground arith))
  | inr above ↦ rw (above, leading) (leading-le k n)
]

leading_small :
    (n q r lead : ℕ)
    → n ≡ q * 10_000 + r
    → n < exact_limit
    → 1 ≤ r
    → (lead ≤ q) ⊎ (lead ≡ 1)
    → 10_000 * lead < exact_limit * r
leading_small n q r lead e h k (inl le) = omega arith
leading_small n q r lead e h k (inr one) = omega arith

above : (a b : ℕ) → b < a → (ltb a b ≡ false) × ((a == b) ≡ false)
above a b h = (ground arith, ground arith)

below_lem : (q : ℕ) → q < exact_limit → ltb q exact_limit ≡ true
below_lem q h = ground arith

not_zero : (r : ℕ) → (r == 0) ≡ false → 1 ≤ r
not_zero r e = ground arith

rounds_up :
    (n : ℕ)
    → n < exact_limit
    → 1 ≤ n % 10_000
    → rounds_down (n / 10_000) (n % 10_000) 10_000 ≡ false
unfolding rounds_down
rounds_up n h r =
    let (less, same) = above (exact_limit * (n % 10_000)) (10_000 * leading 79 (n / 10_000)) (
      leading_small n (n / 10_000) (n % 10_000) (leading 79 (n / 10_000)) (omega arith) h r
        (leading-le 79 (n / 10_000))) in
    rw (less, same) refl

-- Below 2 ^ 53, a quotient by ten thousand is rounded up exactly.
pub ceil_divide_exact :
    (n : ℕ) → n < exact_limit → ceil_divide n 10_000 ≡ divide_rounding_up n 10_000
unfolding ceil_divide divide_rounding_up
ceil_divide_exact n h =
    let below : ltb (n / 10_000) exact_limit ≡ true = below_lem (n / 10_000) (omega arith) in
    elim (Bool-cases (n % 10_000 == 0)) [
      | inl whole ↦
          rw (below, whole) (let none_left = (==_iff (n % 10_000) 0).0 whole in omega arith)
      | inr part ↦
          let some_left : 1 ≤ n % 10_000 = not_zero (n % 10_000) part in
          rw (below, part, rounds_up n h some_left) (omega arith)
    ]
