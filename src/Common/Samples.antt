-- ===== src/Common/Samples.antt =====
-- A platform for the tests: ASCII letters in lower case, addresses of forty hexadecimal digits, one
-- hash for every text, and whole amounts.
use Prim.Native.Nat.{ℕ, zero, suc, ◌+◌, ◌-◌, ◌*◌, ◌^◌}
use mathlib.Core.Path.{◌≡◌, refl}
use mathlib.Core.Bool.{◌&&◌}
use mathlib.Core.List.{[], ◌∷◌, map}
use mathlib.Core.Option.{some}
use native.Mathlib.Omega.{arith}
use xdcid.Common.Tests.{◌==◌, leb, if◌then◌else◌}
use xdcid.Common.Lists.{length}
use xdcid.Common.Texts.{Text}
use xdcid.Common.External.{Platform}

abbrev pub lower_char : ℕ → ℕ
lower_char c = if leb b'A' c && leb c b'Z' then c + 32 else c

abbrev pub lower_ascii : Text → Text
lower_ascii [] = []
lower_ascii (c ∷ s) = lower_char c ∷ lower_ascii s

pub lower_ascii-twice : (s : Text) → lower_ascii (lower_ascii s) ≡ lower_ascii s
lower_ascii-twice [] = refl
lower_ascii-twice (c ∷ s) = ground (arith, lower_ascii-twice s)

abbrev pub zeros : ℕ → Text
zeros zero = []
zeros (suc n) = b'0' ∷ zeros n

abbrev pub sample_hash : Text
sample_hash = b'0' ∷ b'x' ∷ zeros 64

-- `Number(text)` of decimal digits.
abbrev pub whole : ℕ → Text → ℕ
whole acc [] = acc
whole acc (c ∷ s) = whole (acc * 10 + (c - b'0')) s

abbrev pub sample_platform : Platform
sample_platform = record {
  lower = lower_ascii;
  is_address = λ s. length s == 42;
  get_address = lower_ascii;
  keccak256 = λ s. sample_hash;
  parse_units = λ s decimals. some (whole 0 s * 10 ^ decimals);
}

-- The address 0x followed by forty times the same digit.
abbrev pub address_of : ℕ → Text
address_of c = b'0' ∷ b'x' ∷ map (λ d. d - b'0' + c) (zeros 40)

abbrev pub hash_of : ℕ → Text
hash_of c = b'0' ∷ b'x' ∷ map (λ d. d - b'0' + c) (zeros 64)
