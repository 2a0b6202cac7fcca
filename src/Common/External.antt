-- ===== src/Common/External.antt =====
-- What the program takes from viem and from the JavaScript runtime, as parameters. No law stands
-- here: a theorem that relies on one names it among its hypotheses.
use Prim.Native.Nat.{ℕ}
use mathlib.Core.Bool.{Bool}
use mathlib.Core.Option.{Option}
use xdcid.Common.Texts.{Text}

pub record Platform : Type 0 where
  -- `toLowerCase`
  pub lower : Text → Text
  -- `isAddress` and `getAddress`; the second is called on texts that the first accepts
  pub is_address : Text → Bool
  pub get_address : Text → Text
  -- `keccak256(toBytes(text))`
  pub keccak256 : Text → Text
  -- `parseUnits`, with `none` where it throws
  pub parse_units : Text → ℕ → Option ℕ
