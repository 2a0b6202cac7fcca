-- ===== src/Pay.antt =====
-- frontend/lib/paylinks.ts: the amounts, memos and expiry times of payment links. `parse_units` of the
-- platform stands for viem's `parseUnits`.
pub mod Requests
pub mod Settlement
pub mod Cancellation
pub mod Links
mod Tests
use xdcid.Common.{
  ℕ, String, ◌+◌, ◌*◌, ◌-◌, Bool, true, false, ◌&&◌, ◌||◌, not, Option, none, some, List, [], ◌∷◌,
  Text, text, trim, length, all, drop, split, Result, ok, err, ◌>>=◌, ◌>>◌, throw_if, or_throw, leb,
  ltb, ◌==◌, if◌then◌else◌, Platform, max_safe_integer,
}
use xdcid.Recovery.{is_digits, digits_value}

pub data PayToken : Type 0 where
  native_xdc usdc : PayToken

pub pay_token_decimals : PayToken → ℕ
pay_token_decimals native_xdc = 18
pay_token_decimals usdc = 6

decimals_error : PayToken → String
decimals_error native_xdc = "XDC supports up to 18 decimal places."
decimals_error usdc = "USDC supports up to 6 decimal places."

-- `/^\d+(?:\.\d+)?$/`
is_decimal_parts : List Text → Bool
is_decimal_parts (whole ∷ []) = is_digits whole
is_decimal_parts (whole ∷ fraction ∷ []) = is_digits whole && is_digits fraction
is_decimal_parts _ = false

-- `amount.split(".")[1] ?? ""`
fraction_of : List Text → Text
fraction_of (_ ∷ fraction ∷ _) = fraction
fraction_of _ = []

positive_error : Option ℕ → Option String
positive_error none = some "Enter a valid amount."
positive_error (some units) = if units == 0 then some "Amount must be greater than zero." else none

module _ (p : Platform) where
  -- The checks of an amount that has been trimmed and is not empty.
  amount_error : Text → PayToken → Option String
  unfolding is_decimal_parts fraction_of pay_token_decimals decimals_error positive_error
  amount_error amount token =
      if ltb 80 (length amount) || not (is_decimal_parts (split b'.' amount))
      then some "Enter a positive decimal amount without signs or scientific notation."
      else if ltb (pay_token_decimals token) (length (fraction_of (split b'.' amount)))
      then some (decimals_error token)
      else positive_error (p.parse_units amount (pay_token_decimals token))

  unfoldable pub validate_pay_amount : Text → PayToken → Option String
  unfolding amount_error
  validate_pay_amount value token =
      if leb (length (trim value)) 0
      then some "Enter an amount."
      else amount_error (trim value) token

  unfoldable pub parse_pay_amount : Text → PayToken → Result ℕ
  unfolding validate_pay_amount pay_token_decimals
  parse_pay_amount value token = elim (validate_pay_amount value token) [
    | some message ↦ err message
    | none ↦ or_throw (p.parse_units (trim value) (pay_token_decimals token)) "parseUnits"
  ]

abbrev pub max_pay_memo_length : ℕ
max_pay_memo_length = 120

unfoldable pub validate_pay_memo : Text → Option String
validate_pay_memo value =
    if ltb max_pay_memo_length (length value)
    then some "Memo must be 120 characters or fewer."
    else none

-- The timestamps of more digits than a safe integer has are unsafe: `Number` rounds them to at least
-- 2 ^ 53.
unfoldable pub validate_pay_expiry : Option Text → ℕ → Option String
validate_pay_expiry none now_seconds = none
validate_pay_expiry (some []) now_seconds = none
validate_pay_expiry (some (c ∷ s)) now_seconds =
    let timestamp = digits_value 0 (c ∷ s) in
    if not (is_digits (c ∷ s))
    then some "Payment link expiry is invalid."
    else if ltb max_safe_integer timestamp || timestamp == 0
    then some "Payment link expiry is invalid."
    else if leb timestamp now_seconds
    then some "This payment request has expired."
    else none
