-- ===== src/Cctp.antt =====
-- frontend/lib/cctpMainnet.ts: amounts and fees of a cross-chain USDC transfer.
pub mod Fees
pub mod Requests
pub mod Logs
mod Tests
use xdcid.Common.{
  ℕ, zero, suc, ◌+◌, ◌-◌, ◌*◌, ◌/◌, ◌^◌, Bool, true, false, ◌&&◌, ◌||◌, not, Option, none, some,
  List, [], ◌∷◌, ◌++◌, String, Text, text, text_eq, trim, split, drop, length, all, ℤ, pos, negsuc,
  Result, ok, err, ◌>>=◌, ◌>>◌, throw_if, or_throw, ltb, leb, ◌==◌, if◌then◌else◌, Platform,
}
use xdcid.Networks.{PaymentNetworkEnvironment, PaymentNetwork, get_payment_network}

abbrev pub cctp_standard_finality_threshold : ℕ
cctp_standard_finality_threshold = 2_000

abbrev pub xdc_apothem_chain_id : ℕ
xdc_apothem_chain_id = 51

abbrev pub xdc_apothem_cctp_receive_gas_limit : ℕ
xdc_apothem_cctp_receive_gas_limit = 1_000_000

unfoldable pub get_cctp_receive_gas_limit : ℕ → Option ℕ
get_cctp_receive_gas_limit chain_id =
    if chain_id == xdc_apothem_chain_id then some xdc_apothem_cctp_receive_gas_limit else none

abbrev pub xdcid_convenience_fee_bps : ℕ
xdcid_convenience_fee_bps = 10

abbrev pub xdcid_min_convenience_fee : ℕ
xdcid_min_convenience_fee = 100_000

abbrev pub xdcid_max_convenience_fee : ℕ
xdcid_max_convenience_fee = 5_000_000

abbrev pub cctp_max_transfer_amount : ℕ
cctp_max_transfer_amount = 10_000_000 * 10 ^ 6

-- A bigint in the range `0n < amount <= limit`.
unfoldable pub in_range : ℕ → ℤ → Option ℕ
in_range limit (pos zero) = none
in_range limit (pos (suc n)) = if ltb limit (suc n) then none else some (suc n)
in_range limit (negsuc n) = none

unfoldable pub validate_amount : ℤ → Result ℕ
unfolding in_range
validate_amount amount =
    or_throw (in_range cctp_max_transfer_amount amount)
      "USDC amount must be greater than zero and at most 10 million"

clamp_fee : ℕ → ℕ
clamp_fee percentage_fee =
    if ltb percentage_fee xdcid_min_convenience_fee
    then xdcid_min_convenience_fee
    else if ltb xdcid_max_convenience_fee percentage_fee
    then xdcid_max_convenience_fee
    else percentage_fee

unfoldable pub calculate_xdcid_convenience_fee : ℤ → Result ℕ
unfolding clamp_fee
calculate_xdcid_convenience_fee amount = do
  checked_amount ← validate_amount amount
  ok (clamp_fee ((checked_amount * xdcid_convenience_fee_bps + 9_999) / 10_000))

-- A rate in basis points is a floating-point number, of which the code uses two things.
pub record FeeRates : Type 1 where
  pub Rate : Type 0
  -- `Number.isFinite(rate) && rate >= 0 && rate <= 10_000`
  pub is_rate : Rate → Bool
  -- `Math.round(rate * 100)`
  pub hundredths : Rate → ℕ

module _ (rates : FeeRates) where
  unfoldable pub calculate_cctp_protocol_fee : ℤ → rates.Rate → Result ℕ
  calculate_cctp_protocol_fee amount minimum_fee_bps = do
    checked_amount ← validate_amount amount
    throw_if (not (rates.is_rate minimum_fee_bps)) "Circle returned an invalid protocol fee"
    ok ((checked_amount * rates.hundredths minimum_fee_bps + 999_999) / 1_000_000)

is_digit : ℕ → Bool
is_digit c = leb b'0' c && leb c b'9'

-- `(0|[1-9]\d*)`
is_whole : Text → Bool
unfolding is_digit
is_whole [] = false
is_whole (c ∷ s) = if c == b'0' then text_eq s [] else is_digit c && all is_digit s

-- `\d{1,6}`
is_fraction : Text → Bool
unfolding is_digit
is_fraction s = leb 1 (length s) && leb (length s) 6 && all is_digit s

-- `/^(0|[1-9]\d*)(\.\d{1,6})?$/`, by the parts between the dots.
matches_usdc_parts : List Text → Bool
matches_usdc_parts (w ∷ []) = is_whole w
matches_usdc_parts (w ∷ f ∷ []) = is_whole w && is_fraction f
matches_usdc_parts _ = false

unfoldable pub matches_usdc_amount : Text → Bool
unfolding matches_usdc_parts is_whole is_fraction
matches_usdc_amount s = matches_usdc_parts (split b'.' s)

module _ (p : Platform) where
  -- `parseUnits` throws on no text that the pattern lets through; its error would be the one here.
  unfoldable pub parse_mainnet_usdc_amount : Text → Result ℕ
  unfolding matches_usdc_amount
  parse_mainnet_usdc_amount value = do
    let amount = trim value
    throw_if (not (matches_usdc_amount amount)) "USDC amount must use no more than 6 decimal places"
    units ← or_throw (p.parse_units amount 6) "parseUnits"
    validate_amount (pos units)

  unfoldable pub require_address : Text → Result Text
  require_address value = do
    throw_if (not (p.is_address value)) "Recipient must be a valid EVM address"
    throw_if (text_eq (p.get_address value) (text "0x0000000000000000000000000000000000000000"))
        "Recipient must be a non-zero address"
    ok (p.get_address value)

  -- `"0x" + address.slice(2).toLowerCase().padStart(64, "0")`
  abbrev pad_start : ℕ → Text → Text
  pad_start zero s = s
  pad_start (suc n) s = b'0' ∷ pad_start n s

  unfoldable pub address_to_bytes32 : Text → Result Text
  address_to_bytes32 value = do
    address ← require_address value
    let digits = p.lower (drop 2 address)
    ok (text "0x" ++ pad_start (64 - length digits) digits)

unfoldable pub require_network : PaymentNetworkEnvironment → ℕ → Result PaymentNetwork
require_network env chain_id =
    or_throw (get_payment_network env chain_id) "Unsupported CCTP mainnet"
