-- ===== src/GasFees.antt =====
-- frontend/lib/gasFeePolicy.ts: the fees of a transaction, with a margin over the last block's base fee.
-- The fees are bigints that are not negative.
pub mod Margins
mod Tests
use xdcid.Common.{
  ℕ, ◌+◌, ◌-◌, ◌*◌, ◌/◌, Bool, false, ◌&&◌, ◌||◌, Option, none, some, Text, text, or_else, ltb,
  ◌==◌, if◌then◌else◌, divide_rounding_up, starts_with, [], ◌∷◌,
}

pub record FeePolicy : Type 0 where
  pub minimum_priority_fee_per_gas : ℕ
  pub base_fee_margin_bps : ℕ

-- A field that is missing is `none`.
pub record FeeOverrides : Type 0 where
  pub max_fee_per_gas : Option ℕ
  pub max_priority_fee_per_gas : Option ℕ

pub record BufferedFees : Type 0 where
  pub max_fee : ℕ
  pub priority_fee : ℕ

abbrev pub default_margin_bps : ℕ
default_margin_bps = 2_500

abbrev pub bps_denominator : ℕ
bps_denominator = 10_000

with_minimum : ℕ → Option FeePolicy
with_minimum fee =
    some (record { minimum_priority_fee_per_gas = fee; base_fee_margin_bps = default_margin_bps })

pub get_eip1559_fee_policy : ℕ → Option FeePolicy
unfolding with_minimum
get_eip1559_fee_policy chain_id =
    if chain_id == 1 || chain_id == 11_155_111
    then with_minimum 1_000_000_000
    else if chain_id == 50 || chain_id == 51
    then with_minimum 10_000_000
    else if chain_id == 137 || chain_id == 80_002
    then with_minimum 25_000_000_000
    else if chain_id == 8_453 || chain_id == 84_532
    then with_minimum 1_000_000
    else if chain_id == 42_161 || chain_id == 421_614
    then with_minimum 10_000_000
    else none

-- The estimated priority fee where it is above the minimum.
priority_of : Option ℕ → ℕ → ℕ
priority_of none minimum = minimum
priority_of (some estimated) minimum = if ltb minimum estimated then estimated else minimum

-- Of the base fee, the estimated maximum and the estimated priority fee.
pub calculate_buffered_eip1559_fees : ℕ → Option ℕ → Option ℕ → FeePolicy → BufferedFees
unfolding priority_of divide_rounding_up
calculate_buffered_eip1559_fees base_fee estimated_max estimated_priority policy =
    let priority_fee = priority_of estimated_priority policy.minimum_priority_fee_per_gas in
    let buffered_base_fee =
      divide_rounding_up (base_fee * (bps_denominator + policy.base_fee_margin_bps))
        bps_denominator in
    let buffered_maximum = buffered_base_fee + priority_fee in
    let estimated_maximum = or_else estimated_max 0 in
    record {
      max_fee =
          if ltb buffered_maximum estimated_maximum then estimated_maximum else buffered_maximum;
      priority_fee = priority_fee;
    }

abbrev pub no_overrides : FeeOverrides
no_overrides = record { max_fee_per_gas = none; max_priority_fee_per_gas = none }

-- What the node answers; `none` for a request that fails, and the base fee of a block may be missing.
pub record FeeReadings : Type 0 where
  pub base_fee : Option ℕ
  pub estimated_max : Option ℕ
  pub estimated_priority : Option ℕ

-- Of the network's policy.
overrides_by : Option FeePolicy → Option FeeReadings → FeeOverrides
overrides_by none readings = no_overrides
overrides_by (some policy) none = no_overrides
overrides_by (some policy) (some r) = elim r.base_fee [
  | none ↦ no_overrides
  | some base_fee ↦
      let fees =
        calculate_buffered_eip1559_fees base_fee r.estimated_max r.estimated_priority policy in
      record {
        max_fee_per_gas = some fees.max_fee;
        max_priority_fee_per_gas = some fees.priority_fee;
      }
]

pub estimate_adaptive_gas_fees : ℕ → Option FeeReadings → FeeOverrides
unfolding overrides_by
estimate_adaptive_gas_fees chain_id readings =
    overrides_by (get_eip1559_fee_policy chain_id) readings

-- `s.includes(t)`
includes : Text → Text → Bool
includes [] t = starts_with [] t
includes (c ∷ s) t = starts_with (c ∷ s) t || includes s t

-- Of the lower-case message of the error, which is empty for an error without one.
pub is_base_fee_too_low_error : Text → Bool
unfolding includes
is_base_fee_too_low_error normalized =
    includes normalized (text "max fee per gas less than block base fee")
    || includes normalized (text "fee cap less than block base fee")
    || (includes normalized (text "maxfeepergas") && includes normalized (text "basefee"))
