-- ===== src/GasFees/Tests.antt =====
-- Gas fees: the theorem at a concrete block.
use xdcid.Common.{ℕ, ◌+◌, ◌≡◌, ◌≤◌, refl, none, some, or_else, arith}
use xdcid.GasFees.{FeePolicy, get_eip1559_fee_policy, estimate_adaptive_gas_fees}
use xdcid.GasFees.Margins.{estimate-covers}

abbrev xdc_policy : FeePolicy
xdc_policy = record { minimum_priority_fee_per_gas = 10_000_000; base_fee_margin_bps = 2_500 }

estimate-covers_example :
    (max_fee priority_fee : ℕ) × (estimate_adaptive_gas_fees 50 (
        some (record {
          base_fee = some 12_500_000_001;
          estimated_max = some 20_000_000_000;
          estimated_priority = none;
        }))
      ≡ (record { max_fee_per_gas = some max_fee; max_priority_fee_per_gas = some priority_fee }))
    × (15_625_000_001 + priority_fee ≤ max_fee)
    × (or_else (some 20_000_000_000) 0 ≤ max_fee)
    × (xdc_policy.minimum_priority_fee_per_gas ≤ priority_fee)
    × (or_else none 0 ≤ priority_fee)
unfolding get_eip1559_fee_policy
estimate-covers_example =
    estimate-covers 50 12_500_000_001 15_625_000_001 (some 20_000_000_000) none xdc_policy refl
      (omega arith)
