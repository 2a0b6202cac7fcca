-- ===== src/GasFees/Margins.antt =====
-- What the fees cover.
use xdcid.Common.{
  ℕ, ◌+◌, ◌*◌, ◌≡◌, ◌≤◌, ap, sym, subst, Option, none, some, or_else, divide_rounding_up,
  divide_rounding_up-le_iff, arith,
}
use xdcid.GasFees.{
  FeePolicy, priority_of, with_minimum, overrides_by, get_eip1559_fee_policy,
  estimate_adaptive_gas_fees, calculate_buffered_eip1559_fees,
}

priority_of-le :
    (estimated : Option ℕ) (minimum : ℕ)
    → (minimum ≤ priority_of estimated minimum)
      × (or_else estimated 0 ≤ priority_of estimated minimum)
unfolding priority_of
priority_of-le none minimum = (omega arith, omega arith)
priority_of-le (some e) minimum = ground arith

buffered-covers :
    (base_fee grown : ℕ) (estimated_max estimated_priority : Option ℕ) (policy : FeePolicy)
    → grown * 10_000 ≤ base_fee * (10_000 + policy.base_fee_margin_bps)
    → let fees = calculate_buffered_eip1559_fees base_fee estimated_max estimated_priority policy in
      (grown + fees.priority_fee ≤ fees.max_fee)
      × (or_else estimated_max 0 ≤ fees.max_fee)
      × (policy.minimum_priority_fee_per_gas ≤ fees.priority_fee)
      × (or_else estimated_priority 0 ≤ fees.priority_fee)
unfolding calculate_buffered_eip1559_fees
buffered-covers base_fee grown estimated_max estimated_priority policy h =
    let (least, estimate) = priority_of-le estimated_priority policy.minimum_priority_fee_per_gas in
    let scaled = base_fee * (10_000 + policy.base_fee_margin_bps) in
    let (to, _) =
      divide_rounding_up-le_iff scaled 10_000 (divide_rounding_up scaled 10_000) (omega arith) in
    let covered : scaled ≤ divide_rounding_up scaled 10_000 * 10_000 = to (omega arith) in
    let below : grown ≤ divide_rounding_up scaled 10_000 = omega (arith, covered, h) in
    (ground (arith, below), ground arith, least, estimate)

policy-margin :
    (chain_id : ℕ) (policy : FeePolicy)
    → get_eip1559_fee_policy chain_id ≡ some policy
    → policy.base_fee_margin_bps ≡ 2_500
unfolding get_eip1559_fee_policy with_minimum
policy-margin chain_id policy e = ground (arith, e)

-- On a network that has a policy, when the node answers with a base fee, both fees are overridden: the
-- maximum still covers the priority fee when the base fee has grown by a quarter, the priority fee
-- is at least the policy's minimum, and neither is below the node's own estimate.
pub estimate-covers :
    (chain_id base_fee grown : ℕ) (estimated_max estimated_priority : Option ℕ) (policy : FeePolicy)
    → get_eip1559_fee_policy chain_id ≡ some policy
    → grown * 4 ≤ base_fee * 5
    → (max_fee priority_fee : ℕ) × (estimate_adaptive_gas_fees chain_id (
          some (record {
            base_fee = some base_fee;
            estimated_max = estimated_max;
            estimated_priority = estimated_priority;
          }))
        ≡ (record { max_fee_per_gas = some max_fee; max_priority_fee_per_gas = some priority_fee }))
      × (grown + priority_fee ≤ max_fee)
      × (or_else estimated_max 0 ≤ max_fee)
      × (policy.minimum_priority_fee_per_gas ≤ priority_fee)
      × (or_else estimated_priority 0 ≤ priority_fee)
unfolding estimate_adaptive_gas_fees overrides_by
estimate-covers chain_id base_fee grown estimated_max estimated_priority policy e h =
    let margin = policy-margin chain_id policy e in
    let fees = calculate_buffered_eip1559_fees base_fee estimated_max estimated_priority policy in
    let (covers, most, least, estimate) =
      buffered-covers base_fee grown estimated_max estimated_priority policy
        (subst (λ m. grown * 10_000 ≤ base_fee * (10_000 + m)) (sym margin) (omega (arith, h))) in
    let answered =
      ap
        (λ o. overrides_by o (
          some (record {
            base_fee = some base_fee;
            estimated_max = estimated_max;
            estimated_priority = estimated_priority;
          })))
        e in
    (fees.max_fee, fees.priority_fee, answered, covers, most, least, estimate)
