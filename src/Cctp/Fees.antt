-- ===== src/Cctp/Fees.antt =====
-- The fees of a forwarded transfer.
use xdcid.Common.{
  ℕ, zero, suc, ◌+◌, ◌*◌, ◌/◌, ◌≤◌, ◌<◌, ◌≡◌, pos, divide_rounding_up, ok, arith, min, max,
}
use xdcid.Cctp.{
  validate_amount, clamp_fee, calculate_xdcid_convenience_fee, cctp_max_transfer_amount,
}

-- An amount that a transfer may carry.
abbrev pub IsAmount : ℕ → Type 0
IsAmount a = (0 < a) × (a ≤ cctp_max_transfer_amount)

-- The convenience fee of a valid amount is a tenth of a percent, rounded up, but at least 0.10 and
-- at most 5 USDC; and a larger amount never has a smaller fee.
pub calculate_xdcid_convenience_fee_bounds :
    (a b : ℕ)
    → IsAmount a
    → IsAmount b
    → a ≤ b
    → (f g : ℕ) × (calculate_xdcid_convenience_fee (pos a) ≡ ok f)
      × (calculate_xdcid_convenience_fee (pos b) ≡ ok g)
      × (f ≡ max 100_000 (min 5_000_000 (divide_rounding_up a 1_000)))
      × (f ≤ g)
unfolding calculate_xdcid_convenience_fee validate_amount divide_rounding_up
calculate_xdcid_convenience_fee_bounds (suc a) (suc b) h k le = (
  clamp_fee ((suc a * 10 + 9_999) / 10_000),
  clamp_fee ((suc b * 10 + 9_999) / 10_000),
  ground arith,
  ground arith,
  ground arith,
  ground arith,
)
calculate_xdcid_convenience_fee_bounds zero b h k le = absurd (omega arith)
calculate_xdcid_convenience_fee_bounds (suc a) zero h k le = absurd (omega arith)
