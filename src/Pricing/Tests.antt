-- ===== src/Pricing/Tests.antt =====
-- Prices: the theorems at concrete prices.
use xdcid.Common.{
  ℕ, ◌≡◌, ◌≢◌, ◌↔◌, ◌≤◌, ◌*◌, ◌^◌, refl, Option, none, some, int, pos, Result, ok, arith,
}
use xdcid.Pricing.{
  PricingProduct, registration, migration, PriceInput, UsdPriceBreakdown, calculate_usd_price,
  calculate_buffered_xdc_wei,
}
use xdcid.Pricing.Bounds.{IsExact, calculate_usd_price-IsExact}

abbrev three_years : PriceInput
three_years = record { product = registration; years = some (int 3); label_length = some (int 4) }

abbrev priced : ℕ → ℕ → ℕ → UsdPriceBreakdown
priced years discount total = record {
  policy_version = 2;
  product = registration;
  years = some years;
  annual_usd_micros = some 10_000_000;
  gross_usd_micros = 10_000_000 * years;
  discount_bps = discount;
  total_usd_micros = total;
}

calculate_usd_price-IsExact_example : IsExact (priced 3 1_000 27_000_000)
unfolding calculate_usd_price xdcid.Pricing.is_registration_term xdcid.Pricing.annual_for
    xdcid.Pricing.annual_name_price_usd_micros xdcid.Pricing.breakdown
    xdcid.Pricing.discount_bps_by_term xdcid.Common.divide_rounding_up
calculate_usd_price-IsExact_example =
    calculate_usd_price-IsExact three_years (priced 3 1_000 27_000_000) refl

registration-migration : registration ≢ migration
registration-migration e = cc e
