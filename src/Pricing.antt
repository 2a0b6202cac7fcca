-- ===== src/Pricing.antt =====
-- frontend/lib/pricingPolicy.ts: prices in millionths of a dollar and in wei. Prices are never
-- negative, so a bigint that holds one is a natural number where no test on its sign is made.
pub mod Bounds
mod Tests
use xdcid.Common.{
  ℕ, zero, suc, ◌+◌, ◌-◌, ◌*◌, ◌^◌, Bool, true, false, ◌||◌, not, Option, none, some, Number, int,
  neg, other, is_safe_integer, value, ℤ, pos, negsuc, divide_rounding_up, Result, ok, err, ◌>>=◌,
  ◌>>◌, throw_if, or_throw, or_else, ltb, ◌==◌, if◌then◌else◌,
}

abbrev pub basis_points : ℕ
basis_points = 10_000

pub data PricingProduct : Type 0 where
  registration renewal subdomain migration : PricingProduct

abbrev pub pricing_policy_version : ℕ
pricing_policy_version = 2

-- `PRICING_POLICY`.
abbrev pub two_character_annual_usd_micros : ℕ
two_character_annual_usd_micros = 50_000_000

abbrev pub three_character_annual_usd_micros : ℕ
three_character_annual_usd_micros = 20_000_000

abbrev pub four_character_annual_usd_micros : ℕ
four_character_annual_usd_micros = 10_000_000

abbrev pub standard_annual_usd_micros : ℕ
standard_annual_usd_micros = 5_000_000

abbrev pub subdomain_annual_usd_micros : ℕ
subdomain_annual_usd_micros = 1_000_000

abbrev pub migration_usd_micros : ℕ
migration_usd_micros = 3_000_000

abbrev pub xdc_quote_buffer_bps : ℕ
xdc_quote_buffer_bps = 200

-- The table is read at a supported term only.
unfoldable pub discount_bps_by_term : ℕ → ℕ
discount_bps_by_term years =
    if years == 3 then 1_000 else if years == 5 then 1_500 else if years == 10 then 2_000 else 0

pub record UsdPriceBreakdown : Type 0 where
  pub policy_version : ℕ
  pub product : PricingProduct
  pub years : Option ℕ
  pub annual_usd_micros : Option ℕ
  pub gross_usd_micros : ℕ
  pub discount_bps : ℕ
  pub total_usd_micros : ℕ

abbrev pub is_term : ℕ → Bool
is_term n = n == 1 || n == 3 || n == 5 || n == 10

unfoldable pub is_registration_term : Number → Bool
is_registration_term (int n) = is_term n
is_registration_term _ = false

annual_price_of : ℕ → ℕ
annual_price_of n =
    if n == 2
    then two_character_annual_usd_micros
    else if n == 3
    then three_character_annual_usd_micros
    else if n == 4
    then four_character_annual_usd_micros
    else standard_annual_usd_micros

is_label_length : Number → Bool
is_label_length (int n) = not (not (is_safe_integer (int n)) || ltb n 2 || ltb 63 n)
is_label_length _ = false

unfoldable pub annual_name_price_usd_micros : Number → Result ℕ
unfolding annual_price_of is_label_length
annual_name_price_usd_micros label_length = do
  throw_if (not (is_label_length label_length)) "label length must be between 2 and 63"
  ok (annual_price_of (value label_length))

pub record PriceInput : Type 0 where
  pub product : PricingProduct
  pub years : Option Number
  pub label_length : Option Number

annual_for : PricingProduct → Option Number → Result ℕ
annual_for subdomain label_length = ok subdomain_annual_usd_micros
annual_for _ label_length = annual_name_price_usd_micros (or_else label_length (int 0))

breakdown : PricingProduct → ℕ → ℕ → UsdPriceBreakdown
breakdown product years annual =
    let gross = annual * years in
    let discount = discount_bps_by_term years in
    record {
      policy_version = pricing_policy_version;
      product = product;
      years = some years;
      annual_usd_micros = some annual;
      gross_usd_micros = gross;
      discount_bps = discount;
      total_usd_micros = divide_rounding_up (gross * (basis_points - discount)) basis_points;
    }

term_price : PricingProduct → Option Number → Number → Result UsdPriceBreakdown
term_price product label_length years = do
  throw_if (not (is_registration_term years)) "years must be one of 1, 3, 5, or 10"
  annual ← annual_for product label_length
  ok (breakdown product (value years) annual)

price_of : PricingProduct → Option Number → Option Number → Result UsdPriceBreakdown
unfolding term_price
price_of migration years label_length = ok (record {
  policy_version = pricing_policy_version;
  product = migration;
  years = none;
  annual_usd_micros = none;
  gross_usd_micros = migration_usd_micros;
  discount_bps = 0;
  total_usd_micros = migration_usd_micros;
})
price_of product none label_length = err "years must be one of 1, 3, 5, or 10"
price_of product (some years) label_length = term_price product label_length years

pub calculate_usd_price : PriceInput → Result UsdPriceBreakdown
unfolding price_of
calculate_usd_price input = price_of input.product input.years input.label_length

-- A bigint that is positive.
unfoldable pub positive : ℤ → Option ℕ
positive (pos zero) = none
positive (pos (suc n)) = some (suc n)
positive (negsuc n) = none

pub calculate_buffered_xdc_wei : ℤ → ℤ → Result ℕ
unfolding positive
calculate_buffered_xdc_wei total_usd_micros xdc_usd_micros = do
  total ← or_throw (positive total_usd_micros) "USD price must be positive"
  price ← or_throw (positive xdc_usd_micros) "XDC price must be positive"
  ok (
      divide_rounding_up (total * 10 ^ 18 * (basis_points + xdc_quote_buffer_bps))
        (price * basis_points))
