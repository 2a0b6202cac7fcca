-- ===== src/HistoryPolicy/Ranges.antt =====
-- What a policy has to be for an administrator to store it.
use xdcid.Common.{
  ℕ, ◌≡◌, ◌≤◌, refl, Bool, throw_if, true, false, ◌&&◌, not, Option, none, some, Number, int, value,
  ltb, or_else, is_some, arith, ok, throw_if-eq-ok,
}
use xdcid.HistoryPolicy.{
  PolicyInput, HistoryAccessPolicy, is_outside, is_bad_price, is_null, validate_policy, policy_of,
  price_of,
}

-- A policy whose numbers are in the ranges that the administration allows.
pub record IsPolicy (policy : HistoryAccessPolicy) : Type 0 where
  pub free :
      (1 ≤ policy.free_history_months)
      × (policy.free_history_months ≤ policy.maximum_retention_months)
  pub retention : (12 ≤ policy.maximum_retention_months) × (policy.maximum_retention_months ≤ 120)
  pub grace : policy.archive_grace_days ≤ 90
  pub discounts :
      (policy.three_year_discount_bps ≤ policy.seven_year_discount_bps)
      × (policy.seven_year_discount_bps ≤ 9_000)
  pub price : (1 ≤ or_else policy.one_year_price_usd_micros 1)
  pub sold :
      (policy.subscription_sales_enabled && not (is_some policy.one_year_price_usd_micros)) ≡ false

in_range :
    (low high : ℕ) (n : Number) → is_outside low high n ≡ false → (low ≤ value n) × (value n ≤ high)
unfolding is_outside
in_range low high (int n) h = (ground arith, ground arith)
in_range low high (Number.neg n) h = absurd (cc h)
in_range low high Number.other h = absurd (cc h)

good_price : (price : Option Number) → is_bad_price price ≡ false → 1 ≤ or_else (price_of price) 1
unfolding is_bad_price price_of
good_price none h = omega arith
good_price (some (int n)) h = ground arith
good_price (some (Number.neg n)) h = absurd (cc h)
good_price (some Number.other) h = absurd (cc h)

priced :
    (enabled : Bool) (price : Option Number)
    → throw_if (enabled && is_null price) "Set a one-year price before enabling subscription sales"
      ≡ ok tt
    → (enabled && not (is_some (price_of price))) ≡ false
unfolding is_null price_of
priced true none e = absurd (cc e)
priced true (some n) e = refl
priced false price e = refl

pub validate-IsPolicy :
    (input : PolicyInput) → validate_policy input ≡ ok tt → IsPolicy (policy_of input)
unfolding validate_policy policy_of
validate-IsPolicy input e =
    let (free, e1) =
      throw_if-eq-ok (is_outside 1 120 input.free_history_months)
        "Free history must be between 1 and 120 months" _ e in
    let (retention, e2) =
      throw_if-eq-ok (is_outside 12 120 input.maximum_retention_months)
        "Maximum retention must be between 12 and 120 months" _ e1 in
    let (longer, e3) =
      throw_if-eq-ok (ltb (value input.maximum_retention_months) (value input.free_history_months))
        "Maximum retention cannot be shorter than free history" _ e2 in
    let (grace, e4) =
      throw_if-eq-ok (is_outside 0 90 input.archive_grace_days)
        "Archive grace must be between 0 and 90 days" _ e3 in
    let (usdc, e5) =
      throw_if-eq-ok (not input.is_usdc) "Only USDC archive pricing is supported initially" _ e4 in
    let (price, e6) =
      throw_if-eq-ok (is_bad_price input.one_year_price_usd_micros)
        "The one-year price must be a positive amount" _ e5 in
    let (three, e7) =
      throw_if-eq-ok (is_outside 0 9_000 input.three_year_discount_bps)
        "Three-year discount must be between 0% and 90%" _ e6 in
    let (seven, e8) =
      throw_if-eq-ok (is_outside 0 9_000 input.seven_year_discount_bps)
        "Seven-year discount must be between 0% and 90%" _ e7 in
    let (ordered, e9) =
      throw_if-eq-ok
        (ltb (value input.seven_year_discount_bps) (value input.three_year_discount_bps))
        "Seven-year discount cannot be lower than the three-year discount" _ e8 in
    let (free_low, free_high) = in_range 1 120 input.free_history_months free in
    let (kept_low, kept_high) = in_range 12 120 input.maximum_retention_months retention in
    let (_, grace_high) = in_range 0 90 input.archive_grace_days grace in
    let (_, seven_high) = in_range 0 9_000 input.seven_year_discount_bps seven in
    record {
      free = (free_low, ground (arith, longer));
      retention = (kept_low, kept_high);
      grace = grace_high;
      discounts = (ground (arith, ordered), seven_high);
      price = good_price input.one_year_price_usd_micros price;
      sold = priced input.subscription_sales_enabled input.one_year_price_usd_micros e9;
    }
