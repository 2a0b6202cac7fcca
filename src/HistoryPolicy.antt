-- ===== src/HistoryPolicy.antt =====
-- frontend/lib/historyAccessPolicy.ts: how long payments are kept, and the prices of the archive. The
-- only currency is USDC. `others` is what other requests do to the tables between the reading of the
-- policy and the transaction that replaces it.
pub mod Ranges
pub mod Quotes
mod Tests
use xdcid.Common.{
  ℕ, ◌+◌, ◌-◌, ◌*◌, Bool, true, false, ◌&&◌, ◌||◌, not, Option, none, some, List, [], ◌∷◌, Text,
  Number, int, neg, value, is_integer, is_safe_integer, ltb, leb, ◌==◌, if◌then◌else◌, Result, err,
  ok, ◌>>=◌, ◌>>◌, throw_if, String, Platform,
}
use xdcid.Common.Doubles.{to_double, ceil_divide}

-- The fields that an administrator sets; `none` for a price that is null.
pub record PolicyInput : Type 0 where
  pub free_history_months : Number
  pub maximum_retention_months : Number
  pub archive_access_enabled : Bool
  pub subscription_sales_enabled : Bool
  pub archive_grace_days : Number
  pub is_usdc : Bool
  pub one_year_price_usd_micros : Option Number
  pub three_year_discount_bps : Number
  pub seven_year_discount_bps : Number

pub record HistoryAccessPolicy : Type 0 where
  pub free_history_months : ℕ
  pub maximum_retention_months : ℕ
  pub archive_access_enabled : Bool
  pub subscription_sales_enabled : Bool
  pub archive_grace_days : ℕ
  pub one_year_price_usd_micros : Option ℕ
  pub three_year_discount_bps : ℕ
  pub seven_year_discount_bps : ℕ

pub record StoredPolicy : Type 0 where
  pub policy : HistoryAccessPolicy
  pub updated_at : ℕ
  pub updated_by : Option Text

pub record AuditEntry : Type 0 where
  pub changed_by : Text
  pub previous_policy : StoredPolicy
  pub next_policy : HistoryAccessPolicy
  pub changed_at : ℕ

-- The one row of the policy, and the audit, newest first.
pub record PolicyDb : Type 0 where
  pub stored : StoredPolicy
  pub audit : List AuditEntry

-- Not an integer between two bounds.
is_outside : ℕ → ℕ → Number → Bool
is_outside low high (int n) = ltb n low || ltb high n
is_outside low high _ = true

-- A price that is not null and not a positive safe integer.
is_bad_price : Option Number → Bool
is_bad_price none = false
is_bad_price (some (int n)) = not (is_safe_integer (int n)) || leb n 0
is_bad_price (some _) = true

is_null : Option Number → Bool
is_null none = true
is_null (some n) = false

pub validate_policy : PolicyInput → Result (Unit {0})
unfolding is_outside is_bad_price is_null
validate_policy input = do
  throw_if (is_outside 1 120 input.free_history_months)
      "Free history must be between 1 and 120 months"
  throw_if (is_outside 12 120 input.maximum_retention_months)
      "Maximum retention must be between 12 and 120 months"
  throw_if (ltb (value input.maximum_retention_months) (value input.free_history_months))
      "Maximum retention cannot be shorter than free history"
  throw_if (is_outside 0 90 input.archive_grace_days) "Archive grace must be between 0 and 90 days"
  throw_if (not input.is_usdc) "Only USDC archive pricing is supported initially"
  throw_if (is_bad_price input.one_year_price_usd_micros)
      "The one-year price must be a positive amount"
  throw_if (is_outside 0 9_000 input.three_year_discount_bps)
      "Three-year discount must be between 0% and 90%"
  throw_if (is_outside 0 9_000 input.seven_year_discount_bps)
      "Seven-year discount must be between 0% and 90%"
  throw_if (ltb (value input.seven_year_discount_bps) (value input.three_year_discount_bps))
      "Seven-year discount cannot be lower than the three-year discount"
  throw_if (input.subscription_sales_enabled && is_null input.one_year_price_usd_micros)
      "Set a one-year price before enabling subscription sales"

price_of : Option Number → Option ℕ
price_of none = none
price_of (some n) = some (value n)

-- The columns of an input that was validated.
pub policy_of : PolicyInput → HistoryAccessPolicy
unfolding price_of
policy_of input = record {
  free_history_months = value input.free_history_months;
  maximum_retention_months = value input.maximum_retention_months;
  archive_access_enabled = input.archive_access_enabled;
  subscription_sales_enabled = input.subscription_sales_enabled;
  archive_grace_days = value input.archive_grace_days;
  one_year_price_usd_micros = price_of input.one_year_price_usd_micros;
  three_year_discount_bps = value input.three_year_discount_bps;
  seven_year_discount_bps = value input.seven_year_discount_bps;
}

-- The transaction of the update and its audit.
replace_policy : Text → PolicyInput → ℕ → StoredPolicy → PolicyDb → PolicyDb
unfolding policy_of
replace_policy updated_by input now previous db = record {
  stored = record { policy = policy_of input; updated_at = now; updated_by = some updated_by };
  audit =
      (record {
        changed_by = updated_by;
        previous_policy = previous;
        next_policy = policy_of input;
        changed_at = now;
      })
      ∷ db.audit;
}

-- The tables after the update and the policy that is read last.
pub update_history_access_policy :
    Platform
    → (PolicyDb → PolicyDb)
    → Text
    → PolicyInput
    → ℕ
    → PolicyDb
    → Result (PolicyDb × StoredPolicy)
unfolding replace_policy
update_history_access_policy p others updated_by input now db =
    validate_policy input >>= (λ checked.
      let db' = replace_policy (p.lower updated_by) input now db.stored (others db) in
      ok (db', db'.stored))

pub record ArchivePlanQuote : Type 0 where
  pub years : ℕ
  pub regular_price_usd_micros : Option ℕ
  pub discount_bps : ℕ
  pub payable_usd_micros : Option ℕ

-- The price of a plan, in doubles as the code computes it: a large price is rounded at each step.
plan_quote : ℕ → ℕ → Option ℕ → ArchivePlanQuote
plan_quote years discount_bps none = record {
  years = years;
  regular_price_usd_micros = none;
  discount_bps = discount_bps;
  payable_usd_micros = none;
}
plan_quote years discount_bps (some price) = record {
  years = years;
  regular_price_usd_micros = some (to_double (price * years));
  discount_bps = discount_bps;
  payable_usd_micros =
      some (ceil_divide (to_double (to_double (price * years) * (10_000 - discount_bps))) 10_000);
}

pub archive_plan_quotes : HistoryAccessPolicy → List ArchivePlanQuote
unfolding plan_quote
archive_plan_quotes policy =
    plan_quote 1 0 policy.one_year_price_usd_micros
    ∷ plan_quote 3 policy.three_year_discount_bps policy.one_year_price_usd_micros
    ∷ plan_quote 7 policy.seven_year_discount_bps policy.one_year_price_usd_micros
    ∷ []
