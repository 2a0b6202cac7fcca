-- ===== src/HistoryPolicy/Tests.antt =====
-- The policy of the payment history: the theorem at a concrete update.
use xdcid.Common.{◌≡◌, refl, true, false, none, some, [], ◌∷◌, text, int}
use xdcid.HistoryPolicy.{PolicyInput, HistoryAccessPolicy, StoredPolicy, PolicyDb, plan_quote}
use xdcid.Common.Doubles.{to_double}

abbrev first_policy : StoredPolicy
first_policy = record {
  policy = record {
    free_history_months = 3;
    maximum_retention_months = 84;
    archive_access_enabled = false;
    subscription_sales_enabled = false;
    archive_grace_days = 7;
    one_year_price_usd_micros = none;
    three_year_discount_bps = 0;
    seven_year_discount_bps = 0;
  };
  updated_at = 0;
  updated_by = none;
}

abbrev first_db : PolicyDb
first_db = record { stored = first_policy; audit = [] }

abbrev sales : PolicyInput
sales = record {
  free_history_months = int 3;
  maximum_retention_months = int 84;
  archive_access_enabled = true;
  subscription_sales_enabled = true;
  archive_grace_days = int 7;
  is_usdc = true;
  one_year_price_usd_micros = some (int 9_990_001);
  three_year_discount_bps = int 1_000;
  seven_year_discount_bps = int 2_500;
}

abbrev sold : StoredPolicy
sold = record {
  policy = record {
    free_history_months = 3;
    maximum_retention_months = 84;
    archive_access_enabled = true;
    subscription_sales_enabled = true;
    archive_grace_days = 7;
    one_year_price_usd_micros = some 9_990_001;
    three_year_discount_bps = 1_000;
    seven_year_discount_bps = 2_500;
  };
  updated_at = 5;
  updated_by = some (text "0xowner");
}

abbrev after : PolicyDb
after = record {
  stored = sold;
  audit =
      (record {
        changed_by = text "0xowner";
        previous_policy = first_policy;
        next_policy = sold.policy;
        changed_at = 5;
      })
      ∷ [];
}

-- A price for which one year costs a millionth of a dollar more than the regular price.
overcharged : plan_quote 1 0 (some 14_535_802_231_287) ≡ record {
  years = 1;
  regular_price_usd_micros = some 14_535_802_231_287;
  discount_bps = 0;
  payable_usd_micros = some 14_535_802_231_288;
}
unfolding plan_quote xdcid.Common.Doubles.to_double xdcid.Common.Doubles.ceil_divide
overcharged = refl

-- Above 2 ^ 53, every second number is a double, and a tie goes to the even one.
rounded :
    (to_double 9_007_199_254_740_993 ≡ 9_007_199_254_740_992)
    × (to_double 9_007_199_254_740_995 ≡ 9_007_199_254_740_996)
unfolding to_double
rounded = (refl, refl)
