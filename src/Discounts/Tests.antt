-- ===== src/Discounts/Tests.antt =====
-- Discounts: the theorems at concrete grants.
use xdcid.Common.{ℕ, ◌≡◌, ◌↔◌, ◌≤◌, ◌*◌, ◌-◌, refl, none, some, text, int, pos, Result, ok, arith}
use xdcid.Common.Samples.{sample_platform, sample_hash, address_of}
use xdcid.Discounts.{GrantInput, Grant, renews, build_domain_discount_authorization}
use xdcid.Discounts.Grants.{IsGrant, build-IsGrant}

abbrev half_off : GrantInput
half_off = record {
  name = text "Alice";
  beneficiary = address_of b'A';
  product = some renews;
  term_years = int 5;
  discount_bps = int 5_000;
  max_uses = int 2;
  valid_after = int 100;
  deadline = int 200;
  nonce = pos 7;
}

abbrev half_grant : Grant
half_grant = record {
  name = text "alice.xdc";
  authorization = record {
    node = sample_hash;
    beneficiary = address_of b'a';
    product = renews;
    term_years = 5;
    discount_bps = 5_000;
    max_uses = 2;
    valid_after = pos 100;
    deadline = pos 200;
    nonce = pos 7;
  };
}

build-IsGrant_example : IsGrant sample_platform half_off half_grant
unfolding build_domain_discount_authorization xdcid.Names.parse_xns_name xdcid.Common.ends_with
    xdcid.Common.trim xdcid.Names.is_label_char xdcid.Common.starts_with
build-IsGrant_example = build-IsGrant sample_platform half_off half_grant refl
