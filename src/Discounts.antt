-- ===== src/Discounts.antt =====
-- frontend/lib/domainDiscounts.ts: signed discount authorizations and the price that they leave.
pub mod Grants
mod Tests
use xdcid.Common.{
  ℕ, zero, suc, ◌-◌, ◌*◌, Bool, true, false, ◌||◌, ◌&&◌, not, Option, none, some, String, Text,
  Number, int, neg, other, ℤ, pos, negsuc, is_integer, is_safe_integer, to_bigint, leb_ℤ, value,
  divide_rounding_up, Result, ok, err, ◌>>=◌, ◌>>◌, throw_if, or_else, ltb, leb, ◌==◌,
  if◌then◌else◌, Platform,
}
use xdcid.Names.{parse_xns_name}

-- `product` is 0 for a registration and 1 for a renewal.
pub data DiscountProduct : Type 0 where
  registers renews : DiscountProduct

pub record DomainDiscountAuthorization : Type 0 where
  pub node : Text
  pub beneficiary : Text
  pub product : DiscountProduct
  pub term_years : ℕ
  pub discount_bps : ℕ
  pub max_uses : ℕ
  pub valid_after : ℤ
  pub deadline : ℤ
  pub nonce : ℤ

pub record GrantInput : Type 0 where
  pub name : Text
  pub beneficiary : Text
  pub product : Option DiscountProduct
  pub term_years : Number
  pub discount_bps : Number
  pub max_uses : Number
  pub valid_after : Number
  pub deadline : Number
  pub nonce : ℤ

pub record Grant : Type 0 where
  pub name : Text
  pub authorization : DomainDiscountAuthorization

-- `[1, 3, 5, 10].includes(n)`.
abbrev pub is_grant_term : Number → Bool
is_grant_term (int n) = n == 1 || n == 3 || n == 5 || n == 10
is_grant_term _ = false

-- `Number.isInteger(n)`, and `low <= n <= high` for bounds that are not negative.
abbrev pub within : ℕ → ℕ → Number → Bool
within low high (int n) = leb low n && leb n high
within low high _ = false

abbrev is_negative : ℤ → Bool
is_negative (pos n) = false
is_negative (negsuc n) = true

module _ (p : Platform) where
  pub build_domain_discount_authorization : GrantInput → Result Grant
  build_domain_discount_authorization input =
      let parsed = parse_xns_name p.lower input.name in
      do
        throw_if (not parsed.is_valid) (or_else parsed.error "Invalid XDCID name")
        throw_if (not (p.is_address input.beneficiary)) "Enter a valid beneficiary wallet address"
        throw_if (not (is_grant_term input.term_years)) "Term must be 1, 3, 5, or 10 years"
        throw_if (not (within 1 10_000 input.discount_bps))
            "Discount must be between 0.01% and 100%"
        throw_if (not (within 1 10 input.max_uses)) "Maximum uses must be between 1 and 10"
        throw_if (not (is_safe_integer input.valid_after) || not (is_safe_integer input.deadline))
            "Grant validity is invalid"
        throw_if (leb_ℤ (to_bigint input.deadline) (to_bigint input.valid_after))
            "Grant expiry must be after its start"
        throw_if (is_negative input.nonce) "Grant nonce is invalid"
        ok (record {
          name = parsed.name;
          authorization = record {
            node = p.keccak256 parsed.name;
            beneficiary = p.get_address input.beneficiary;
            product = or_else input.product registers;
            term_years = value input.term_years;
            discount_bps = value input.discount_bps;
            max_uses = value input.max_uses;
            valid_after = to_bigint input.valid_after;
            deadline = to_bigint input.deadline;
            nonce = input.nonce;
          };
        })

pub apply_domain_discount : ℕ → Number → Result ℕ
apply_domain_discount gross_usd_micros discount_bps = do
  throw_if (not (within 0 10_000 discount_bps)) "Discount basis points are invalid"
  ok (
      if value discount_bps == 10_000
      then 0
      else divide_rounding_up (gross_usd_micros * (10_000 - value discount_bps)) 10_000)
