-- ===== src/Discounts/Grants.antt =====
-- What a discount grant may say, and what it takes off a price.
use xdcid.Common.{
  ℕ, ◌-◌, ◌*◌, ◌≤◌, ◌≡◌, ◌↔◌, inl, inr, true, false, int, leb_ℤ, Bool-cases, ◌==◌,
  divide_rounding_up, divide_rounding_up-le_iff, ok, arith, Platform,
}
use xdcid.Names.{parse_xns_name}
use xdcid.Discounts.{
  GrantInput, Grant, is_grant_term, is_negative, build_domain_discount_authorization,
  apply_domain_discount,
}

-- A grant for this name and wallet, within the limits that the contract enforces.
pub record IsGrant (p : Platform) (input : GrantInput) (g : Grant) : Type 0 where
  pub named : (parse_xns_name p.lower input.name).is_valid ≡ true
  pub canonical : g.name ≡ (parse_xns_name p.lower input.name).name
  pub node : g.authorization.node ≡ p.keccak256 g.name
  pub wallet : g.authorization.beneficiary ≡ p.get_address input.beneficiary
  pub wallet_valid : p.is_address input.beneficiary ≡ true
  pub term : is_grant_term (int g.authorization.term_years) ≡ true
  pub discount_low : 1 ≤ g.authorization.discount_bps
  pub discount_high : g.authorization.discount_bps ≤ 10_000
  pub uses_low : 1 ≤ g.authorization.max_uses
  pub uses_high : g.authorization.max_uses ≤ 10
  pub ordered : leb_ℤ g.authorization.deadline g.authorization.valid_after ≡ false
  pub nonce : is_negative g.authorization.nonce ≡ false

-- A grant that is issued names the canonical name, the hash of that name and the checksummed
-- wallet, has a term of 1, 3, 5 or 10 years, takes off between 0.01% and 100%, may be used 1 to 10
-- times, expires after it starts and has a nonce that is not negative.
pub build-IsGrant :
    (p : Platform) (input : GrantInput) (g : Grant)
    → build_domain_discount_authorization p input ≡ ok g
    → IsGrant p input g
unfolding build_domain_discount_authorization
build-IsGrant p input g e = ground arith

-- A valid discount leaves the least price that is not below the discounted one, never above the
-- gross price, and nothing at 100%.
pub apply_domain_discount_least :
    (gross bps : ℕ)
    → bps ≤ 10_000
    → (t : ℕ) × (apply_domain_discount gross (int bps) ≡ ok t)
      × ((q : ℕ) → (t ≤ q) ↔ (gross * (10_000 - bps) ≤ q * 10_000))
      × (t ≤ gross)
unfolding apply_domain_discount
apply_domain_discount_least gross bps h = elim (Bool-cases (bps == 10_000)) [
  | inl all ↦ (0, ground arith, λ q. (λ _. ground arith, λ _. omega arith), omega arith)
  | inr part ↦
      let t = divide_rounding_up (gross * (10_000 - bps)) 10_000 in
      let least = divide_rounding_up-le_iff (gross * (10_000 - bps)) 10_000 in
      (t, ground arith, λ q. least q (omega arith), (least gross (omega arith)).1 (grind arith))
]
