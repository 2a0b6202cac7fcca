-- ===== src/Pricing/Bounds.antt =====
-- Prices: when there is one, its bounds, and how it moves with the term and the label.
use xdcid.Common.{
  ℕ, zero, suc, ◌-◌, ◌*◌, ◌^◌, ◌≤◌, ◌<◌, ◌≡◌, refl, ◌↔◌, ◌⊎◌, inl, inr, true, Option, none, some,
  Number, int, neg, other, pos, divide_rounding_up, divide_rounding_up-le_iff, ok, arith,
  Result-cases, subst, sym, value, ◌≢◌, ◌∙◌,
}
use xdcid.Pricing.{
  PricingProduct, subdomain, migration, UsdPriceBreakdown, PriceInput, is_term,
  is_registration_term, annual_price_of, annual_name_price_usd_micros, annual_for, breakdown,
  term_price, price_of, calculate_usd_price, calculate_buffered_xdc_wei, discount_bps_by_term,
}

-- A breakdown whose total is its gross price less exactly the discount.
pub record IsExact (b : UsdPriceBreakdown) : Type 0 where
  pub exact : b.total_usd_micros * 10_000 ≡ b.gross_usd_micros * (10_000 - b.discount_bps)
  pub at_most_gross : b.total_usd_micros ≤ b.gross_usd_micros
  pub not_free : 0 < b.total_usd_micros

annual_price_cases :
    (n : ℕ)
    → (annual_price_of n ≡ 50_000_000)
      ⊎ (annual_price_of n ≡ 20_000_000)
      ⊎ (annual_price_of n ≡ 10_000_000)
      ⊎ (annual_price_of n ≡ 5_000_000)
unfolding annual_price_of
annual_price_cases n = ground arith

-- Every annual price is a multiple of this, and so no discount leaves a remainder.
breakdown-IsExact :
    (product : PricingProduct) (y k : ℕ)
    → is_term y ≡ true
    → IsExact (breakdown product y (suc k * 1_000_000))
unfolding breakdown discount_bps_by_term divide_rounding_up
breakdown-IsExact product y k h = ground arith

-- A whole number of dollars, at least one.
abbrev Dollars : ℕ → Type 0
Dollars a = (k : ℕ) × (a ≡ suc k * 1_000_000)

annual_price-Dollars : (n : ℕ) → Dollars (annual_price_of n)
annual_price-Dollars n = elim (annual_price_cases n) [
  | inl e ↦ (49, rw e)
  | inr (inl e) ↦ (19, rw e)
  | inr (inr (inl e)) ↦ (9, rw e)
  | inr (inr (inr e)) ↦ (4, rw e)
]

named_price-Dollars : (n : Number) (a : ℕ) → annual_name_price_usd_micros n ≡ ok a → Dollars a
unfolding annual_name_price_usd_micros
named_price-Dollars n a e =
    let priced : annual_price_of (value n) ≡ a = ground arith in
    subst Dollars priced (annual_price-Dollars (value n))

annual-Dollars :
    (p : PricingProduct) (l : Option Number) (a : ℕ) → annual_for p l ≡ ok a → Dollars a
unfolding annual_for
annual-Dollars subdomain l a e = (0, ground arith)
annual-Dollars _ l a e = named_price-Dollars _ a e

-- A price for a term is the breakdown of an annual price.
term_price_inv :
    (p : PricingProduct) (l : Option Number) (y : Number) (b : UsdPriceBreakdown)
    → term_price p l y ≡ ok b
    → (a : ℕ) × (is_registration_term y ≡ true)
      × (annual_for p l ≡ ok a)
      × (breakdown p (value y) a ≡ b)
unfolding term_price
term_price_inv p l y b e = elim (Result-cases (annual_for p l)) [
  | inl (a, priced) ↦ (a, ground arith, priced, ground arith)
  | inr (m, refused) ↦ absurd (ground arith)
]

term_price-IsExact :
    (p : PricingProduct) (l : Option Number) (y : Number) (b : UsdPriceBreakdown)
    → term_price p l y ≡ ok b
    → IsExact b
unfolding is_registration_term
term_price-IsExact p l (int y) b e =
    let (a, term, priced, same) = term_price_inv p l (int y) b e in
    let (k, dollars) = annual-Dollars p l a priced in
    let exact : IsExact (breakdown p y a) =
      subst (λ (d : ℕ). IsExact (breakdown p y d)) (sym dollars) (breakdown-IsExact p y k term) in
    subst IsExact same exact
term_price-IsExact p l (neg y) b e = absurd (cc (term_price_inv p l (neg y) b e).1)
term_price-IsExact p l other b e = absurd (cc (term_price_inv p l other b e).1)

-- Every price that is quoted is positive, at most the gross price, and the discounted price exactly:
-- no micro-dollar is gained or lost by rounding.
pub calculate_usd_price-IsExact :
    (input : PriceInput) (b : UsdPriceBreakdown) → calculate_usd_price input ≡ ok b → IsExact b
unfolding calculate_usd_price
calculate_usd_price-IsExact input b e = go input.product input.years input.label_length e
  where
    go :
        (p : PricingProduct) (y : Option Number) (l : Option Number)
        → price_of p y l ≡ ok b
        → IsExact b
    go migration y l e = record {
      exact = ground arith;
      at_most_gross = ground arith;
      not_free = ground arith;
    }
    go p none l e = absurd (ground arith)
    go p (some y) l e = term_price-IsExact p l y b e

-- The price of the longer term is the higher one, and the lower one a year.
abbrev pub Order : UsdPriceBreakdown → UsdPriceBreakdown → ℕ → ℕ → Type 0
Order b c y z =
    (b.total_usd_micros < c.total_usd_micros) × (c.total_usd_micros * y < b.total_usd_micros * z)

breakdown-Order :
    (p : PricingProduct) (y z k : ℕ)
    → is_term y ≡ true
    → is_term z ≡ true
    → y < z
    → Order (breakdown p y (suc k * 1_000_000)) (breakdown p z (suc k * 1_000_000)) y z
unfolding breakdown discount_bps_by_term divide_rounding_up
breakdown-Order p y z k h g lt = ground arith

price_of_term :
    (p : PricingProduct) (l : Option Number) (y : Number)
    → p ≢ migration
    → term_price p l y ≡ price_of p (some y) l
unfolding price_of
price_of_term migration l y named = absurd (named refl)
price_of_term _ l y named = refl

-- The same name costs more for a longer term, and less a year.
pub term_price-Order :
    (p : PricingProduct) (l : Option Number) (y z : ℕ) (b c : UsdPriceBreakdown)
    → y < z
    → p ≢ migration
    → calculate_usd_price (record { product = p; years = some (int y); label_length = l }) ≡ ok b
    → calculate_usd_price (record { product = p; years = some (int z); label_length = l }) ≡ ok c
    → Order b c y z
unfolding calculate_usd_price is_registration_term
term_price-Order p l y z b c lt named e f =
    let (a, term_y, priced, same_b) =
      term_price_inv p l (int y) b (price_of_term p l (int y) named ∙ e) in
    let (d, term_z, again, same_c) =
      term_price_inv p l (int z) c (price_of_term p l (int z) named ∙ f) in
    let (k, dollars) = annual-Dollars p l a priced in
    let same : d ≡ a = ground (arith, priced, again) in
    let order : Order (breakdown p y a) (breakdown p z d) y z =
      rw (same, dollars) (breakdown-Order p y z k term_y term_z lt) in
    subst (λ t. Order t c y z) same_b (subst (λ t. Order (breakdown p y a) t y z) same_c order)

-- What is charged in XDC is the least amount of wei that, at the price given, covers the price in
-- dollars with two percent on top.
pub calculate_buffered_xdc_wei_least :
    (total price : ℕ)
    → 0 < total
    → 0 < price
    → (w : ℕ) × (calculate_buffered_xdc_wei (pos total) (pos price) ≡ ok w)
      × ((q : ℕ) → (w ≤ q) ↔ (total * 10 ^ 18 * 10_200 ≤ q * (price * 10_000)))
unfolding calculate_buffered_xdc_wei
calculate_buffered_xdc_wei_least (suc t) (suc p) h k = (
  divide_rounding_up (suc t * 10 ^ 18 * 10_200) (suc p * 10_000),
  refl,
  λ q. divide_rounding_up-le_iff _ _ q (omega arith),
)
calculate_buffered_xdc_wei_least zero p h k = absurd (omega arith)
calculate_buffered_xdc_wei_least (suc t) zero h k = absurd (omega arith)
