-- ===== src/Pay/Settlement/Claims.antt =====
-- What an accepted claim of a payment agrees with.
use xdcid.Common.{
  ℕ, sym, ◌≡◌, ◌⊎◌, inl, inr, Option, some, Text, text_eq_sound, decimal, ok, Platform, arith,
  Result-cases, Option-cases,
}
use xdcid.Networks.{PaymentNetworkEnvironment}
use xdcid.Pay.{PayToken, parse_pay_amount}
use xdcid.Pay.Requests.{PaymentRequest, is_native, payment_request_route}
use xdcid.Pay.Cancellation.{payment_request_id}
use xdcid.Pay.Settlement.{PayLinkSettlementClaim, validate_pay_link_settlement_claim, zero_address}

module _ (env : PaymentNetworkEnvironment) (p : Platform) (stringify : PaymentRequest → Text)
    (parse : Text → Option PaymentRequest) where
  pub record Settles (r : PaymentRequest) (claim : PayLinkSettlementClaim) (now : ℕ) : Type 0 where
    pub identified :
        (id : Text) × (payment_request_id env p stringify parse r now ≡ ok id)
        × (p.lower id ≡ p.lower claim.request_id)
    pub named : r.name ≡ claim.name
    pub source : (payment_request_route env r).source_chain_id ≡ claim.source_chain_id
    pub destination :
        (payment_request_route env r).destination_chain_id ≡ claim.destination_chain_id
    pub amount :
        (token : PayToken) × (n : ℕ) × (r.token ≡ some token)
        × (is_native token ≡ claim.native)
        × (parse_pay_amount p r.amount token ≡ ok n)
        × (claim.amount_atomic ≡ decimal n)
    pub payer : (r.payer ≡ zero_address) ⊎ (p.get_address r.payer ≡ p.get_address claim.payer)

  -- An accepted claim is of the request with its id, its name, its route, its asset and its exact
  -- amount in base units, and the payer is the designated one, or the request designates none.
  pub validate_claim-Settles :
      (r : PaymentRequest) (claim : PayLinkSettlementClaim) (now : ℕ)
      → validate_pay_link_settlement_claim env p stringify parse r claim now ≡ ok tt
      → Settles r claim now
  unfolding validate_pay_link_settlement_claim
  validate_claim-Settles r claim now e =
      elim (Result-cases (payment_request_id env p stringify parse r now)) [
        | inr (m, failed) ↦ ground (arith, failed)
        | inl (id, made) ↦ elim (Option-cases r.token) [
          | inl missing ↦ ground (arith, made, missing)
          | inr (token, known) ↦ elim (Result-cases (parse_pay_amount p r.amount token)) [
            | inr (m, failed) ↦ ground (arith, made, known, failed)
            | inl (n, parsed) ↦ record {
              identified = (id, made, text_eq_sound _ _ (ground (arith, made, known, parsed)));
              named = text_eq_sound _ _ (ground (arith, made, known, parsed));
              source = ground (arith, made, known, parsed);
              destination = ground (arith, made, known, parsed);
              amount = (
                token,
                n,
                known,
                ground (arith, made, known, parsed),
                parsed,
                sym (
                    text_eq_sound (decimal n) claim.amount_atomic
                      (ground (arith, made, known, parsed))),
              );
              payer = ground (
                arith,
                made,
                known,
                parsed,
                text_eq_sound r.payer zero_address,
                text_eq_sound (p.get_address r.payer) (p.get_address claim.payer),
              );
            }
          ]
        ]
      ]
