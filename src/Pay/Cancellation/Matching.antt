-- ===== src/Pay/Cancellation/Matching.antt =====
-- Which cancellations are accepted.
use xdcid.Common.{
  ℕ, inl, inr, ◌≡◌, ◌+◌, ◌≤◌, ◌<◌, Bool, true, Option, Text, text_eq_self, text_eq_sound, length,
  max_safe_integer, ok, Platform, int, value, arith, Result-cases,
}
use xdcid.Networks.{PaymentNetworkEnvironment}
use xdcid.Pay.Requests.{
  PaymentRequest, payment_request_chain_id, is_positive, encode_payment_request,
  validate_payment_request,
}
use xdcid.Pay.Requests.Validity.{validate-IsRequest}
use xdcid.Pay.Cancellation.{
  PaymentRequestCancellation, payment_request_id, create_payment_request_cancellation,
  validate_payment_request_cancellation,
}

module _ (env : PaymentNetworkEnvironment) (p : Platform) (stringify : PaymentRequest → Text)
    (parse : Text → Option PaymentRequest) (is_hex : Text → Bool) where
  -- The cancellation created for a request at a positive safe time is accepted for the request at
  -- every time at which the request is still valid and which is at most ten minutes after the
  -- cancellation and five minutes before it. A hash is assumed to be hexadecimal with 66 characters.
  pub validate-create :
      ((s : Text) → (is_hex (p.keccak256 s) ≡ true) × (length (p.keccak256 s) ≡ 66))
      → (r : PaymentRequest) (cancelled_at created now : ℕ) (c : PaymentRequestCancellation)
      → create_payment_request_cancellation env p stringify parse r cancelled_at created ≡ ok c
      → validate_payment_request env p r now ≡ ok tt
      → 0 < cancelled_at
      → cancelled_at ≤ max_safe_integer
      → cancelled_at ≤ now + 300
      → now ≤ cancelled_at + 600
      → validate_payment_request_cancellation env p stringify parse is_hex c r now ≡ ok tt
  unfolding create_payment_request_cancellation validate_payment_request_cancellation
      payment_request_id encode_payment_request is_positive
  validate-create hashed r cancelled_at created now c made valid positive safe early late =
      let network = (validate-IsRequest env p r now valid).network in
      elim (Result-cases (validate_payment_request env p r created)) [
        | inr (m, failed) ↦ ground (arith, failed)
        | inl (tt, was_valid) ↦
            let same : c ≡ record {
              version = 1;
              chain_id = payment_request_chain_id env;
              request_id = p.keccak256 (stringify r);
              name = r.name;
              nonce = r.nonce;
              cancelled_at = int cancelled_at;
            } =
              ground (arith, was_valid) in
            rw (same, valid)
              (ground (
                arith,
                network,
                hashed (stringify r),
                text_eq_self r.name,
                text_eq_self r.nonce,
                text_eq_self (p.keccak256 (stringify r)),
              ))
      ]

  -- An accepted cancellation carries the id, the name and the nonce of the request, and its time is
  -- at most five minutes ahead and ten minutes old.
  pub validate-IsFor :
      (c : PaymentRequestCancellation) (r : PaymentRequest) (now : ℕ)
      → validate_payment_request_cancellation env p stringify parse is_hex c r now ≡ ok tt
      → (payment_request_id env p stringify parse r now ≡ ok c.request_id)
        × (c.name ≡ r.name)
        × (c.nonce ≡ r.nonce)
        × (c.chain_id ≡ payment_request_chain_id env)
        × (value c.cancelled_at ≤ now + 300)
        × (now ≤ value c.cancelled_at + 600)
  unfolding validate_payment_request_cancellation
  validate-IsFor c r now e = elim (Result-cases (payment_request_id env p stringify parse r now)) [
    | inr (m, failed) ↦ ground (arith, failed)
    | inl (id, made) ↦ ground (
      arith,
      made,
      text_eq_sound c.request_id id,
      text_eq_sound c.name r.name,
      text_eq_sound c.nonce r.nonce,
    )
  ]
