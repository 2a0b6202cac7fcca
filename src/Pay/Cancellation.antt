-- ===== src/Pay/Cancellation.antt =====
-- frontend/lib/paymentCancellation.ts: the id of a payment request and the authorization that cancels
-- it. A returned message and a thrown one are both `err`; viem's `isHex` is a parameter.
pub mod Matching
use xdcid.Common.{
  ℕ, ◌+◌, ◌*◌, Bool, true, false, ◌&&◌, ◌||◌, not, Option, Text, text_eq, length, Number, int,
  value, Result, ok, err, ◌>>=◌, ◌>>◌, throw_if, ltb, ◌==◌, if◌then◌else◌, Platform,
}
use xdcid.Networks.{PaymentNetworkEnvironment}
use xdcid.Pay.Requests.{
  PaymentRequest, encode_payment_request, payment_request_chain_id, is_positive,
}

abbrev pub payment_cancellation_version : ℕ
payment_cancellation_version = 1

abbrev pub payment_cancellation_max_age_seconds : ℕ
payment_cancellation_max_age_seconds = 10 * 60

pub record PaymentRequestCancellation : Type 0 where
  pub version : ℕ
  pub chain_id : ℕ
  pub request_id : Text
  pub name : Text
  pub nonce : Text
  pub cancelled_at : Number

module _ (env : PaymentNetworkEnvironment) (p : Platform) (stringify : PaymentRequest → Text)
    (parse : Text → Option PaymentRequest) where
  unfoldable pub payment_request_id : PaymentRequest → ℕ → Result Text
  payment_request_id r now_seconds = do
    encoded ← encode_payment_request env p stringify parse r now_seconds
    ok (p.keccak256 encoded)

  unfoldable pub create_payment_request_cancellation :
      PaymentRequest → ℕ → ℕ → Result PaymentRequestCancellation
  create_payment_request_cancellation r cancelled_at now_seconds = do
    request_id ← payment_request_id r now_seconds
    ok (record {
      version = payment_cancellation_version;
      chain_id = payment_request_chain_id env;
      request_id = request_id;
      name = r.name;
      nonce = r.nonce;
      cancelled_at = int cancelled_at;
    })

  unfoldable pub validate_payment_request_cancellation :
      (Text → Bool) → PaymentRequestCancellation → PaymentRequest → ℕ → Result (Unit {0})
  validate_payment_request_cancellation is_hex c r now_seconds = do
    throw_if (not (c.version == payment_cancellation_version))
        "Unsupported payment cancellation version."
    throw_if (not (c.chain_id == payment_request_chain_id env) || not (c.chain_id == r.chain_id))
        "Payment cancellation authorization is for the wrong network."
    throw_if (not (is_hex c.request_id) || not (length c.request_id == 66))
        "Payment cancellation request ID is invalid."
    request_id ← payment_request_id r now_seconds
    throw_if (not (text_eq c.request_id request_id))
        "Payment cancellation does not match this request."
    throw_if (not (text_eq c.name r.name) || not (text_eq c.nonce r.nonce))
        "Payment cancellation request details do not match."
    throw_if (not (is_positive c.cancelled_at)) "Payment cancellation time is invalid."
    throw_if (ltb (now_seconds + 300) (value c.cancelled_at))
        "Payment cancellation time is in the future."
    throw_if (ltb (value c.cancelled_at + payment_cancellation_max_age_seconds) now_seconds)
        "Payment cancellation authorization has expired."
