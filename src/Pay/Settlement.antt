-- ===== src/Pay/Settlement.antt =====
-- frontend/lib/payLinkSettlement.ts: whether a payment settles a payment request. A returned message
-- and a thrown one are both `err`: the caller throws either.
pub mod Claims
use xdcid.Common.{
  ℕ, Bool, true, false, ◌&&◌, ◌||◌, not, Option, Text, text, text_eq, decimal, Result, ok, err,
  ◌>>=◌, ◌>>◌, throw_if, or_throw, ◌==◌, if◌then◌else◌, Platform,
}
use xdcid.Networks.{PaymentNetworkEnvironment}
use xdcid.Pay.{PayToken, native_xdc, usdc, parse_pay_amount}
use xdcid.Pay.Requests.{PaymentRequest, Route, is_native, payment_request_route}
use xdcid.Pay.Cancellation.{payment_request_id}

-- `native` is the claim's token "NATIVE"; otherwise it is "USDC".
pub record PayLinkSettlementClaim : Type 0 where
  pub request_id : Text
  pub name : Text
  pub source_chain_id : ℕ
  pub destination_chain_id : ℕ
  pub native : Bool
  pub amount_atomic : Text
  pub payer : Text

same_bool : Bool → Bool → Bool
same_bool true b = b
same_bool false b = not b

abbrev pub zero_address : Text
zero_address = text "0x0000000000000000000000000000000000000000"

module _ (env : PaymentNetworkEnvironment) (p : Platform) (stringify : PaymentRequest → Text)
    (parse : Text → Option PaymentRequest) where
  unfoldable pub validate_pay_link_settlement_claim :
      PaymentRequest → PayLinkSettlementClaim → ℕ → Result (Unit {0})
  unfolding same_bool
  validate_pay_link_settlement_claim r claim now_seconds = do
    request_id ← payment_request_id env p stringify parse r now_seconds
    throw_if (not (text_eq (p.lower request_id) (p.lower claim.request_id)))
        "Payment does not match this Pay Link request"
    throw_if (not (text_eq r.name claim.name))
        "Payment recipient name does not match this Pay Link request"
    let route = payment_request_route env r
    throw_if
        (not (route.source_chain_id == claim.source_chain_id)
          || not (route.destination_chain_id == claim.destination_chain_id))
        "Payment route does not match this Pay Link request"
    token ← or_throw r.token "Unsupported payment token."
    throw_if (not (same_bool (is_native token) claim.native))
        "Payment asset does not match this Pay Link request"
    amount ← parse_pay_amount p r.amount token
    throw_if (not (text_eq (decimal amount) claim.amount_atomic))
        "Payment amount does not match this Pay Link request"
    throw_if
        (not (text_eq r.payer zero_address)
          && not (text_eq (p.get_address r.payer) (p.get_address claim.payer)))
        "Payment was not made by the designated Pay Link payer"
