-- ===== src/Recovery.antt =====
-- frontend/lib/forwardingRecovery.ts: a recovery of an automatic transfer whose fee has been paid.
-- Amounts that the source keeps as decimal text are natural numbers here.
pub mod Store
pub mod Route
pub mod Monitor
mod Tests
use xdcid.Common.{
  ℕ, ◌+◌, ◌-◌, ◌*◌, ◌≤◌, Bool, true, false, ◌&&◌, ◌||◌, not, Option, none, some, List, [], ◌∷◌,
  Text, text, text_eq, trim, all, length, Number, int, neg, other, value, pos, Result, ok, err,
  ◌>>=◌, ◌>>◌, throw_if, or_throw, or_else, leb, ◌==◌, if◌then◌else◌, is_some, Platform,
}
use xdcid.Networks.{PaymentNetworkEnvironment, PaymentNetwork, get_payment_network}
use xdcid.Cctp.{in_range, cctp_max_transfer_amount}
use xdcid.Cctp.Logs.{is_hex_of}

abbrev pub forwarding_recovery_ttl_seconds : ℕ
forwarding_recovery_ttl_seconds = 7 * 24 * 60 * 60

pub record ForwardingRecoveryInput : Type 0 where
  pub fee_transaction_hash : Text
  pub source_chain_id : ℕ
  pub recipient_amount : ℕ
  pub recipient : Text
  pub destination_chain_id : ℕ

pub record ForwardingRecoveryRecord : Type 0 where
  pub fee_transaction_hash : Text
  pub source_chain_id : ℕ
  pub payer : Text
  pub recipient_amount : ℕ
  pub convenience_fee_amount : ℕ
  pub recipient : Text
  pub destination_chain_id : ℕ
  pub created_at : ℕ
  pub expires_at : ℕ

-- The request object: a text field that is no string is `none`, and the chain ids are what
-- `Number` makes of theirs.
pub record RecoveryBody : Type 0 where
  pub fee_transaction_hash : Option Text
  pub recipient_amount : Option Text
  pub recipient : Option Text
  pub source_chain_id : Number
  pub destination_chain_id : Number

-- `isCctpTransactionHash`
abbrev pub is_cctp_transaction_hash : Text → Bool
is_cctp_transaction_hash = is_hex_of 64

is_digit : ℕ → Bool
is_digit c = leb b'0' c && leb c b'9'

-- `/^\d+$/` and `BigInt` of such a text.
unfoldable pub is_digits : Text → Bool
unfolding is_digit
is_digits s = leb 1 (length s) && all is_digit s

unfoldable pub digits_value : ℕ → Text → ℕ
digits_value acc [] = acc
digits_value acc (c ∷ s) = digits_value (acc * 10 + (c - b'0')) s

-- The network of a number, which has none unless it is a natural number.
network_of : PaymentNetworkEnvironment → Number → Option PaymentNetwork
network_of env (int n) = get_payment_network env n
network_of env _ = none

module _ (p : Platform) (env : PaymentNetworkEnvironment) where
  pub parse_forwarding_recovery_input : RecoveryBody → Result ForwardingRecoveryInput
  parse_forwarding_recovery_input body = do
    let fee_transaction_hash = trim (or_else body.fee_transaction_hash [])
    throw_if (not (is_cctp_transaction_hash fee_transaction_hash))
        "Fee transaction hash must be 32-byte hex"
    let amount_text = trim (or_else body.recipient_amount [])
    throw_if (not (is_digits amount_text)) "Recipient amount must be USDC base units"
    recipient_amount ←
        or_throw (in_range cctp_max_transfer_amount (pos (digits_value 0 amount_text)))
          "Recipient amount is outside the supported range"
    recipient_text ← or_throw body.recipient "Recipient must be a valid EVM address"
    throw_if (not (p.is_address recipient_text)) "Recipient must be a valid EVM address"
    throw_if
        (text_eq (p.get_address recipient_text) (text "0x0000000000000000000000000000000000000000"))
        "Recipient must be a non-zero address"
    source ← or_throw (network_of env body.source_chain_id) "Recovery route is not supported"
    destination ←
        or_throw (network_of env body.destination_chain_id) "Recovery route is not supported"
    throw_if (value body.source_chain_id == value body.destination_chain_id)
        "Recovery route is not supported"
    ok (record {
      fee_transaction_hash = fee_transaction_hash;
      source_chain_id = value body.source_chain_id;
      recipient_amount = recipient_amount;
      recipient = p.get_address recipient_text;
      destination_chain_id = value body.destination_chain_id;
    })

unfoldable pub recovery_record_matches :
    Platform → ForwardingRecoveryRecord → ForwardingRecoveryInput → Bool
recovery_record_matches p r input =
    text_eq (p.lower r.fee_transaction_hash) (p.lower input.fee_transaction_hash)
    && r.source_chain_id == input.source_chain_id
    && r.recipient_amount == input.recipient_amount
    && text_eq (p.lower r.recipient) (p.lower input.recipient)
    && r.destination_chain_id == input.destination_chain_id
