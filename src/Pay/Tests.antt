-- ===== src/Pay/Tests.antt =====
-- Payment requests and links: the theorems at a concrete request.
use xdcid.Common.{
  ℕ, ◌≡◌, ◌≢◌, ◌⊎◌, ◌≤◌, ◌<◌, ◌+◌, refl, true, false, Option, none, some, is_some, any, find, List,
  [], ◌∷◌, String, Text, text, int, value, Result, ok, err, Platform, arith,
}
use xdcid.Common.Samples.{sample_platform, sample_hash, whole, address_of, hash_of}
use xdcid.Networks.{mainnet, ethereum, polygon}
use xdcid.Pay.{usdc}
use xdcid.Pay.Requests.{
  PaymentRequest, routed, standard, validate_payment_request, decode_payment_request,
  encode_payment_request, payment_request_chain_id,
}
use xdcid.Pay.Requests.Validity.{IsRequest, validate-IsRequest, decode-encode}
use xdcid.Pay.Cancellation.{
  PaymentRequestCancellation, payment_request_id, create_payment_request_cancellation,
  validate_payment_request_cancellation,
}
use xdcid.Pay.Cancellation.Matching.{validate-create, validate-IsFor}
use xdcid.Pay.Settlement.{PayLinkSettlementClaim, zero_address}
use xdcid.Pay.Settlement.Claims.{Settles, validate_claim-Settles}
use xdcid.Pay.Links.{PayLink, LinkDb, has_id, get_stored_pay_link, RevokeResult}
use xdcid.Pay.Links.Settling.{Settlement, settled_link, settle_stored_pay_link}
use xdcid.Pay.Links.Settling.Outcomes.{is_payable, settle-IsPaid, settle-late}
use xdcid.Pay.Links.Payments.{SamePayment}
use xdcid.Pay.Links.Payments.Histories.{Reaches, nothing, then, reads, revokes, reaches-SamePayment}

-- Amounts in base units.
abbrev units_platform : Platform
units_platform = record sample_platform { parse_units = λ s decimals. some (whole 0 s) }

abbrev invoice : PaymentRequest
invoice = record {
  version = routed 1 137 standard;
  chain_id = 50;
  name = text "alice.xdc";
  amount = text "5";
  token = some usdc;
  reference = text "invoice 7";
  description = [];
  payer = zero_address;
  issued_at = int 1_000;
  expires = int 2_000;
  nonce = hash_of b'1';
}

abbrev print_nothing : PaymentRequest → Text
print_nothing r = text "0x"

abbrev parse_invoice : Text → Option PaymentRequest
parse_invoice s = some invoice

validate-IsRequest_example : IsRequest mainnet units_platform invoice 1_500
unfolding validate_payment_request payment_request_chain_id xdcid.Names.parse_xns_name
    xdcid.Common.ends_with xdcid.Common.trim xdcid.Names.is_label_char xdcid.Common.starts_with
    xdcid.Pay.validate_pay_amount xdcid.Common.split xdcid.Recovery.is_digits
    xdcid.Networks.get_payment_network xdcid.Pay.Requests.is_positive
    xdcid.Pay.Requests.is_not_negative xdcid.Cctp.Logs.is_hex_of
validate-IsRequest_example = validate-IsRequest mainnet units_platform invoice 1_500 refl

decode-encode_example :
    IsRequest mainnet units_platform invoice 1_500
    × ((((value invoice.expires ≡ 0) ⊎ (1_900 < value invoice.expires))
          × (decode_payment_request mainnet units_platform print_nothing parse_invoice
                (text "0x")
                1_900
              ≡ ok invoice))
        ⊎ ((value invoice.expires ≢ 0)
            × (value invoice.expires ≤ 1_900)
            × (decode_payment_request mainnet units_platform print_nothing parse_invoice
                  (text "0x")
                  1_900
                ≡ err "This payment request has expired.")))
unfolding encode_payment_request validate_payment_request payment_request_chain_id
    xdcid.Names.parse_xns_name xdcid.Common.ends_with xdcid.Common.trim xdcid.Names.is_label_char
    xdcid.Common.starts_with xdcid.Pay.validate_pay_amount xdcid.Common.split
    xdcid.Recovery.is_digits xdcid.Networks.get_payment_network xdcid.Pay.Requests.is_positive
    xdcid.Pay.Requests.is_not_negative xdcid.Cctp.Logs.is_hex_of
decode-encode_example =
    decode-encode mainnet units_platform print_nothing parse_invoice invoice 1_500 1_900 (text "0x")
      refl (omega arith) refl

abbrev cancellation : PaymentRequestCancellation
cancellation = record {
  version = 1;
  chain_id = 50;
  request_id = sample_hash;
  name = text "alice.xdc";
  nonce = hash_of b'1';
  cancelled_at = int 1_400;
}

validate-create_example :
    validate_payment_request_cancellation mainnet units_platform print_nothing parse_invoice
      (λ s. true)
      cancellation
      invoice
      1_500
    ≡ ok tt
unfolding create_payment_request_cancellation payment_request_id encode_payment_request
    validate_payment_request payment_request_chain_id xdcid.Names.parse_xns_name
    xdcid.Common.ends_with xdcid.Common.trim xdcid.Names.is_label_char xdcid.Common.starts_with
    xdcid.Pay.validate_pay_amount xdcid.Common.split xdcid.Recovery.is_digits
    xdcid.Networks.get_payment_network xdcid.Pay.Requests.is_positive
    xdcid.Pay.Requests.is_not_negative xdcid.Cctp.Logs.is_hex_of
validate-create_example =
    validate-create mainnet units_platform print_nothing parse_invoice (λ s. true)
      (λ s. (refl, refl)) invoice 1_400 1_300 1_500 cancellation refl refl (omega arith)
      (omega arith) (omega arith) (omega arith)

validate-IsFor_example :
    (payment_request_id mainnet units_platform print_nothing parse_invoice invoice 1_500
      ≡ ok cancellation.request_id)
    × (cancellation.name ≡ invoice.name)
    × (cancellation.nonce ≡ invoice.nonce)
    × (cancellation.chain_id ≡ payment_request_chain_id mainnet)
    × (value cancellation.cancelled_at ≤ 1_500 + 300)
    × (1_500 ≤ value cancellation.cancelled_at + 600)
unfolding validate_payment_request_cancellation payment_request_chain_id payment_request_id
    encode_payment_request validate_payment_request xdcid.Names.parse_xns_name
    xdcid.Common.ends_with xdcid.Common.trim xdcid.Names.is_label_char xdcid.Common.starts_with
    xdcid.Pay.validate_pay_amount xdcid.Common.split xdcid.Recovery.is_digits
    xdcid.Networks.get_payment_network xdcid.Pay.Requests.is_positive
    xdcid.Pay.Requests.is_not_negative xdcid.Cctp.Logs.is_hex_of
validate-IsFor_example =
    validate-IsFor mainnet units_platform print_nothing parse_invoice (λ s. true) cancellation
      invoice 1_500 refl

abbrev claim : PayLinkSettlementClaim
claim = record {
  request_id = sample_hash;
  name = text "alice.xdc";
  source_chain_id = 1;
  destination_chain_id = 137;
  native = false;
  amount_atomic = text "5";
  payer = address_of b'2';
}

validate_claim-Settles_example :
    Settles mainnet units_platform print_nothing parse_invoice invoice claim 1_500
unfolding xdcid.Pay.Settlement.validate_pay_link_settlement_claim payment_request_id
    encode_payment_request validate_payment_request payment_request_chain_id
    xdcid.Names.parse_xns_name xdcid.Common.ends_with xdcid.Common.trim xdcid.Names.is_label_char
    xdcid.Common.starts_with xdcid.Pay.validate_pay_amount xdcid.Common.split
    xdcid.Recovery.is_digits xdcid.Networks.get_payment_network xdcid.Pay.Requests.is_positive
    xdcid.Pay.Requests.is_not_negative xdcid.Cctp.Logs.is_hex_of
    xdcid.Pay.Requests.payment_request_route xdcid.Pay.parse_pay_amount xdcid.Common.decimal
validate_claim-Settles_example =
    validate_claim-Settles mainnet units_platform print_nothing parse_invoice invoice claim 1_500
      refl

abbrev link_id : Text
link_id = text "rq_abcdefghij0123456789"

abbrev open_link : PayLink
open_link = record {
  id = link_id;
  request_id = some sample_hash;
  name = text "alice.xdc";
  encoded_request = text "0x";
  signature = [];
  revocation_token_hash = text "t";
  created_at = 1_000_000;
  expires_at = 2_000_000;
  revoked_at = none;
  paid_at = none;
  payment_id = none;
  source_transaction_hash = none;
  destination_transaction_hash = none;
}

abbrev payment : Settlement
payment = record {
  claim = claim;
  pay_link_id = some link_id;
  payment_id = text "p1";
  source_transaction_hash = hash_of b'c';
  destination_transaction_hash = none;
  paid_at = 1_500_000;
}

abbrev paid_link : PayLink
paid_link = record open_link {
  paid_at = some 1_500_000;
  payment_id = some (text "p1");
  source_transaction_hash = some (hash_of b'c');
}

abbrev open_db : LinkDb
open_db = record { links = open_link ∷ []; cancellations = [] }

abbrev paid_db : LinkDb
paid_db = record { links = paid_link ∷ []; cancellations = [] }

abbrev alone : ℕ → LinkDb → LinkDb
alone k db = db

settle-IsPaid_example :
    (l : PayLink) × (r : PaymentRequest) × (settled_link units_platform mainnet print_nothing
        parse_invoice payment open_db
      ≡ some l)
    × (decode_payment_request mainnet units_platform print_nothing parse_invoice l.encoded_request
          1_600
        ≡ ok r)
    × Settles mainnet units_platform print_nothing parse_invoice r payment.claim 1_600
    × (payment.paid_at < l.expires_at)
    × (l.revoked_at ≡ none)
    × (id : Text) × (payment_request_id mainnet units_platform print_nothing parse_invoice r 1_600
        ≡ ok id)
    × (any (is_payable (units_platform.lower id) l.encoded_request) paid_db.links ≡ false)
unfolding settle_stored_pay_link xdcid.Pay.Links.is_short_pay_link_id xdcid.Common.starts_with
    xdcid.Common.text_eq decode_payment_request validate_payment_request payment_request_chain_id
    xdcid.Names.parse_xns_name xdcid.Common.ends_with xdcid.Common.trim xdcid.Names.is_label_char
    xdcid.Pay.validate_pay_amount xdcid.Common.split xdcid.Recovery.is_digits
    xdcid.Networks.get_payment_network xdcid.Pay.Requests.is_positive
    xdcid.Pay.Requests.is_not_negative xdcid.Cctp.Logs.is_hex_of payment_request_id
    encode_payment_request xdcid.Pay.Settlement.validate_pay_link_settlement_claim
    xdcid.Pay.Requests.payment_request_route xdcid.Pay.parse_pay_amount xdcid.Common.decimal
settle-IsPaid_example =
    settle-IsPaid units_platform mainnet print_nothing parse_invoice alone payment 1_600 open_db
      paid_db refl

settle-late_example :
    (message : String) × (settle_stored_pay_link units_platform mainnet print_nothing parse_invoice
        alone payment 2_000 open_db
      ≡ (open_db, err message))
unfolding settled_link xdcid.Pay.Links.is_short_pay_link_id xdcid.Common.starts_with
    xdcid.Common.text_eq
settle-late_example =
    settle-late units_platform mainnet print_nothing parse_invoice alone payment 2_000 open_db
      open_link invoice refl refl (omega arith) (omega arith)

abbrev hash_token : Text → Text
hash_token s = text "t"

-- Between the statements of the revocation, the link is read.
abbrev reading : ℕ → LinkDb → LinkDb
reading k db = (get_stored_pay_link units_platform hash_token alone 7 link_id db).0

abbrev revoked_db : LinkDb
revoked_db = record { links = record paid_link { revoked_at = some 9 } ∷ []; cancellations = [] }

abbrev history :
    Reaches units_platform hash_token mainnet print_nothing parse_invoice paid_db revoked_db
unfolding xdcid.Pay.Links.get_stored_pay_link xdcid.Pay.Links.revoke_stored_pay_link
    xdcid.Pay.Links.is_short_pay_link_id xdcid.Common.starts_with xdcid.Common.text_eq
history =
    then (reads alone (λ k d. nothing) 5 link_id)
      (revokes reading (λ k d. reads alone (λ j x. nothing) 7 link_id) 9 link_id (text "secret"))

reaches-SamePayment_example :
    (l' : PayLink) × (find (has_id link_id) revoked_db.links ≡ some l') × SamePayment paid_link l'
unfolding xdcid.Common.text_eq
reaches-SamePayment_example =
    reaches-SamePayment units_platform hash_token mainnet print_nothing parse_invoice paid_db
      revoked_db history link_id paid_link refl refl
