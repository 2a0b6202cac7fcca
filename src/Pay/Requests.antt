-- ===== src/Pay/Requests.antt =====
-- frontend/lib/paymentRequests.ts: the signed payment requests. A returned message is `err` and
-- `undefined` is `ok`. `JSON.stringify` with `stringToHex`, and `hexToString` with `JSON.parse`, are
-- parameters; the second has `none` where it throws.
pub mod Validity
use xdcid.Common.{
  ℕ, String, ◌+◌, Bool, true, false, ◌&&◌, ◌||◌, not, Option, none, some, List, [], ◌∷◌, Text, text,
  text_eq, starts_with, trim, length, any, Number, int, is_safe_integer, value, Result, ok, err,
  ◌>>=◌, ◌>>◌, throw_if, or_throw, leb, ltb, ◌==◌, if◌then◌else◌, Platform,
}
use xdcid.Names.{ParsedXnsName, parse_xns_name}
use xdcid.Networks.{
  PaymentNetworkEnvironment, mainnet, testnet, PaymentNetwork, get_payment_network,
}
use xdcid.Cctp.Logs.{is_hex_of}
use xdcid.Pay.{PayToken, native_xdc, usdc, validate_pay_amount}

pub data TransferMode : Type 0 where
  direct standard automatic payer_choice unknown_mode : TransferMode

pub data RequestVersion : Type 0 where
  legacy : RequestVersion
  routed : (source_chain_id destination_chain_id : ℕ) → TransferMode → RequestVersion
  unsupported : RequestVersion

-- A payload that was parsed may have any version; its token is `none` when it is not a known one.
pub record PaymentRequest : Type 0 where
  pub version : RequestVersion
  pub chain_id : ℕ
  pub name : Text
  pub amount : Text
  pub token : Option PayToken
  pub reference : Text
  pub description : Text
  pub payer : Text
  pub issued_at : Number
  pub expires : Number
  pub nonce : Text

unfoldable pub payment_request_chain_id : PaymentNetworkEnvironment → ℕ
payment_request_chain_id testnet = 51
payment_request_chain_id mainnet = 50

abbrev pub max_payment_reference_length : ℕ
max_payment_reference_length = 48

abbrev pub max_payment_description_length : ℕ
max_payment_description_length = 120

pub record Route : Type 0 where
  pub source_chain_id : ℕ
  pub destination_chain_id : ℕ
  pub transfer_mode : TransferMode

unfoldable pub is_native : PayToken → Bool
is_native native_xdc = true
is_native usdc = false

-- `expectedModes.includes(transferMode)`
expects : Bool → TransferMode → Bool
expects true standard = true
expects true automatic = true
expects true payer_choice = true
expects false direct = true
expects _ _ = false

is_supported : RequestVersion → Bool
is_supported unsupported = false
is_supported _ = true

-- `Number.isSafeInteger(n) && n > 0` and `Number.isSafeInteger(n) && n >= 0`
unfoldable pub is_positive : Number → Bool
is_positive (int n) = is_safe_integer (int n) && ltb 0 n
is_positive _ = false

unfoldable pub is_not_negative : Number → Bool
is_not_negative (int n) = is_safe_integer (int n)
is_not_negative _ = false

-- A message that a check returns.
refuse : Option String → Result (Unit {0})
refuse none = ok tt
refuse (some message) = err message

module _ (env : PaymentNetworkEnvironment) where
  unfoldable pub payment_request_route : PaymentRequest → Route
  payment_request_route r = elim r.version [
    | routed source destination mode ↦ record {
      source_chain_id = source;
      destination_chain_id = destination;
      transfer_mode = mode;
    }
    | _ ↦ record {
      source_chain_id = payment_request_chain_id env;
      destination_chain_id = payment_request_chain_id env;
      transfer_mode = direct;
    }
  ]

  validate_networks : PaymentNetwork → PaymentNetwork → TransferMode → PayToken → Result (Unit {0})
  unfolding is_native expects
  validate_networks source destination mode token = do
    let cross_chain = not (source.chain_id == destination.chain_id)
    throw_if (cross_chain && is_native token) "Cross-chain payment requests support USDC only."
    throw_if (is_native token && not (source.chain_id == payment_request_chain_id env))
        "XDC payments must originate on XDC Network."
    throw_if (not (expects cross_chain mode)) "Payment request contains an invalid transfer mode."

  validate_version : RequestVersion → PayToken → Result (Unit {0})
  unfolding validate_networks
  validate_version (routed source_id destination_id mode) token = do
    source ←
        or_throw (get_payment_network env source_id)
          "Payment request contains an unsupported payment network."
    destination ←
        or_throw (get_payment_network env destination_id)
          "Payment request contains an unsupported payment network."
    validate_networks source destination mode token
  validate_version _ token = ok tt

  module _ (p : Platform) where
    -- The checks of the reference, the description and the payer.
    validate_details : PaymentRequest → Result (Unit {0})
    validate_details r = do
      throw_if (leb (length (trim r.reference)) 0) "Payment reference is required."
      throw_if (ltb max_payment_reference_length (length r.reference))
          "Payment reference must be 48 characters or fewer."
      throw_if (ltb max_payment_description_length (length r.description))
          "Description must be 120 characters or fewer."
      throw_if (not (p.is_address r.payer)) "Designated payer address is invalid."

    -- The checks of the times and of the nonce.
    validate_times : PaymentRequest → ℕ → Result (Unit {0})
    validate_times r now_seconds = do
      throw_if (not (is_positive r.issued_at)) "Payment request issue time is invalid."
      throw_if (ltb (now_seconds + 300) (value r.issued_at))
          "Payment request issue time is in the future."
      throw_if (not (is_not_negative r.expires)) "Payment request expiry is invalid."
      throw_if (not (value r.expires == 0) && leb (value r.expires) now_seconds)
          "This payment request has expired."
      throw_if (not (is_hex_of 64 r.nonce)) "Payment request nonce is invalid."

    unfoldable pub validate_payment_request : PaymentRequest → ℕ → Result (Unit {0})
    unfolding validate_version validate_details validate_times is_supported refuse
    validate_payment_request r now_seconds = do
      throw_if (not (is_supported r.version)) "Unsupported payment request version."
      throw_if (not (r.chain_id == payment_request_chain_id env))
          "Payment request authorization is for the wrong network."
      let parsed = parse_xns_name p.lower r.name
      throw_if (not parsed.is_valid || not (text_eq parsed.name r.name))
          "Payment request contains an invalid or non-canonical XDCID name."
      token ← or_throw r.token "Unsupported payment token."
      refuse (validate_pay_amount p r.amount token)
      validate_version r.version token
      validate_details r
      validate_times r now_seconds

    module _ (stringify : PaymentRequest → Text) (parse : Text → Option PaymentRequest) where
      unfoldable pub encode_payment_request : PaymentRequest → ℕ → Result Text
      encode_payment_request r now_seconds = do
        validate_payment_request r now_seconds
        ok (stringify r)

      -- The messages that `decodePaymentRequest` passes on; another becomes that of a bad payload.
      passed_on : String → String
      passed_on message =
          if any (λ prefix. starts_with (text message) (text prefix))
            ("Payment request" ∷ "This payment" ∷ "Unsupported" ∷ "Cross-chain" ∷ "XDC payments"
              ∷ "Enter" ∷ "Amount" ∷ "Description" ∷ "Designated" ∷ [])
          then message
          else "Payment request payload is invalid."

      unfoldable pub decode_payment_request : Text → ℕ → Result PaymentRequest
      unfolding passed_on
      decode_payment_request encoded now_seconds = elim (parse encoded) [
        | none ↦ err "Payment request payload is invalid."
        | some r ↦ elim (validate_payment_request r now_seconds) [
          | ok _ ↦ ok r
          | err message ↦ err (passed_on message)
        ]
      ]

    -- `isDesignatedPayer`
    unfoldable pub is_designated_payer : PaymentRequest → Option Text → Bool
    is_designated_payer r address =
        text_eq r.payer (text "0x0000000000000000000000000000000000000000") || elim address [
          | none ↦ false
          | some [] ↦ false
          | some (c ∷ s) ↦ text_eq (p.lower (c ∷ s)) (p.lower r.payer)
        ]
