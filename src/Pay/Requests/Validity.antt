-- ===== src/Pay/Requests/Validity.antt =====
-- When a payment request is valid, and for how long.
use xdcid.Common.{
  ℕ, ◌≡◌, refl, subst, starts_with, trim, ◌≢◌, ◌≤◌, ◌<◌, ◌+◌, ◌⊎◌, inl, inr, true, Option, none,
  some, Text, text_eq_sound, length, value, ok, err, Platform, arith, Option-cases, Result-cases,
}
use xdcid.Cctp.Logs.{is_hex_of}
use xdcid.Names.{parse_xns_name}
use xdcid.Networks.{PaymentNetworkEnvironment, PaymentNetwork, get_payment_network}
use xdcid.Pay.{PayToken, usdc, validate_pay_amount}
use xdcid.Pay.Requests.{
  PaymentRequest, RequestVersion, legacy, routed, payment_request_chain_id, is_native, expects,
  validate_networks, validate_version, validate_details, validate_times, validate_payment_request,
  encode_payment_request, decode_payment_request, passed_on, is_positive, is_not_negative,
  is_supported, TransferMode, direct, standard, automatic, payer_choice, unsupported,
}

-- The networks and the mode of a request that names them. A token that is sent on one network is sent
-- directly, and only USDC goes to another network or leaves one that is not XDC.
abbrev pub IsRouted : PaymentNetworkEnvironment → RequestVersion → PayToken → Type 0
IsRouted env (routed source_id destination_id mode) token =
    (source : PaymentNetwork) × (destination : PaymentNetwork) × (get_payment_network env source_id
      ≡ some source)
    × (get_payment_network env destination_id ≡ some destination)
    × (((source.chain_id ≡ destination.chain_id)
          × (mode ≡ direct)
          × ((token ≡ usdc) ⊎ (source.chain_id ≡ payment_request_chain_id env)))
        ⊎ ((source.chain_id ≢ destination.chain_id)
            × (token ≡ usdc)
            × ((mode ≡ standard) ⊎ ((mode ≡ automatic) ⊎ (mode ≡ payer_choice)))))
IsRouted env legacy token = Unit
IsRouted env unsupported token = ⊥

pub record IsRequest (env : PaymentNetworkEnvironment) (p : Platform) (r : PaymentRequest) (now : ℕ)
    : Type 0 where
  pub network : r.chain_id ≡ payment_request_chain_id env
  pub known_name : (parse_xns_name p.lower r.name).is_valid ≡ true
  pub canonical : (parse_xns_name p.lower r.name).name ≡ r.name
  pub payable :
      (token : PayToken) × (r.token ≡ some token)
      × (validate_pay_amount p r.amount token ≡ none)
      × IsRouted env r.version token
  pub described :
      (0 < length (trim r.reference)) × (length r.reference ≤ 48) × (length r.description ≤ 120)
  pub payer : p.is_address r.payer ≡ true
  pub issued : (value r.issued_at ≤ now + 300) × (0 < value r.issued_at)
  pub current : (value r.expires ≡ 0) ⊎ (now < value r.expires)
  pub nonce : is_hex_of 64 r.nonce ≡ true

module _ (env : PaymentNetworkEnvironment) where
  routed-cases :
      (source destination : PaymentNetwork) (mode : TransferMode) (token : PayToken)
      → validate_networks env source destination mode token ≡ ok tt
      → (((source.chain_id ≡ destination.chain_id)
            × (mode ≡ direct)
            × ((token ≡ usdc) ⊎ (source.chain_id ≡ payment_request_chain_id env)))
          ⊎ ((source.chain_id ≢ destination.chain_id)
              × (token ≡ usdc)
              × ((mode ≡ standard) ⊎ ((mode ≡ automatic) ⊎ (mode ≡ payer_choice)))))
  unfolding validate_networks is_native expects
  routed-cases source destination mode token e = ground arith

  validate_version-IsRouted :
      (version : RequestVersion) (token : PayToken)
      → is_supported version ≡ true
      → validate_version env version token ≡ ok tt
      → IsRouted env version token
  unfolding validate_version validate_networks is_native expects is_supported
  validate_version-IsRouted legacy token s e = tt
  validate_version-IsRouted unsupported token s e = absurd (cc s)
  validate_version-IsRouted (routed source_id destination_id mode) token s e =
      elim (Option-cases (get_payment_network env source_id)) [
        | inl missing ↦ ground (arith, missing)
        | inr (source, known) ↦ elim (Option-cases (get_payment_network env destination_id)) [
          | inl missing ↦ ground (arith, known, missing)
          | inr (destination, known') ↦ (
            source,
            destination,
            known,
            known',
            routed-cases source destination mode token (ground (arith, known, known')),
          )
        ]
      ]

module _ (env : PaymentNetworkEnvironment) (p : Platform) where
  -- A request that is valid at one time is valid at a later one exactly when it has not expired by
  -- then, and otherwise the expiry is what is reported.
  pub validate-later :
      (r : PaymentRequest) (now later : ℕ)
      → now ≤ later
      → validate_payment_request env p r now ≡ ok tt
      → (((value r.expires ≡ 0) ⊎ (later < value r.expires))
          × (validate_payment_request env p r later ≡ ok tt))
        ⊎ ((value r.expires ≢ 0)
            × (value r.expires ≤ later)
            × (validate_payment_request env p r later ≡ err "This payment request has expired."))
  unfolding validate_payment_request validate_times
  validate-later r now later le e = ground arith

  -- A valid request is for this network and a canonical name, has a payable amount of a known token on
  -- a supported route, has a reference, is within its length limits, is neither from the future nor
  -- expired, and has a nonce of 32 bytes.
  pub validate-IsRequest :
      (r : PaymentRequest) (now : ℕ)
      → validate_payment_request env p r now ≡ ok tt
      → IsRequest env p r now
  unfolding validate_payment_request validate_details validate_times is_positive is_not_negative
  validate-IsRequest r now e = elim (Option-cases r.token) [
    | inl missing ↦ ground (arith, missing)
    | inr (token, known) ↦ record {
      network = ground (arith, known);
      known_name = ground (arith, known);
      canonical = text_eq_sound _ _ (ground (arith, known));
      payable = (
        token,
        known,
        ground (arith, known),
        validate_version-IsRouted env r.version token (ground (arith, known))
            (ground (arith, known)),
      );
      described = ground (arith, known);
      payer = ground (arith, known);
      issued = ground (arith, known);
      current = ground (arith, known);
      nonce = ground (arith, known);
    }
  ]

  decode_valid :
      (stringify : PaymentRequest → Text) (parse : Text → Option PaymentRequest)
      (r : PaymentRequest) (encoded : Text) (later : ℕ)
      → parse encoded ≡ some r
      → validate_payment_request env p r later ≡ ok tt
      → decode_payment_request env p stringify parse encoded later ≡ ok r
  unfolding decode_payment_request
  decode_valid stringify parse r encoded later undo valid = ground (arith, undo, valid)

  decode_expired :
      (stringify : PaymentRequest → Text) (parse : Text → Option PaymentRequest)
      (r : PaymentRequest) (encoded : Text) (later : ℕ)
      → parse encoded ≡ some r
      → validate_payment_request env p r later ≡ err "This payment request has expired."
      → decode_payment_request env p stringify parse encoded later
        ≡ err "This payment request has expired."
  unfolding decode_payment_request passed_on starts_with
  decode_expired stringify parse r encoded later undo failed =
      rw (undo, failed, decode_payment_request) refl

  -- A request that is encoded at one time fulfils every condition of a valid request then, and what is
  -- encoded decodes to it at any later time before its expiry, and from its expiry on is refused as
  -- expired. This needs that parsing undoes the printing of this request.
  pub decode-encode :
      (stringify : PaymentRequest → Text) (parse : Text → Option PaymentRequest)
      → (r : PaymentRequest) (now later : ℕ) (encoded : Text) → parse (stringify r) ≡ some r
      → now ≤ later
      → encode_payment_request env p stringify parse r now ≡ ok encoded
      → IsRequest env p r now
        × ((((value r.expires ≡ 0) ⊎ (later < value r.expires))
              × (decode_payment_request env p stringify parse encoded later ≡ ok r))
            ⊎ ((value r.expires ≢ 0)
                × (value r.expires ≤ later)
                × (decode_payment_request env p stringify parse encoded later
                    ≡ err "This payment request has expired.")))
  unfolding encode_payment_request
  decode-encode stringify parse r now later encoded undo le e =
      elim (Result-cases (validate_payment_request env p r now)) [
        | inr (m, failed) ↦ ground (arith, failed)
        | inl (tt, valid) ↦
            let printed : stringify r ≡ encoded = ground (arith, valid) in
            let parsed : parse encoded ≡ some r = subst (λ s. parse s ≡ some r) printed undo in
            (
              validate-IsRequest r now valid,
              elim (validate-later r now later le valid) [
                | inl (open_still, again) ↦
                    inl (open_still, decode_valid stringify parse r encoded later parsed again)
                | inr (ends, past, refused) ↦
                    inr (ends, past, decode_expired stringify parse r encoded later parsed refused)
              ],
            )
      ]
