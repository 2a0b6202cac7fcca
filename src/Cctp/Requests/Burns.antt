-- ===== src/Cctp/Requests/Burns.antt =====
-- What a prepared forwarding burn spends, and whom it pays.
use xdcid.Common.{
  ℕ, ◌+◌, ◌-◌, ◌≤◌, ◌<◌, ◌≡◌, ◌≢◌, refl, some, Text, ℤ, pos, ok, >>=-eq-ok, arith, Platform, ltb,
  ◌==◌, throw_if, or_throw, subst,
}
use xdcid.Networks.{PaymentNetworkEnvironment, PaymentNetwork, get_payment_network}
use xdcid.Cctp.{
  FeeRates, require_network, require_address, address_to_bytes32, in_range,
  calculate_cctp_protocol_fee, cctp_max_transfer_amount, validate_amount, parse_mainnet_usdc_amount,
}
use xdcid.Cctp.Requests.{
  AmountInput, typed, units, BurnCall, approve, deposit_for_burn_with_hook, ForwardedBurnPlan,
  read_amount, forwarded_plan, prepare_mainnet_cctp_forwarded_burn, cctp_token_messenger_v2,
  cctp_forwarding_hook_data,
}

require_network_inv :
    (env : PaymentNetworkEnvironment) (id : ℕ) (n : PaymentNetwork)
    → require_network env id ≡ ok n
    → get_payment_network env id ≡ some n
unfolding require_network
require_network_inv env id n e = ground arith

in_range_inv : (limit : ℕ) (z : ℤ) (a : ℕ) → in_range limit z ≡ some a → (0 < a) × (a ≤ limit)
unfolding in_range
in_range_inv limit z a e = ground arith

validate_amount_pos : (z : ℤ) (a : ℕ) → validate_amount z ≡ ok a → 0 < a
unfolding validate_amount
validate_amount_pos z a e = ground arith

module _ (p : Platform) (env : PaymentNetworkEnvironment) where
  read_amount_pos : (i : AmountInput) (a : ℕ) → read_amount p env i ≡ ok a → 0 < a
  unfolding parse_mainnet_usdc_amount validate_amount
  read_amount_pos (units z) a e = validate_amount_pos z a e
  read_amount_pos (typed t) a e = ground arith

  -- A plan, from the parts that were read.
  record Parts (rates : FeeRates) (s d : ℕ) (i : AmountInput) (r : Text) (z : ℤ) (rate : rates.Rate)
      (plan : ForwardedBurnPlan) : Type 1 where
    source : PaymentNetwork
    destination : PaymentNetwork
    amount : ℕ
    recipient : Text
    mint_recipient : Text
    forward_fee : ℕ
    protocol_fee : ℕ
    source_found : get_payment_network env s ≡ some source
    destination_found : get_payment_network env d ≡ some destination
    apart : source.chain_id ≢ destination.chain_id
    read : read_amount p env i ≡ ok amount
    required : require_address p r ≡ ok recipient
    forwarded : in_range 100_000_000 z ≡ some forward_fee
    protocol : calculate_cctp_protocol_fee rates (pos amount) rate ≡ ok protocol_fee
    fits : amount + (forward_fee + protocol_fee) ≤ cctp_max_transfer_amount
    padded : address_to_bytes32 p recipient ≡ ok mint_recipient
    built :
        forwarded_plan p env source destination recipient mint_recipient amount forward_fee
          protocol_fee
        ≡ plan

  prepare-Parts :
      (rates : FeeRates) (s d : ℕ) (i : AmountInput) (r : Text) (z : ℤ) (rate : rates.Rate)
      (plan : ForwardedBurnPlan)
      → prepare_mainnet_cctp_forwarded_burn p env rates s d i r z rate ≡ ok plan
      → Parts rates s d i r z rate plan
  unfolding prepare_mainnet_cctp_forwarded_burn
  prepare-Parts rates s d i r z rate plan e =
      let (source, found, e1) = >>=-eq-ok (require_network env s) _ e in
      let (destination, found', e2) = >>=-eq-ok (require_network env d) _ e1 in
      let (_, apart, e3) =
        >>=-eq-ok
          (throw_if (source.chain_id == destination.chain_id)
            "Forwarding requires different source and destination networks")
          _ e2 in
      let (amount, read, e4) = >>=-eq-ok (read_amount p env i) _ e3 in
      let (recipient, required, e5) = >>=-eq-ok (require_address p r) _ e4 in
      let (fee, forwarded, e6) =
        >>=-eq-ok
          (or_throw (in_range 100_000_000 z) "Circle forwarding fee is outside the supported range")
          _ e5 in
      let (protocol, protocol_read, e7) =
        >>=-eq-ok (calculate_cctp_protocol_fee rates (pos amount) rate) _ e6 in
      let (_, fits, e8) =
        >>=-eq-ok
          (throw_if (ltb cctp_max_transfer_amount (amount + (fee + protocol)))
            "USDC amount plus forwarding fees exceeds the CCTP limit")
          _ e7 in
      let (mint, padded, e9) = >>=-eq-ok (address_to_bytes32 p recipient) _ e8 in
      record {
        source = source;
        destination = destination;
        amount = amount;
        recipient = recipient;
        mint_recipient = mint;
        forward_fee = fee;
        protocol_fee = protocol;
        source_found = require_network_inv env s source found;
        destination_found = require_network_inv env d destination found';
        apart = ground (arith, apart);
        read = read;
        required = required;
        forwarded = ground (arith, forwarded);
        protocol = protocol_read;
        fits = ground (arith, fits);
        padded = padded;
        built = ground (arith, e9);
      }

-- A burn that moves the amount, less the fee that Circle may keep, to the recipient.
pub record IsForwarded (env : PaymentNetworkEnvironment) (s d : ℕ) (plan : ForwardedBurnPlan)
    : Type 0 where
  pub source_found : get_payment_network env s ≡ some plan.source
  pub destination_found : get_payment_network env d ≡ some plan.destination
  pub apart : plan.source.chain_id ≢ plan.destination.chain_id
  pub pays : 0 < plan.recipient_amount
  pub total :
      plan.total_burn_amount ≡ plan.recipient_amount + (plan.forward_fee + plan.protocol_fee)
  pub within : plan.total_burn_amount ≤ cctp_max_transfer_amount
  pub approved :
      plan.approval_request.call ≡ approve (cctp_token_messenger_v2 env) plan.total_burn_amount
  pub on_source : plan.approval_request.chain_id ≡ plan.burn_request.chain_id
  pub burned :
      (b : BurnCall) × (plan.burn_request.call
        ≡ deposit_for_burn_with_hook b cctp_forwarding_hook_data)
      × (b.amount ≡ plan.total_burn_amount)
      × (b.amount - b.max_fee ≡ plan.recipient_amount)
      × (b.destination_domain ≡ plan.destination.circle_domain)
      × (b.burn_token ≡ plan.approval_request.address)

module _ (p : Platform) (env : PaymentNetworkEnvironment) where
  -- A forwarding burn that is prepared joins two different networks, burns the recipient's positive
  -- amount with both fees on top, within the limit of a transfer, approves exactly what it burns,
  -- and leaves the recipient the whole amount after the largest fee that may be kept.
  pub prepare-IsForwarded :
      (rates : FeeRates) (s d : ℕ) (i : AmountInput) (r : Text) (z : ℤ) (rate : rates.Rate)
      (plan : ForwardedBurnPlan)
      → prepare_mainnet_cctp_forwarded_burn p env rates s d i r z rate ≡ ok plan
      → IsForwarded env s d plan
  unfolding forwarded_plan
  prepare-IsForwarded rates s d i r z rate plan e =
      let v = prepare-Parts p env rates s d i r z rate plan e in
      subst (IsForwarded env s d) v.built (record {
        source_found = v.source_found;
        destination_found = v.destination_found;
        apart = v.apart;
        pays = read_amount_pos p env i v.amount v.read;
        total = refl;
        within = v.fits;
        approved = refl;
        on_source = refl;
        burned = (_, refl, refl, omega arith, refl, refl);
      })
