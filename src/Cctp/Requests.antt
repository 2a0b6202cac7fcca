-- ===== src/Cctp/Requests.antt =====
-- frontend/lib/cctpMainnet.ts: the contract calls of a transfer. The ABI of a call is left out; its
-- function and arguments are the constructor and fields of `Call`.
pub mod Burns
mod Tests
use xdcid.Common.{
  ℕ, ◌+◌, ◌≡◌, Bool, true, false, not, ◌||◌, Option, none, some, Text, text, ℤ, pos, Result, ok,
  err, ◌>>=◌, ◌>>◌, throw_if, or_throw, ltb, ◌==◌, if◌then◌else◌, Platform,
}
use xdcid.Networks.{PaymentNetworkEnvironment, mainnet, testnet, PaymentNetwork}
use xdcid.Cctp.{
  validate_amount, parse_mainnet_usdc_amount, require_address, require_network, address_to_bytes32,
  calculate_xdcid_convenience_fee, calculate_cctp_protocol_fee, cctp_max_transfer_amount,
  cctp_standard_finality_threshold, in_range, FeeRates, get_cctp_receive_gas_limit,
}

-- `string | bigint`
pub data AmountInput : Type 0 where
  typed : Text → AmountInput
  units : ℤ → AmountInput

pub record BurnCall : Type 0 where
  pub amount : ℕ
  pub destination_domain : ℕ
  pub mint_recipient : Text
  pub burn_token : Text
  pub destination_caller : Text
  pub max_fee : ℕ
  pub min_finality_threshold : ℕ

pub data Call : Type 0 where
  transfer approve : Text → ℕ → Call
  deposit_for_burn : BurnCall → Call
  deposit_for_burn_with_hook : BurnCall → Text → Call
  receive_message : Text → Text → Call

pub record ContractRequest : Type 0 where
  pub chain_id : ℕ
  pub address : Text
  pub call : Call

pub record BurnPlan : Type 0 where
  pub source : PaymentNetwork
  pub destination : PaymentNetwork
  pub amount : ℕ
  pub recipient : Text
  pub approval_request : ContractRequest
  pub burn_request : ContractRequest

pub record ForwardedBurnPlan : Type 0 where
  pub source : PaymentNetwork
  pub destination : PaymentNetwork
  pub recipient : Text
  pub recipient_amount : ℕ
  pub forward_fee : ℕ
  pub protocol_fee : ℕ
  pub max_fee : ℕ
  pub total_burn_amount : ℕ
  pub approval_request : ContractRequest
  pub burn_request : ContractRequest

abbrev pub cctp_zero_bytes32 : Text
cctp_zero_bytes32 = text "0x0000000000000000000000000000000000000000000000000000000000000000"

abbrev pub cctp_forwarding_hook_data : Text
cctp_forwarding_hook_data =
    text "0x636374702d666f72776172640000000000000000000000000000000000000000"

unfoldable pub cctp_token_messenger_v2 : PaymentNetworkEnvironment → Text
cctp_token_messenger_v2 testnet = text "0x8FE6B999Dc680CcFDD5Bf7EB0974218be2542DAA"
cctp_token_messenger_v2 mainnet = text "0x28b5a0e9C621a5BadaA536219b3a228C8168cf5d"

module _ (p : Platform) (env : PaymentNetworkEnvironment) where
  abbrev pub read_amount : AmountInput → Result ℕ
  read_amount (typed value) = parse_mainnet_usdc_amount p value
  read_amount (units amount) = validate_amount amount

  pub prepare_mainnet_usdc_transfer : ℕ → AmountInput → Text → Result ContractRequest
  prepare_mainnet_usdc_transfer chain_id amount_input recipient_input = do
    network ← require_network env chain_id
    amount ← read_amount amount_input
    recipient ← require_address p recipient_input
    ok (record {
      chain_id = network.chain_id;
      address = network.usdc_address;
      call = transfer recipient amount;
    })

  pub prepare_mainnet_cctp_burn : ℕ → ℕ → AmountInput → Text → Result BurnPlan
  prepare_mainnet_cctp_burn source_chain_id destination_chain_id amount_input recipient_input = do
    throw_if (source_chain_id == destination_chain_id)
        "CCTP source and destination networks must be different"
    source ← require_network env source_chain_id
    destination ← require_network env destination_chain_id
    amount ← read_amount amount_input
    recipient ← require_address p recipient_input
    mint_recipient ← address_to_bytes32 p recipient
    ok (record {
      source = source;
      destination = destination;
      amount = amount;
      recipient = recipient;
      approval_request = record {
        chain_id = source.chain_id;
        address = source.usdc_address;
        call = approve (cctp_token_messenger_v2 env) amount;
      };
      burn_request = record {
        chain_id = source.chain_id;
        address = cctp_token_messenger_v2 env;
        call = deposit_for_burn (record {
          amount = amount;
          destination_domain = destination.circle_domain;
          mint_recipient = mint_recipient;
          burn_token = source.usdc_address;
          destination_caller = cctp_zero_bytes32;
          max_fee = 0;
          min_finality_threshold = cctp_standard_finality_threshold;
        });
      };
    })

  pub prepare_xdcid_convenience_fee_transfer : Text → ℕ → ℤ → Result ContractRequest
  prepare_xdcid_convenience_fee_transfer fee_recipient source_chain_id amount = do
    source ← require_network env source_chain_id
    fee ← calculate_xdcid_convenience_fee amount
    ok (record {
      chain_id = source.chain_id;
      address = source.usdc_address;
      call = transfer fee_recipient fee;
    })

  -- The plan, once the parts have been read.
  pub forwarded_plan : PaymentNetwork → PaymentNetwork → Text → Text → ℕ → ℕ → ℕ → ForwardedBurnPlan
  forwarded_plan source destination recipient mint_recipient recipient_amount forward_fee
        protocol_fee =
      let max_fee = forward_fee + protocol_fee in
      let total_burn_amount = recipient_amount + max_fee in
      record {
        source = source;
        destination = destination;
        recipient = recipient;
        recipient_amount = recipient_amount;
        forward_fee = forward_fee;
        protocol_fee = protocol_fee;
        max_fee = max_fee;
        total_burn_amount = total_burn_amount;
        approval_request = record {
          chain_id = source.chain_id;
          address = source.usdc_address;
          call = approve (cctp_token_messenger_v2 env) total_burn_amount;
        };
        burn_request = record {
          chain_id = source.chain_id;
          address = cctp_token_messenger_v2 env;
          call =
              deposit_for_burn_with_hook
                (record {
                  amount = total_burn_amount;
                  destination_domain = destination.circle_domain;
                  mint_recipient = mint_recipient;
                  burn_token = source.usdc_address;
                  destination_caller = cctp_zero_bytes32;
                  max_fee = max_fee;
                  min_finality_threshold = cctp_standard_finality_threshold;
                })
                cctp_forwarding_hook_data;
        };
      }

  module _ (rates : FeeRates) where
    pub prepare_mainnet_cctp_forwarded_burn :
        ℕ → ℕ → AmountInput → Text → ℤ → rates.Rate → Result ForwardedBurnPlan
    unfolding forwarded_plan
    prepare_mainnet_cctp_forwarded_burn source_chain_id destination_chain_id amount_input
          recipient_input forward_fee_input minimum_fee_bps =
        do
          source ← require_network env source_chain_id
          destination ← require_network env destination_chain_id
          throw_if (source.chain_id == destination.chain_id)
              "Forwarding requires different source and destination networks"
          recipient_amount ← read_amount amount_input
          recipient ← require_address p recipient_input
          forward_fee ←
              or_throw (in_range 100_000_000 forward_fee_input)
                "Circle forwarding fee is outside the supported range"
          protocol_fee ← calculate_cctp_protocol_fee rates (pos recipient_amount) minimum_fee_bps
          throw_if (ltb cctp_max_transfer_amount (recipient_amount + (forward_fee + protocol_fee)))
              "USDC amount plus forwarding fees exceeds the CCTP limit"
          mint_recipient ← address_to_bytes32 p recipient
          ok (
              forwarded_plan source destination recipient mint_recipient recipient_amount
                forward_fee protocol_fee)
