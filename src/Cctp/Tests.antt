-- ===== src/Cctp/Tests.antt =====
-- Transfers: the theorems at concrete amounts and logs.
use xdcid.Common.{
  ℕ, ◌≡◌, refl, ◌↔◌, ◌≤◌, max, min, divide_rounding_up, true, false, Option, none, some, [], ◌∷◌,
  ◌++◌, Text, text, map, pos, ok, arith, ExactlyOne, ◌-◌, ◌+◌,
}
use xdcid.Common.Samples.{sample_platform, address_of, zeros}
use xdcid.Cctp.{calculate_xdcid_convenience_fee}
use xdcid.Cctp.Fees.{calculate_xdcid_convenience_fee_bounds}
use xdcid.Cctp.Requests.{cctp_zero_bytes32, cctp_forwarding_hook_data}
use xdcid.Cctp.Logs.{
  TransactionLog, FeeExpectation, BurnEvent, BurnExpectation, erc20_transfer_topic,
  find_exact_usdc_transfer_payer, has_exact_cctp_forwarding_burn, burn_matches,
}
use xdcid.Cctp.Logs.Events.{IsTransferFrom, IsForwardingBurn}
use xdcid.Cctp.Logs.Matches.{find_exact_iff, has_exact_iff}

calculate_xdcid_convenience_fee_bounds_example :
    (f g : ℕ) × (calculate_xdcid_convenience_fee (pos 1_000_000) ≡ ok f)
    × (calculate_xdcid_convenience_fee (pos 300_000_001) ≡ ok g)
    × (f ≡ max 100_000 (min 5_000_000 (divide_rounding_up 1_000_000 1_000)))
    × (f ≤ g)
calculate_xdcid_convenience_fee_bounds_example =
    calculate_xdcid_convenience_fee_bounds 1_000_000 300_000_001 (omega arith, omega arith)
      (omega arith, omega arith) (omega arith)

abbrev topic_of : ℕ → Text
topic_of c = text "0x" ++ (zeros 24 ++ map (λ d. d - b'0' + c) (zeros 40))

abbrev fee_log : TransactionLog
fee_log = record {
  address = address_of b'1';
  logged = text "0x" ++ (zeros 60 ++ text "1f40");
  topics = erc20_transfer_topic ∷ topic_of b'2' ∷ topic_of b'3' ∷ [];
}

abbrev fee_expected : FeeExpectation
fee_expected = record {
  usdc_address = address_of b'1';
  fee_recipient = address_of b'3';
  fee_amount = 8_000;
}

find_exact_iff_example :
    (find_exact_usdc_transfer_payer sample_platform (fee_log ∷ []) fee_expected
      ≡ some (address_of b'2'))
    ↔ ExactlyOne
        (IsTransferFrom sample_platform fee_expected (address_of b'2'))
        (λ log. (other : Text) → ¬ IsTransferFrom sample_platform fee_expected other log)
        (fee_log ∷ [])
find_exact_iff_example =
    find_exact_iff sample_platform fee_expected (fee_log ∷ []) (address_of b'2')

abbrev burn_expected : BurnExpectation
burn_expected = record {
  token_messenger = address_of b'1';
  burn_token = address_of b'2';
  depositor = address_of b'3';
  recipient_amount = 5;
  destination_domain = 7;
  mint_recipient = topic_of b'4';
  destination_caller = cctp_zero_bytes32;
  minimum_finality_threshold = 2_000;
  hook_data = cctp_forwarding_hook_data;
}

abbrev burn_event : BurnEvent
burn_event = record {
  call = record {
    amount = 8;
    destination_domain = 7;
    mint_recipient = topic_of b'4';
    burn_token = address_of b'2';
    destination_caller = cctp_zero_bytes32;
    max_fee = 3;
    min_finality_threshold = 2_000;
  };
  depositor = address_of b'3';
  hook_data = cctp_forwarding_hook_data;
}

-- Only a log without data is the event of a burn.
abbrev burn_decoded : TransactionLog → Option BurnEvent
burn_decoded log = elim log.logged [ [] ↦ some burn_event | _ ↦ none ]

abbrev burn_log : TransactionLog
burn_log = record { address = address_of b'1'; logged = []; topics = topic_of b'5' ∷ [] }

burn_found :
    has_exact_cctp_forwarding_burn sample_platform burn_decoded
      (fee_log ∷ burn_log ∷ [])
      burn_expected
    ≡ true
unfolding has_exact_cctp_forwarding_burn burn_matches xdcid.Common.text_eq
burn_found = refl

has_exact_iff_example :
    (has_exact_cctp_forwarding_burn sample_platform burn_decoded
        (fee_log ∷ burn_log ∷ [])
        burn_expected
      ≡ true)
    ↔ ExactlyOne
        (IsForwardingBurn sample_platform burn_decoded burn_expected)
        (λ log. ¬ IsForwardingBurn sample_platform burn_decoded burn_expected log)
        (fee_log ∷ burn_log ∷ [])
has_exact_iff_example =
    has_exact_iff sample_platform burn_decoded burn_expected (fee_log ∷ burn_log ∷ [])
