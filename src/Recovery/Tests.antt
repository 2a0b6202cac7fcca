-- ===== src/Recovery/Tests.antt =====
-- Recovery: the theorems at a concrete fee and burn.
use xdcid.Common.{
  ℕ, int, ◌≡◌, ◌≢◌, ◌⊎◌, refl, true, false, Option, none, some, List, [], ◌∷◌, ◌++◌, Text, text,
  map, ◌+◌, ◌-◌, ltb, Result, ok, arith,
}
use xdcid.Common.Samples.{sample_platform, lower_ascii-twice, address_of, hash_of, zeros}
use xdcid.Networks.{mainnet, ethereum, polygon}
use xdcid.Cctp.Requests.{cctp_zero_bytes32, cctp_forwarding_hook_data, cctp_token_messenger_v2}
use xdcid.Cctp.Logs.{TransactionLog, BurnEvent, erc20_transfer_topic}
use xdcid.Recovery.{
  ForwardingRecoveryInput, ForwardingRecoveryRecord, recovery_record_matches,
  parse_forwarding_recovery_input,
}
use xdcid.Recovery.Store.{
  RecoveryDb, get_forwarding_recovery_record, get_forwarding_recovery_use, record_burn,
  create_forwarding_recovery_record, mark_forwarding_recovery_used,
  remove_expired_forwarding_recovery_data,
}
use xdcid.Recovery.Store.Consistency.{StoreReaches, nothing, then, creates, marks, cleans}
use xdcid.Recovery.Store.Uses.{empty_db, burn_uses_one_fee}
use xdcid.Recovery.Route.{
  Receipt, verify_fee_transaction, verify_forwarded_burn, register_recovery, consume_recovery,
}
use xdcid.Recovery.Route.Post.{RouteBody, post-matches}
use xdcid.Recovery.Route.Safety.{consume_recovery-IsVerified, register_recovery-IsVerified}

abbrev topic_of : ℕ → Text
topic_of c = text "0x" ++ (zeros 24 ++ map (λ d. d - b'0' + c) (zeros 40))

abbrev paid_fee : ForwardingRecoveryRecord
paid_fee = record {
  fee_transaction_hash = hash_of b'a';
  source_chain_id = 1;
  payer = address_of b'2';
  recipient_amount = 2_000_000;
  convenience_fee_amount = 100_000;
  recipient = address_of b'b';
  destination_chain_id = 137;
  created_at = 1_000;
  expires_at = 1_000 + 604_800_000;
}

abbrev request : ForwardingRecoveryInput
request = record {
  fee_transaction_hash = hash_of b'a';
  source_chain_id = 1;
  recipient_amount = 2_000_000;
  recipient = address_of b'b';
  destination_chain_id = 137;
}

abbrev alone : ℕ → RecoveryDb → RecoveryDb
alone k db = db

abbrev alone_reaches : (k : ℕ) (d : RecoveryDb) → StoreReaches sample_platform d (alone k d)
alone_reaches k d = nothing

-- Between the statements of the registration, expired rows are deleted.
abbrev cleaning : ℕ → RecoveryDb → RecoveryDb
cleaning k db = (remove_expired_forwarding_recovery_data 1_500 db).0

abbrev created_db : RecoveryDb
created_db = (create_forwarding_recovery_record sample_platform cleaning 1_000 paid_fee empty_db).0

abbrev marked_db : RecoveryDb
marked_db =
    (mark_forwarding_recovery_used sample_platform alone 2_000 (hash_of b'A') (hash_of b'c')
      created_db).0

abbrev used_db : RecoveryDb
used_db = (remove_expired_forwarding_recovery_data 3_000 marked_db).0

abbrev history : StoreReaches sample_platform empty_db used_db
history =
    then (creates cleaning (λ k d. cleans 1_500) 1_000 paid_fee)
      (then (marks alone alone_reaches 2_000 (hash_of b'A') (hash_of b'c')) (cleans 3_000))

burn_uses_one_fee_example :
    sample_platform.lower (hash_of b'a') ≡ sample_platform.lower (hash_of b'A')
unfolding get_forwarding_recovery_use remove_expired_forwarding_recovery_data
    mark_forwarding_recovery_used create_forwarding_recovery_record xdcid.Common.text_eq
burn_uses_one_fee_example =
    burn_uses_one_fee sample_platform used_db history (hash_of b'a') (hash_of b'A') (hash_of b'c')
      refl refl

abbrev registered : RecoveryDb
registered = record { recoveries = paid_fee ∷ []; burns = []; fee_events = [] }

abbrev consumed : RecoveryDb
consumed = record {
  recoveries = paid_fee ∷ [];
  burns =
      (record { fee_transaction_hash = hash_of b'a'; burn_transaction_hash = hash_of b'c' }) ∷ [];
  fee_events = [];
}

abbrev fee_recipient : Text
fee_recipient = address_of b'3'

abbrev fee_log : TransactionLog
fee_log = record {
  address = ethereum.usdc_address;
  logged = text "0x" ++ (zeros 59 ++ text "186a0");
  topics = erc20_transfer_topic ∷ topic_of b'2' ∷ topic_of b'3' ∷ [];
}

abbrev burn_log : TransactionLog
burn_log = record {
  address = cctp_token_messenger_v2 mainnet;
  logged = text "0x";
  topics = hash_of b'1' ∷ [];
}

-- Every transaction has the log of the fee and that of the burn.
abbrev receipts : ℕ → Text → Result Receipt
receipts chain_id hash = ok (record { success = true; logs = fee_log ∷ burn_log ∷ [] })

abbrev decoded : TransactionLog → Option BurnEvent
decoded log = some (record {
  call = record {
    amount = 2_300_200;
    destination_domain = 7;
    mint_recipient = topic_of b'b';
    burn_token = ethereum.usdc_address;
    destination_caller = cctp_zero_bytes32;
    max_fee = 300_200;
    min_finality_threshold = 2_000;
  };
  depositor = address_of b'2';
  hook_data = cctp_forwarding_hook_data;
})

consume_recovery-IsVerified_example :
    (get_forwarding_recovery_record sample_platform 2_000 (hash_of b'a') registered ≡ some paid_fee)
    × (ltb 2_000 paid_fee.expires_at ≡ true)
    × (recovery_record_matches sample_platform paid_fee request ≡ true)
    × (verify_forwarded_burn sample_platform mainnet fee_recipient receipts decoded paid_fee
          (hash_of b'c')
        ≡ ok tt)
    × (true ≡ true)
    × (some (hash_of b'c') ≡ some (hash_of b'c'))
    × ((k : ℕ) × (d : RecoveryDb) × (get_forwarding_recovery_use sample_platform (hash_of b'a') d
          ≡ some (sample_platform.lower (hash_of b'c')))
        × (consumed
            ≡ record_burn sample_platform 2_000
                (sample_platform.lower (hash_of b'a'))
                (alone (k + 1) d)))
unfolding consume_recovery get_forwarding_recovery_record xdcid.Common.text_eq
    recovery_record_matches verify_forwarded_burn xdcid.Networks.get_payment_network
    xdcid.Cctp.address_to_bytes32 xdcid.Cctp.require_address
    xdcid.Cctp.Logs.has_exact_cctp_forwarding_burn xdcid.Cctp.Logs.burn_matches
    cctp_token_messenger_v2 mark_forwarding_recovery_used
consume_recovery-IsVerified_example =
    consume_recovery-IsVerified sample_platform mainnet fee_recipient receipts decoded alone
      (λ k. 2_000) lower_ascii-twice request (hash_of b'c') registered consumed 200 paid_fee true
      (some (hash_of b'c')) refl

register_recovery-IsVerified_example :
    ((payer : Text) × (verify_fee_transaction sample_platform mainnet fee_recipient receipts decoded
          request
        ≡ ok payer))
    × (recovery_record_matches sample_platform paid_fee request ≡ true)
unfolding register_recovery verify_fee_transaction xdcid.Networks.get_payment_network
    xdcid.Cctp.calculate_xdcid_convenience_fee xdcid.Cctp.validate_amount
    xdcid.Cctp.Logs.find_exact_usdc_transfer_payer xdcid.Cctp.Logs.log_payer xdcid.Common.text_eq
    xdcid.Cctp.Logs.topic_address xdcid.Common.starts_with xdcid.Cctp.Logs.uint256
    get_forwarding_recovery_record recovery_record_matches get_forwarding_recovery_use
register_recovery-IsVerified_example =
    register_recovery-IsVerified sample_platform mainnet fee_recipient receipts decoded alone
      (λ k. 1_000) request registered registered 200 paid_fee false none refl

abbrev registration : RouteBody
registration = record {
  action = some (text "register");
  burn_transaction_hash = none;
  recovery = record {
    fee_transaction_hash = some (hash_of b'a');
    recipient_amount = some (text "2000000");
    recipient = some (address_of b'b');
    source_chain_id = int 1;
    destination_chain_id = int 137;
  };
}

post-matches_example :
    (sent : RouteBody) × (input : ForwardingRecoveryInput) × (some (some registration)
      ≡ some (some sent))
    × (parse_forwarding_recovery_input sample_platform mainnet sent.recovery ≡ ok input)
    × (recovery_record_matches sample_platform paid_fee input ≡ true)
unfolding xdcid.Recovery.Route.Post.post xdcid.Common.text_eq parse_forwarding_recovery_input
    xdcid.Cctp.Logs.is_hex_of xdcid.Common.starts_with xdcid.Common.trim xdcid.Recovery.is_digits
    xdcid.Cctp.in_range xdcid.Recovery.digits_value xdcid.Recovery.network_of
    xdcid.Networks.get_payment_network register_recovery verify_fee_transaction
    xdcid.Cctp.calculate_xdcid_convenience_fee xdcid.Cctp.validate_amount
    xdcid.Cctp.Logs.find_exact_usdc_transfer_payer xdcid.Cctp.Logs.log_payer
    xdcid.Cctp.Logs.topic_address xdcid.Cctp.Logs.uint256 get_forwarding_recovery_record
    recovery_record_matches get_forwarding_recovery_use
post-matches_example =
    post-matches sample_platform mainnet fee_recipient receipts decoded alone (λ k. 1_000)
      lower_ascii-twice true (some (some registration)) registered registered 200 paid_fee false
      none refl
