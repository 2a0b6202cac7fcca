-- ===== src/Recovery/Route.antt =====
-- frontend/app/api/cctp/forwarding-recovery/route.ts: the handlers that register a paid fee and
-- consume it for a burn. The transaction receipts come from an RPC node and are a parameter. Other
-- requests may change the store between two statements: `others` is what they do.
pub mod Safety
pub mod Post
use xdcid.Common.{
  ℕ, ◌+◌, ◌*◌, String, Bool, true, false, ◌||◌, not, Option, none, some, List, [], ◌∷◌, pos, Text,
  text_eq, Result, ok, err, ◌>>=◌, ◌>>◌, throw_if, or_throw, if◌then◌else◌, Platform,
}
use xdcid.Networks.{PaymentNetworkEnvironment, get_payment_network}
use xdcid.Cctp.{
  calculate_xdcid_convenience_fee, address_to_bytes32, cctp_standard_finality_threshold,
}
use xdcid.Cctp.Requests.{cctp_token_messenger_v2, cctp_zero_bytes32, cctp_forwarding_hook_data}
use xdcid.Cctp.Logs.{
  TransactionLog, BurnEvent, find_exact_usdc_transfer_payer, has_exact_cctp_forwarding_burn,
}
use xdcid.Recovery.{
  ForwardingRecoveryInput, ForwardingRecoveryRecord, recovery_record_matches,
  forwarding_recovery_ttl_seconds,
}
use xdcid.Recovery.Store.{
  RecoveryDb, MarkResult, conflict, get_forwarding_recovery_record, get_forwarding_recovery_use,
  create_forwarding_recovery_record, mark_forwarding_recovery_used,
}

pub record Receipt : Type 0 where
  pub success : Bool
  pub logs : List TransactionLog

-- What a handler answers: an error, the health of the store, or a record, whether its status is
-- "used", and its burn.
pub data Response : Type 0 where
  refused : ℕ → String → Response
  refused_for : ℕ → String → Option Text → Response
  configured : Response
  answered : ℕ → ForwardingRecoveryRecord → Bool → Option Text → Response

-- `burnTransactionHash ? "used" : "available"`
truthy : Option Text → Bool
truthy none = false
truthy (some []) = false
truthy (some (_ ∷ _)) = true

module _ (p : Platform) (env : PaymentNetworkEnvironment) (fee_recipient : Text)
    (get_receipt : ℕ → Text → Result Receipt) (decode : TransactionLog → Option BurnEvent) where
  unfoldable pub verify_fee_transaction : ForwardingRecoveryInput → Result Text
  verify_fee_transaction input = do
    network ←
        or_throw (get_payment_network env input.source_chain_id)
          "Payment source network is unavailable"
    receipt ← get_receipt input.source_chain_id input.fee_transaction_hash
    throw_if (not receipt.success)
        "Fee transaction is not a successful source-network USDC transfer"
    fee_amount ← calculate_xdcid_convenience_fee (pos input.recipient_amount)
    or_throw
        (find_exact_usdc_transfer_payer p receipt.logs (record {
          usdc_address = network.usdc_address;
          fee_recipient = fee_recipient;
          fee_amount = fee_amount;
        }))
        "Fee transaction does not contain one exact XDCID convenience-fee transfer"

  unfoldable pub verify_forwarded_burn : ForwardingRecoveryRecord → Text → Result (Unit {0})
  verify_forwarded_burn r burn_transaction_hash = do
    source ←
        or_throw (get_payment_network env r.source_chain_id) "Recovery route is no longer supported"
    destination ←
        or_throw (get_payment_network env r.destination_chain_id)
          "Recovery route is no longer supported"
    receipt ← get_receipt r.source_chain_id burn_transaction_hash
    throw_if (not receipt.success) "Burn transaction was not successful"
    mint_recipient ← address_to_bytes32 p r.recipient
    throw_if
        (not (
          has_exact_cctp_forwarding_burn p decode receipt.logs (record {
            token_messenger = cctp_token_messenger_v2 env;
            burn_token = source.usdc_address;
            depositor = r.payer;
            recipient_amount = r.recipient_amount;
            destination_domain = destination.circle_domain;
            mint_recipient = mint_recipient;
            destination_caller = cctp_zero_bytes32;
            minimum_finality_threshold = cctp_standard_finality_threshold;
            hook_data = cctp_forwarding_hook_data;
          })))
        "Burn transaction does not contain one exact Circle forwarding event"

  -- `others k` is what other requests do to the store before the k-th statement after a handler's
  -- first, and `now k` is the time of the k-th call of the store.
  module _ (others : ℕ → RecoveryDb → RecoveryDb) (now : ℕ → ℕ) where
    new_record : ForwardingRecoveryInput → Text → ℕ → ForwardingRecoveryRecord
    new_record input payer fee = record {
      fee_transaction_hash = input.fee_transaction_hash;
      source_chain_id = input.source_chain_id;
      payer = payer;
      recipient_amount = input.recipient_amount;
      convenience_fee_amount = fee;
      recipient = input.recipient;
      destination_chain_id = input.destination_chain_id;
      created_at = now 1;
      expires_at = now 1 + forwarding_recovery_ttl_seconds * 1_000;
    }

    register_known :
        ForwardingRecoveryInput
        → Text
        → ForwardingRecoveryRecord
        → RecoveryDb
        → RecoveryDb × Response
    unfolding truthy
    register_known input payer existing db =
        let burn = get_forwarding_recovery_use p input.fee_transaction_hash (others 1 db) in
        if not (recovery_record_matches p existing input) || not (text_eq existing.payer payer)
        then (db, refused 409 "This fee transaction is registered for different transfer details")
        else (others 1 db, answered 200 existing (truthy burn) burn)

    register_raced : ForwardingRecoveryInput → RecoveryDb → RecoveryDb × Response
    register_raced input db =
        elim (get_forwarding_recovery_record p (now 2) input.fee_transaction_hash db) [
          | none ↦ (db, refused 409 "This fee transaction was registered by another request")
          | some concurrent ↦
              if recovery_record_matches p concurrent input
              then (db, answered 200 concurrent false none)
              else (db, refused 409 "This fee transaction was registered by another request")
        ]

    register_new :
        ForwardingRecoveryInput → ForwardingRecoveryRecord → RecoveryDb → RecoveryDb × Response
    unfolding register_raced
    register_new input r db =
        let made =
          create_forwarding_recovery_record p (λ k. others (k + 1)) (now 1) r (others 1 db) in
        if made.1
        then (made.0, answered 201 r false none)
        else register_raced input (others 4 made.0)

    register_verified : ForwardingRecoveryInput → RecoveryDb → Text × ℕ → RecoveryDb × Response
    unfolding register_known register_new new_record
    register_verified input db (payer, fee) =
        elim (get_forwarding_recovery_record p (now 0) input.fee_transaction_hash db) [
          | some existing ↦ register_known input payer existing db
          | none ↦ register_new input (new_record input payer fee) db
        ]

    -- The fee of the record is the one of the verification, which no call of the store can change.
    unfoldable pub register_recovery :
        ForwardingRecoveryInput → RecoveryDb → RecoveryDb × Result Response
    unfolding register_verified
    register_recovery input db =
        let checked = (do
          payer ← verify_fee_transaction input
          fee ← calculate_xdcid_convenience_fee (pos input.recipient_amount)
          ok (payer, fee)) in
        elim checked [
          | err message ↦ (db, err message)
          | ok found ↦ let result = register_verified input db found in (result.0, ok result.1)
        ]

    mark_response :
        ForwardingRecoveryInput
        → ForwardingRecoveryRecord
        → Text
        → RecoveryDb
        → MarkResult
        → RecoveryDb × Response
    mark_response input r burn db conflict = (
      others 3 db,
      refused_for 409 "This fee transaction was already used for another burn"
          (get_forwarding_recovery_use p input.fee_transaction_hash (others 3 db)),
    )
    mark_response input r burn db _ = (db, answered 200 r true (some burn))

    consume_verified :
        ForwardingRecoveryInput
        → ForwardingRecoveryRecord
        → Text
        → RecoveryDb
        → RecoveryDb × Result Response
    unfolding mark_response
    consume_verified input r burn db =
        let marked =
          mark_forwarding_recovery_used p (λ k. others (k + 1)) (now 1) input.fee_transaction_hash
            burn db in
        elim marked.1 [
          | err message ↦ (marked.0, err message)
          | ok result ↦
              let answer = mark_response input r burn marked.0 result in (answer.0, ok answer.1)
        ]

    consume_matched :
        ForwardingRecoveryInput
        → ForwardingRecoveryRecord
        → Text
        → RecoveryDb
        → RecoveryDb × Result Response
    unfolding consume_verified
    consume_matched input r burn db =
        if recovery_record_matches p r input
        then elim (verify_forwarded_burn r burn) [
          | err message ↦ (db, err message)
          | ok _ ↦ consume_verified input r burn (others 1 db)
        ]
        else (
          db,
          ok (refused 404 "Register and verify the fee transaction before consuming recovery"),
        )

    unfoldable pub consume_recovery :
        ForwardingRecoveryInput → Text → RecoveryDb → RecoveryDb × Result Response
    unfolding consume_matched
    consume_recovery input burn_transaction_hash db =
        elim (get_forwarding_recovery_record p (now 0) input.fee_transaction_hash db) [
          | none ↦ (
            db,
            ok (refused 404 "Register and verify the fee transaction before consuming recovery"),
          )
          | some r ↦ consume_matched input r burn_transaction_hash db
        ]
