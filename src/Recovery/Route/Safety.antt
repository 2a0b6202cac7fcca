-- ===== src/Recovery/Route/Safety.antt =====
-- What an answer of the recovery route promises.
use xdcid.Common.{
  ℕ, ◌+◌, ◌≡◌, inl, inr, Bool, true, Option, some, Text, text_eq_self, ltb, Result, ok, find_holds,
  Platform, pos, arith, Option-cases, Result-cases,
}
use xdcid.Cctp.{calculate_xdcid_convenience_fee}
use xdcid.Networks.{PaymentNetworkEnvironment}
use xdcid.Cctp.Logs.{TransactionLog, BurnEvent}
use xdcid.Recovery.{ForwardingRecoveryInput, ForwardingRecoveryRecord, recovery_record_matches}
use xdcid.Recovery.Store.{
  RecoveryDb, get_forwarding_recovery_record, get_forwarding_recovery_use,
  mark_forwarding_recovery_used, record_burn,
}
use xdcid.Recovery.Store.Uses.{WasUsed, mark-WasUsed}
use xdcid.Recovery.Route.{
  Receipt, answered, verify_fee_transaction, verify_forwarded_burn, new_record, register_known,
  register_raced, register_new, register_verified, register_recovery, mark_response,
  consume_verified, consume_matched, consume_recovery,
}

module _ (p : Platform) (env : PaymentNetworkEnvironment) (fee_recipient : Text)
    (get_receipt : ℕ → Text → Result Receipt) (decode : TransactionLog → Option BurnEvent)
    (others : ℕ → RecoveryDb → RecoveryDb) (now : ℕ → ℕ) where
  consume_verified-answered :
      ((s : Text) → p.lower (p.lower s) ≡ p.lower s)
      → (input : ForwardingRecoveryInput) (r : ForwardingRecoveryRecord) (burn : Text)
        (db db' : RecoveryDb)
      → (status : ℕ) (r' : ForwardingRecoveryRecord) (used : Bool) (b : Option Text)
      → consume_verified p env fee_recipient get_receipt decode others now input r burn db
        ≡ (db', ok (answered status r' used b))
      → (r' ≡ r)
        × (used ≡ true)
        × (b ≡ some burn)
        × WasUsed p (λ k. others (k + 1)) (now 1) input.fee_transaction_hash burn db'
  unfolding consume_verified mark_response
  consume_verified-answered idem input r burn db db' status r' used b e =
      let during = λ (k : ℕ). others (k + 1) in
      let marked =
        mark_forwarding_recovery_used p during (now 1) input.fee_transaction_hash burn db in
      elim (Result-cases marked.1) [
        | inr (m, failed) ↦ ground (arith, failed)
        | inl (result, done) ↦
            let recorded =
              mark-WasUsed p idem during (now 1) input.fee_transaction_hash burn db marked.0 result
                (ground (arith, done)) in
            ground (arith, done, recorded)
      ]

  -- When a request to consume a recovery is answered with a record, the record is the one stored for
  -- the fee, has not expired and agrees with the request in all five fields; the burn transaction was
  -- verified against the record; the answer says that the fee is used for that burn; and at a moment
  -- of the request the store recorded that use, after which only other requests and the mark on the
  -- event of the fee changed it. Other requests may do anything to the store between two statements.
  -- Lower-casing twice is assumed to be lower-casing once.
  pub consume_recovery-IsVerified :
      ((s : Text) → p.lower (p.lower s) ≡ p.lower s)
      → (input : ForwardingRecoveryInput) (burn : Text) (db db' : RecoveryDb)
      → (status : ℕ) (r : ForwardingRecoveryRecord) (used : Bool) (b : Option Text)
      → consume_recovery p env fee_recipient get_receipt decode others now input burn db
        ≡ (db', ok (answered status r used b))
      → (get_forwarding_recovery_record p (now 0) input.fee_transaction_hash db ≡ some r)
        × (ltb (now 0) r.expires_at ≡ true)
        × (recovery_record_matches p r input ≡ true)
        × (verify_forwarded_burn p env fee_recipient get_receipt decode r burn ≡ ok tt)
        × (used ≡ true)
        × (b ≡ some burn)
        × ((k : ℕ) × (d : RecoveryDb) × (get_forwarding_recovery_use p input.fee_transaction_hash d
              ≡ some (p.lower burn))
            × (db' ≡ record_burn p (now 1) (p.lower input.fee_transaction_hash) (others (k + 1) d)))
  unfolding consume_recovery consume_matched get_forwarding_recovery_record
  consume_recovery-IsVerified idem input burn db db' status r used b e =
      elim (Option-cases (get_forwarding_recovery_record p (now 0) input.fee_transaction_hash db)) [
        | inl missing ↦ ground (arith, missing)
        | inr (found, known) ↦
            elim (Result-cases
              (verify_forwarded_burn p env fee_recipient get_receipt decode found burn)) [
                | inr (m, failed) ↦ ground (arith, failed, known)
                | inl (tt, verified) ↦ ground (
                  arith,
                  verified,
                  known,
                  find_holds _ db.recoveries found known,
                  consume_verified-answered idem input found burn (others 1 db) db' status r used b,
                )
              ]
      ]

  recovery_record_matches-new :
      (input : ForwardingRecoveryInput) (payer : Text) (fee : ℕ)
      → recovery_record_matches p
          (new_record p env fee_recipient get_receipt decode others now input payer fee)
          input
        ≡ true
  unfolding recovery_record_matches new_record
  recovery_record_matches-new input payer fee = ground (
    arith,
    text_eq_self (p.lower input.fee_transaction_hash),
    text_eq_self (p.lower input.recipient),
  )

  register_verified-matches :
      (input : ForwardingRecoveryInput) (payer : Text) (fee : ℕ) (db db' : RecoveryDb)
      → (status : ℕ) (r : ForwardingRecoveryRecord) (used : Bool) (b : Option Text)
      → register_verified p env fee_recipient get_receipt decode others now input db (payer, fee)
        ≡ (db', answered status r used b)
      → recovery_record_matches p r input ≡ true
  unfolding register_verified register_known register_new register_raced
  register_verified-matches input payer fee db db' status r used b e =
      ground (arith, recovery_record_matches-new input payer fee)

  -- When a request to register a fee is answered with a record, the fee transaction was verified to be
  -- one exact transfer of the convenience fee by some payer, and the record agrees with the request,
  -- also when another request registered the fee first.
  pub register_recovery-IsVerified :
      (input : ForwardingRecoveryInput) (db db' : RecoveryDb)
      → (status : ℕ) (r : ForwardingRecoveryRecord) (used : Bool) (b : Option Text)
      → register_recovery p env fee_recipient get_receipt decode others now input db
        ≡ (db', ok (answered status r used b))
      → ((payer : Text) × (verify_fee_transaction p env fee_recipient get_receipt decode input
            ≡ ok payer))
        × (recovery_record_matches p r input ≡ true)
  unfolding register_recovery
  register_recovery-IsVerified input db db' status r used b e =
      elim (Result-cases (verify_fee_transaction p env fee_recipient get_receipt decode input)) [
        | inr (m, failed) ↦ ground (arith, failed)
        | inl (payer, verified) ↦
            elim (Result-cases (calculate_xdcid_convenience_fee (pos input.recipient_amount))) [
              | inr (m, failed) ↦ ground (arith, verified, failed)
              | inl (fee, charged) ↦ (
                (payer, verified),
                register_verified-matches input payer fee db db' status r used b
                    (ground (arith, verified, charged)),
              )
            ]
      ]
