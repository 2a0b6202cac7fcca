-- ===== src/Recovery/Route/Post.antt =====
-- frontend/app/api/cctp/forwarding-recovery/route.ts, POST: the checks of a request's body, the choice of
-- the handler, and the answer to an error.
use xdcid.Common.{
  ℕ, ◌≡◌, refl, arith, Result-cases, inl, inr, Bool-cases, String, Bool, true, false, ◌||◌, Option,
  none, some, [], ◌∷◌, starts_with, Text, text, text_eq, trim, Result, ok, err, or_else,
  if◌then◌else◌, Platform,
}
use xdcid.Networks.{PaymentNetworkEnvironment}
use xdcid.Cctp.Logs.{TransactionLog, BurnEvent}
use xdcid.Recovery.{
  ForwardingRecoveryInput, ForwardingRecoveryRecord, RecoveryBody, is_cctp_transaction_hash,
  parse_forwarding_recovery_input, recovery_record_matches,
}
use xdcid.Recovery.Store.{RecoveryDb}
use xdcid.Recovery.Route.{Receipt, Response, refused, answered, register_recovery, consume_recovery}
use xdcid.Recovery.Route.Safety.{consume_recovery-IsVerified, register_recovery-IsVerified}

pub record RouteBody : Type 0 where
  pub action : Option Text
  pub burn_transaction_hash : Option Text
  pub recovery : RecoveryBody

-- `text.includes(part)`
includes : Text → Text → Bool
includes [] part = starts_with [] part
includes (c ∷ s) part = starts_with (c ∷ s) part || includes s part

error_response : String → Response
unfolding includes
error_response message =
    if includes (text message) (text "temporarily unavailable")
      || includes (text message) (text "storage")
    then refused 503 message
    else refused 400 message

catch_error : RecoveryDb × Result Response → RecoveryDb × Response
unfolding error_response
catch_error (db, ok response) = (db, response)
catch_error (db, err message) = (db, error_response message)

module _ (p : Platform) (env : PaymentNetworkEnvironment) (fee_recipient : Text)
    (get_receipt : ℕ → Text → Result Receipt) (decode : TransactionLog → Option BurnEvent) where
  module _ (others : ℕ → RecoveryDb → RecoveryDb) (now : ℕ → ℕ) where
    handle_action : RouteBody → ForwardingRecoveryInput → RecoveryDb → RecoveryDb × Response
    unfolding catch_error
    handle_action body input db =
        let burn = trim (or_else body.burn_transaction_hash []) in
        if text_eq (or_else body.action []) (text "register")
        then catch_error
            (register_recovery p env fee_recipient get_receipt decode others now input db)
        else if is_cctp_transaction_hash burn
        then catch_error
            (consume_recovery p env fee_recipient get_receipt decode others now input burn db)
        else (db, refused 400 "Burn transaction hash must be 32-byte hex")

    handle_body : RouteBody → RecoveryDb → RecoveryDb × Response
    unfolding handle_action
    handle_body body db =
        let action = or_else body.action [] in
        if text_eq action (text "register") || text_eq action (text "consume")
        then elim (parse_forwarding_recovery_input p env body.recovery) [
          | err message ↦ (db, refused 400 message)
          | ok input ↦ handle_action body input db
        ]
        else (db, refused 400 "Recovery action must be register or consume")

    -- `POST`; a body that is no JSON is `none`, and one that is no object `some none`.
    unfoldable pub post : Bool → Option (Option RouteBody) → RecoveryDb → RecoveryDb × Response
    unfolding handle_body
    post false body db = (db, refused 503 "Forwarding recovery is temporarily unavailable")
    post true none db = (db, refused 400 "Recovery request must be valid JSON")
    post true (some none) db = (db, refused 400 "Recovery action must be register or consume")
    post true (some (some body)) db = handle_body body db

catch_error-answered :
    (db db' : RecoveryDb) (m : Result Response) (status : ℕ) (r : ForwardingRecoveryRecord)
    (used : Bool) (b : Option Text)
    → catch_error (db, m) ≡ (db', answered status r used b)
    → (db ≡ db') × (m ≡ ok (answered status r used b))
unfolding catch_error error_response
catch_error-answered db db' (ok response) status r used b e = ground arith
catch_error-answered db db' (err message) status r used b e = ground arith

module _ (p : Platform) (env : PaymentNetworkEnvironment) (fee_recipient : Text)
    (get_receipt : ℕ → Text → Result Receipt) (decode : TransactionLog → Option BurnEvent)
    (others : ℕ → RecoveryDb → RecoveryDb) (now : ℕ → ℕ) where
  handle_action-matches :
      ((s : Text) → p.lower (p.lower s) ≡ p.lower s)
      → (body : RouteBody) (input : ForwardingRecoveryInput) (db db' : RecoveryDb) (status : ℕ)
      → (r : ForwardingRecoveryRecord) (used : Bool) (b : Option Text)
      → handle_action p env fee_recipient get_receipt decode others now body input db
        ≡ (db', answered status r used b)
      → recovery_record_matches p r input ≡ true
  unfolding handle_action
  handle_action-matches idem body input db db' status r used b e =
      let burn = trim (or_else body.burn_transaction_hash []) in
      elim (Bool-cases (text_eq (or_else body.action []) (text "register"))) [
        | inl registers ↦
            let call =
              register_recovery p env fee_recipient get_receipt decode others now input db in
            let (state, answer) =
              catch_error-answered call.0 db' call.1 status r used b (ground (arith, registers)) in
            (register_recovery-IsVerified p env fee_recipient get_receipt decode others now input db
              db' status r used b (ground (arith, state, answer))).1
        | inr consumes ↦ elim (Bool-cases (is_cctp_transaction_hash burn)) [
          | inl hashed ↦
              let call =
                consume_recovery p env fee_recipient get_receipt decode others now input burn db in
              let (state, answer) =
                catch_error-answered call.0 db' call.1 status r used b
                  (ground (arith, consumes, hashed)) in
              let (_, _, matches, _, _, _, _) =
                consume_recovery-IsVerified p env fee_recipient get_receipt decode others now idem
                  input burn db db' status r used b (ground (arith, state, answer)) in
              matches
          | inr not_hashed ↦ ground (arith, consumes, not_hashed)
        ]
      ]

  -- Whatever a request to the recovery route sends, when it is answered with a record, its body is an
  -- input that parses, and the record agrees with that input in all five fields. Lower-casing twice
  -- is assumed to be lower-casing once.
  pub post-matches :
      ((s : Text) → p.lower (p.lower s) ≡ p.lower s)
      → (enabled : Bool) (body : Option (Option RouteBody)) (db db' : RecoveryDb) (status : ℕ)
      → (r : ForwardingRecoveryRecord) (used : Bool) (b : Option Text)
      → post p env fee_recipient get_receipt decode others now enabled body db
        ≡ (db', answered status r used b)
      → (sent : RouteBody) × (input : ForwardingRecoveryInput) × (body ≡ some (some sent))
        × (parse_forwarding_recovery_input p env sent.recovery ≡ ok input)
        × (recovery_record_matches p r input ≡ true)
  unfolding post handle_body
  post-matches idem false body db db' status r used b e = ground arith
  post-matches idem true none db db' status r used b e = ground arith
  post-matches idem true (some none) db db' status r used b e = ground arith
  post-matches idem true (some (some sent)) db db' status r used b e =
      elim (Result-cases (parse_forwarding_recovery_input p env sent.recovery)) [
        | inr (m, failed) ↦ ground (arith, failed)
        | inl (input, parsed) ↦ (
          sent,
          input,
          refl,
          parsed,
          handle_action-matches idem sent input db db' status r used b (ground (arith, parsed)),
        )
      ]
