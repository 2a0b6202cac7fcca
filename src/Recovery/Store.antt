-- ===== src/Recovery/Store.antt =====
-- frontend/lib/forwardingRecoveryStore.ts: the tables forwarding_recoveries,
-- forwarding_recovery_burns and forwarding_fee_events. A statement of SQL is one step, and `others k` is
-- what other requests do to the tables before the k-th statement after an operation's first. Times
-- are in milliseconds. The keys of the tables and the cascade of a deletion are as the schema has them.
pub mod Consistency
pub mod Uses
use xdcid.Common.{
  ℕ, ◌+◌, ◌*◌, Bool, true, false, ◌&&◌, ◌||◌, not, Option, none, some, List, [], ◌∷◌, Text, text_eq,
  filter, find, any, update, length, Result, ok, err, ◌>>=◌, ◌>>◌, throw_if, ltb, if◌then◌else◌,
  Platform, is_some,
}
use xdcid.Recovery.{ForwardingRecoveryRecord}

pub record Burn : Type 0 where
  pub fee_transaction_hash : Text
  pub burn_transaction_hash : Text

pub record FeeEvent : Type 0 where
  pub fee_transaction_hash : Text
  pub source_chain_id : ℕ
  pub destination_chain_id : ℕ
  pub recipient_amount : ℕ
  pub convenience_fee_amount : ℕ
  pub created_at : ℕ
  pub burn_recorded_at : Option ℕ

pub record RecoveryDb : Type 0 where
  pub recoveries : List ForwardingRecoveryRecord
  pub burns : List Burn
  pub fee_events : List FeeEvent

pub data MarkResult : Type 0 where
  created same conflict : MarkResult

abbrev pub recovers : Text → ForwardingRecoveryRecord → Bool
recovers hash r = text_eq r.fee_transaction_hash hash

abbrev pub uses : Text → Burn → Bool
uses hash b = text_eq b.fee_transaction_hash hash

abbrev pub burns_as : Text → Burn → Bool
burns_as hash b = text_eq b.burn_transaction_hash hash

abbrev pub seven_days : ℕ
seven_days = 7 * 24 * 60 * 60 * 1_000

abbrev stays : ℕ → ForwardingRecoveryRecord → Bool
stays now r = not (ltb r.expires_at now || ltb (r.created_at + seven_days) now)

-- The deletion of a recovery deletes its burn.
unfoldable pub remove_expired_forwarding_recovery_data : ℕ → RecoveryDb → RecoveryDb × ℕ
remove_expired_forwarding_recovery_data now db =
    let kept = filter (stays now) db.recoveries in
    (
      record db {
        recoveries = kept;
        burns = filter (λ b. any (recovers b.fee_transaction_hash) kept) db.burns;
      },
      length (filter (λ r. not (stays now r)) db.recoveries),
    )

is_use : Option Text → Text → Bool
is_use none hash = false
is_use (some b) hash = text_eq b hash

module _ (p : Platform) where
  unfoldable pub get_forwarding_recovery_record :
      ℕ → Text → RecoveryDb → Option ForwardingRecoveryRecord
  get_forwarding_recovery_record now fee_transaction_hash db =
      find (λ r. recovers (p.lower fee_transaction_hash) r && ltb now r.expires_at) db.recoveries

  unfoldable pub get_forwarding_recovery_use : Text → RecoveryDb → Option Text
  get_forwarding_recovery_use fee_transaction_hash db =
      elim (find (uses (p.lower fee_transaction_hash)) db.burns) [
        | none ↦ none
        | some b ↦ some b.burn_transaction_hash
      ]

  -- `insert … onConflictDoNothing` into the table of recoveries, and whether a row was made.
  insert_recovery : ForwardingRecoveryRecord → RecoveryDb → RecoveryDb × Bool
  insert_recovery r db =
      let hash = p.lower r.fee_transaction_hash in
      if any (recovers hash) db.recoveries then (db, false) else (
        record db { recoveries = record r { fee_transaction_hash = hash } ∷ db.recoveries },
        true,
      )

  insert_event : ForwardingRecoveryRecord → RecoveryDb → RecoveryDb
  insert_event r db =
      let hash = p.lower r.fee_transaction_hash in
      if any (λ e. text_eq e.fee_transaction_hash hash) db.fee_events then db else record db {
        fee_events =
            record {
              fee_transaction_hash = hash;
              source_chain_id = r.source_chain_id;
              destination_chain_id = r.destination_chain_id;
              recipient_amount = r.recipient_amount;
              convenience_fee_amount = r.convenience_fee_amount;
              created_at = r.created_at;
              burn_recorded_at = none;
            }
            ∷ db.fee_events;
      }

  unfoldable pub create_forwarding_recovery_record :
      (ℕ → RecoveryDb → RecoveryDb) → ℕ → ForwardingRecoveryRecord → RecoveryDb → RecoveryDb × Bool
  unfolding insert_recovery insert_event
  create_forwarding_recovery_record others now r db =
      let cleaned = (remove_expired_forwarding_recovery_data now db).0 in
      let inserted = insert_recovery r (others 1 cleaned) in
      (insert_event r (others 2 inserted.0), inserted.1)

  -- `UPDATE forwarding_fee_events SET burn_recorded_at = …`
  pub record_burn : ℕ → Text → RecoveryDb → RecoveryDb
  record_burn now hash db = record db {
    fee_events =
        update (λ e. text_eq e.fee_transaction_hash hash)
          (λ e. record e { burn_recorded_at = some now }) db.fee_events;
  }

  insert_burn : Text → Text → RecoveryDb → RecoveryDb
  insert_burn fee burn db = record db {
    burns = record { fee_transaction_hash = fee; burn_transaction_hash = burn } ∷ db.burns;
  }

  -- What follows an insertion that conflicted.
  mark_known :
      (ℕ → RecoveryDb → RecoveryDb) → ℕ → Text → Text → RecoveryDb → RecoveryDb × Result MarkResult
  unfolding record_burn is_use get_forwarding_recovery_use
  mark_known others now fee burn db =
      if is_use (get_forwarding_recovery_use fee db) burn
      then (record_burn now fee (others 2 db), ok same)
      else (db, ok conflict)

  -- The insertion of a burn conflicts with a row of the same fee or of the same burn, and fails if
  -- the fee has no recovery.
  unfoldable pub mark_forwarding_recovery_used :
      (ℕ → RecoveryDb → RecoveryDb) → ℕ → Text → Text → RecoveryDb → RecoveryDb × Result MarkResult
  unfolding record_burn insert_burn mark_known
  mark_forwarding_recovery_used others now fee_transaction_hash burn_transaction_hash db =
      let fee = p.lower fee_transaction_hash in
      let burn = p.lower burn_transaction_hash in
      if any (uses fee) db.burns || any (burns_as burn) db.burns
      then mark_known others now fee burn (others 1 db)
      else if any (recovers fee) db.recoveries
      then (record_burn now fee (others 1 (insert_burn fee burn db)), ok created)
      else (db, err "foreign key violation")
