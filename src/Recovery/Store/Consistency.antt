-- ===== src/Recovery/Store/Consistency.antt =====
-- The tables of the recovery store stay consistent, and a fee is used for one burn.
use xdcid.Common.{
  ℕ, ◌||◌, ◌≡◌, inl, inr, true, false, Text, text_eq, any, All, All-mono, filter-All, Distinct,
  Distinct-filter, Platform, arith, Bool-cases,
}
use xdcid.Recovery.{ForwardingRecoveryRecord}
use xdcid.Recovery.Store.{
  RecoveryDb, recovers, uses, burns_as, stays, remove_expired_forwarding_recovery_data,
  insert_recovery, insert_event, create_forwarding_recovery_record, mark_forwarding_recovery_used,
  record_burn, insert_burn, mark_known, is_use, get_forwarding_recovery_use,
}

pub record IsConsistent (db : RecoveryDb) : Type 0 where
  pub recovery_keys : Distinct (λ r. r.fee_transaction_hash) db.recoveries
  pub burn_keys : Distinct (λ b. b.fee_transaction_hash) db.burns
  pub burn_hashes : Distinct (λ b. b.burn_transaction_hash) db.burns
  pub recovered : All (λ b. any (recovers b.fee_transaction_hash) db.recoveries ≡ true) db.burns

pub remove_expired-IsConsistent :
    (now : ℕ) (db : RecoveryDb)
    → IsConsistent db
    → IsConsistent (remove_expired_forwarding_recovery_data now db).0
unfolding remove_expired_forwarding_recovery_data
remove_expired-IsConsistent now db v = record {
  recovery_keys =
      Distinct-filter (λ r. r.fee_transaction_hash) (stays now) db.recoveries v.recovery_keys;
  burn_keys = Distinct-filter (λ b. b.fee_transaction_hash) _ db.burns v.burn_keys;
  burn_hashes = Distinct-filter (λ b. b.burn_transaction_hash) _ db.burns v.burn_hashes;
  recovered = filter-All _ db.burns;
}

module _ (p : Platform) where
  insert_recovery-IsConsistent :
      (r : ForwardingRecoveryRecord) (db : RecoveryDb)
      → IsConsistent db
      → IsConsistent (insert_recovery p r db).0
  unfolding insert_recovery
  insert_recovery-IsConsistent r db v =
      let hash = p.lower r.fee_transaction_hash in
      elim (Bool-cases (any (recovers hash) db.recoveries)) [
        | inl taken ↦ rw (taken, insert_recovery) v
        | inr free ↦
            rw (free, insert_recovery)
              (record {
                recovery_keys = (free, v.recovery_keys);
                burn_keys = v.burn_keys;
                burn_hashes = v.burn_hashes;
                recovered = All-mono (λ b h. ground arith) db.burns v.recovered;
              })
      ]

  insert_event-IsConsistent :
      (r : ForwardingRecoveryRecord) (db : RecoveryDb)
      → IsConsistent db
      → IsConsistent (insert_event p r db)
  unfolding insert_event
  insert_event-IsConsistent r db v =
      let known =
        any (λ e. text_eq e.fee_transaction_hash (p.lower r.fee_transaction_hash)) db.fee_events in
      elim (Bool-cases known) [
        | inl old ↦ rw (old, insert_event) v
        | inr new ↦
            rw (new, insert_event)
              (record {
                recovery_keys = v.recovery_keys;
                burn_keys = v.burn_keys;
                burn_hashes = v.burn_hashes;
                recovered = v.recovered;
              })
      ]

  record_burn-IsConsistent :
      (now : ℕ) (fee : Text) (db : RecoveryDb)
      → IsConsistent db
      → IsConsistent (record_burn p now fee db)
  unfolding record_burn
  record_burn-IsConsistent now fee db v = record {
    recovery_keys = v.recovery_keys;
    burn_keys = v.burn_keys;
    burn_hashes = v.burn_hashes;
    recovered = v.recovered;
  }

  insert_burn-IsConsistent :
      (fee burn : Text) (db : RecoveryDb)
      → any (uses fee) db.burns ≡ false
      → any (burns_as burn) db.burns ≡ false
      → any (recovers fee) db.recoveries ≡ true
      → IsConsistent db
      → IsConsistent (insert_burn p fee burn db)
  unfolding insert_burn
  insert_burn-IsConsistent fee burn db free_fee free_burn known v = record {
    recovery_keys = v.recovery_keys;
    burn_keys = (free_fee, v.burn_keys);
    burn_hashes = (free_burn, v.burn_hashes);
    recovered = (known, v.recovered);
  }

  module _ (others : ℕ → RecoveryDb → RecoveryDb)
      (keep : (k : ℕ) (d : RecoveryDb) → IsConsistent d → IsConsistent (others k d)) where
    pub create-IsConsistent :
        (now : ℕ) (r : ForwardingRecoveryRecord) (db : RecoveryDb)
        → IsConsistent db
        → IsConsistent (create_forwarding_recovery_record p others now r db).0
    unfolding create_forwarding_recovery_record
    create-IsConsistent now r db v = insert_event-IsConsistent r _ (
        keep 2 _
          (insert_recovery-IsConsistent r _ (keep 1 _ (remove_expired-IsConsistent now db v))))

    mark_known-IsConsistent :
        (now : ℕ) (fee burn : Text) (db : RecoveryDb)
        → IsConsistent db
        → IsConsistent (mark_known p others now fee burn db).0
    unfolding mark_known
    mark_known-IsConsistent now fee burn db v =
        elim (Bool-cases (is_use (get_forwarding_recovery_use p fee db) burn)) [
          | inl same_burn ↦
              rw (same_burn, mark_known) (record_burn-IsConsistent now fee _ (keep 2 db v))
          | inr other_burn ↦ rw (other_burn, mark_known) v
        ]

    pub mark-IsConsistent :
        (now : ℕ) (fee burn : Text) (db : RecoveryDb)
        → IsConsistent db
        → IsConsistent (mark_forwarding_recovery_used p others now fee burn db).0
    unfolding mark_forwarding_recovery_used
    mark-IsConsistent now fee burn db v =
        let hash = p.lower fee in
        let taken = any (uses hash) db.burns || any (burns_as (p.lower burn)) db.burns in
        elim (Bool-cases taken) [
          | inl known ↦
              rw (known, mark_forwarding_recovery_used)
                (mark_known-IsConsistent now hash (p.lower burn) (others 1 db) (keep 1 db v))
          | inr free ↦ elim (Bool-cases (any (recovers hash) db.recoveries)) [
            | inl found ↦
                rw (free, found, mark_forwarding_recovery_used)
                  (record_burn-IsConsistent now hash _ (
                    keep 1 _ (
                      insert_burn-IsConsistent hash (p.lower burn) db (ground (arith, free))
                        (ground (arith, free)) found v)))
            | inr missing ↦ rw (free, missing, mark_forwarding_recovery_used) v
          ]
        ]

module _ (p : Platform) where
  -- What the callers of the store make of the tables, in any order and at any times. What happens
  -- between two statements of a call is such a history too.
  pub data StoreReaches : RecoveryDb → RecoveryDb → Type 0 where
    nothing : {db : RecoveryDb} → StoreReaches db db
    then : {a b c : RecoveryDb} → StoreReaches a b → StoreReaches b c → StoreReaches a c
    creates :
        {db : RecoveryDb} (others : ℕ → RecoveryDb → RecoveryDb)
        → ((k : ℕ) (d : RecoveryDb) → StoreReaches d (others k d))
        → (now : ℕ) (r : ForwardingRecoveryRecord)
        → StoreReaches db (create_forwarding_recovery_record p others now r db).0
    marks :
        {db : RecoveryDb} (others : ℕ → RecoveryDb → RecoveryDb)
        → ((k : ℕ) (d : RecoveryDb) → StoreReaches d (others k d))
        → (now : ℕ) (fee burn : Text)
        → StoreReaches db (mark_forwarding_recovery_used p others now fee burn db).0
    cleans :
        {db : RecoveryDb} (now : ℕ)
        → StoreReaches db (remove_expired_forwarding_recovery_data now db).0

  -- Any history of calls leaves consistent tables consistent: fees, burns and burn hashes are
  -- distinct, and every burn has its recovery.
  pub reaches-IsConsistent :
      (db db' : RecoveryDb) → StoreReaches db db' → IsConsistent db → IsConsistent db'
  reaches-IsConsistent db _ nothing v = v
  reaches-IsConsistent a c (then {b = b} f g) v =
      reaches-IsConsistent b c g (reaches-IsConsistent a b f v)
  reaches-IsConsistent db _ (creates others during now r) v =
      create-IsConsistent p others (λ k d. reaches-IsConsistent d (others k d) (during k d)) now r
        db v
  reaches-IsConsistent db _ (marks others during now fee burn) v =
      mark-IsConsistent p others (λ k d. reaches-IsConsistent d (others k d) (during k d)) now fee
        burn db v
  reaches-IsConsistent db _ (cleans now) v = remove_expired-IsConsistent now db v
