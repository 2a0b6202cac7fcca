-- ===== src/Recovery/Store/Uses.antt =====
-- A fee is used for one burn, and a burn uses one fee.
use xdcid.Common.{
  ◌≡◌, ◌||◌, Bool-cases, inl, inr, true, Option, none, some, List, [], ◌∷◌, Text, text_eq_sound,
  text_eq_self, find, any, has_key, Distinct, ok, Platform, arith, Option-cases, ◌≢◌, ◌⊎◌, ℕ,
}
use xdcid.Recovery.Store.{
  Burn, RecoveryDb, MarkResult, conflict, uses, get_forwarding_recovery_use,
  mark_forwarding_recovery_used, is_use, recovers, burns_as, record_burn, insert_burn, mark_known,
}
use xdcid.Recovery.Store.Consistency.{StoreReaches, reaches-IsConsistent}

find-has_key :
    (xs : List Burn) (c : Burn) (g h : Text)
    → find (uses g) xs ≡ some c
    → c.burn_transaction_hash ≡ h
    → any (has_key (λ b. b.burn_transaction_hash) h) xs ≡ true
find-has_key [] c g h e k = absurd (cc e)
find-has_key (x ∷ xs) c g h e k = ground (arith, find-has_key xs c g h, text_eq_self h)

same_fee :
    (burns : List Burn) (b c : Burn) (f g h : Text)
    → Distinct (λ b. b.burn_transaction_hash) burns
    → find (uses f) burns ≡ some b
    → find (uses g) burns ≡ some c
    → b.burn_transaction_hash ≡ h
    → c.burn_transaction_hash ≡ h
    → f ≡ g
same_fee [] b c f g h d e k _ _ = absurd (cc e)
same_fee (x ∷ xs) b c f g h (d, ds) e k eb ec = ground (
  arith,
  same_fee xs b c f g h ds,
  find-has_key xs b f h,
  find-has_key xs c g h,
  text_eq_sound x.fee_transaction_hash f,
  text_eq_sound x.fee_transaction_hash g,
)

is_use_sound : (o : Option Text) (h : Text) → is_use o h ≡ true → o ≡ some h
unfolding is_use
is_use_sound none h e = absurd (cc e)
is_use_sound (some b) h e = ground (arith, text_eq_sound b h e)

abbrev pub empty_db : RecoveryDb
empty_db = record { recoveries = []; burns = []; fee_events = [] }

module _ (p : Platform) where
  -- In the tables that any history of registrations, markings and deletions of expired rows leaves, at
  -- any times, in any order and however their statements interleave, two fee transactions that are
  -- recorded as used for the same burn are the same transaction, up to letter case.
  pub burn_uses_one_fee :
      (db : RecoveryDb) (history : StoreReaches p empty_db db) (f g burn : Text)
      → get_forwarding_recovery_use p f db ≡ some burn
      → get_forwarding_recovery_use p g db ≡ some burn
      → p.lower f ≡ p.lower g
  unfolding get_forwarding_recovery_use
  burn_uses_one_fee db history f g burn e k =
      let valid =
        reaches-IsConsistent p empty_db db history
          (record { recovery_keys = tt; burn_keys = tt; burn_hashes = tt; recovered = tt }) in
      elim (Option-cases (find (uses (p.lower f)) db.burns)) [
        | inl missing ↦ ground (arith, missing)
        | inr (b, eb) ↦ elim (Option-cases (find (uses (p.lower g)) db.burns)) [
          | inl missing ↦ ground (arith, missing)
          | inr (c, ec) ↦
              same_fee db.burns b c _ _ burn valid.burn_hashes eb ec (ground (arith, eb))
                (ground (arith, ec))
        ]
      ]

  -- A state of the tables in which a fee is recorded as used for a burn, after which other requests,
  -- and the mark on the event of the fee, made what is left.
  abbrev pub WasUsed : (ℕ → RecoveryDb → RecoveryDb) → ℕ → Text → Text → RecoveryDb → Type 0
  WasUsed others now fee burn db' =
      (k : ℕ) × (d : RecoveryDb) × (get_forwarding_recovery_use p fee d ≡ some (p.lower burn))
      × (db' ≡ record_burn p now (p.lower fee) (others k d))

  mark_known-WasUsed :
      ((s : Text) → p.lower (p.lower s) ≡ p.lower s)
      → (others : ℕ → RecoveryDb → RecoveryDb) (now : ℕ) (fee burn : Text) (db db' : RecoveryDb)
        (result : MarkResult)
      → mark_known p others now (p.lower fee) (p.lower burn) db ≡ (db', ok result)
      → (result ≡ conflict) ⊎ ((result ≢ conflict) × WasUsed others now fee burn db')
  unfolding mark_known get_forwarding_recovery_use
  mark_known-WasUsed idem others now fee burn db db' result e =
      let used = is_use (get_forwarding_recovery_use p (p.lower fee) db) (p.lower burn) in
      elim (Bool-cases used) [
        | inl same_burn ↦ inr (
          ground (arith, same_burn),
          (
            2,
            db,
            ground (
              arith,
              idem fee,
              is_use_sound (get_forwarding_recovery_use p (p.lower fee) db) (p.lower burn)
                  same_burn,
            ),
            ground (arith, same_burn),
          ),
        )
        | inr other_burn ↦ inl (ground (arith, other_burn))
      ]

  -- A marking that answers, and does not answer `conflict`, was the insertion of that use or read it.
  pub mark-WasUsed :
      ((s : Text) → p.lower (p.lower s) ≡ p.lower s)
      → (others : ℕ → RecoveryDb → RecoveryDb) (now : ℕ) (fee burn : Text) (db db' : RecoveryDb)
        (result : MarkResult)
      → mark_forwarding_recovery_used p others now fee burn db ≡ (db', ok result)
      → (result ≡ conflict) ⊎ ((result ≢ conflict) × WasUsed others now fee burn db')
  unfolding mark_forwarding_recovery_used get_forwarding_recovery_use insert_burn
  mark-WasUsed idem others now fee burn db db' result e =
      let taken = any (uses (p.lower fee)) db.burns || any (burns_as (p.lower burn)) db.burns in
      elim (Bool-cases taken) [
        | inl known ↦
            mark_known-WasUsed idem others now fee burn (others 1 db) db' result
              (ground (arith, known))
        | inr free ↦ elim (Bool-cases (any (recovers (p.lower fee)) db.recoveries)) [
          | inl found ↦ inr (
            ground (arith, free, found),
            (
              1,
              insert_burn p (p.lower fee) (p.lower burn) db,
              ground (arith, text_eq_self (p.lower fee)),
              ground (arith, free, found),
            ),
          )
          | inr missing ↦ ground (arith, free, missing)
        ]
      ]
