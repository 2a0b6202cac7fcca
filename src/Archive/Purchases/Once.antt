-- ===== src/Archive/Purchases/Once.antt =====
-- A transaction buys one entitlement.
use xdcid.Common.{
  ℕ, ◌≡◌, refl, sym, ap, ◌∙◌, subst, inl, inr, Bool, true, false, Option, none, some, ◌∷◌, any,
  Text, text_eq_self, ==_self, Result, err, ok, Bool-cases, arith, Platform,
}
use xdcid.Archive.{PurchaseChallenge, ArchiveDb, has_id}
use xdcid.Archive.Purchases.{
  Purchased, ArchivePurchaseResult, paid_by, selected, joined, find_purchase, mark_challenge_used,
  bought, paid, insert_purchase, finish_activation, after_insertion, activate_found,
  activate_archive_purchase,
}

-- Other requests leave the purchase of a transaction as it is found.
abbrev pub KeepsPurchase : (ℕ → ArchiveDb → ArchiveDb) → ℕ → Text → Type 0
KeepsPurchase others chain_id hash =
    (k : ℕ) (db : ArchiveDb) (x : Purchased)
    → find_purchase chain_id hash db ≡ some x
    → find_purchase chain_id hash (others k db) ≡ some x

module _ (p : Platform) (add_years : ℕ → ℕ → ℕ) where
  inserted-found :
      (id : Text) (c : PurchaseChallenge) (hash : Text) (now : ℕ) (db : ArchiveDb)
      → let row = bought p add_years id c now db.entitlements in
        find_purchase c.chain_id hash (record db {
          entitlements = row ∷ db.entitlements;
          payments = paid p add_years id c hash ∷ db.payments;
        })
        ≡ selected (some row)
  unfolding find_purchase joined bought paid
  inserted-found id c hash now db = rw (==_self c.chain_id, text_eq_self hash, text_eq_self id) refl

  insert-found :
      (id : Text) (c : PurchaseChallenge) (hash : Text) (now : ℕ) (db db' : ArchiveDb)
      (x : Purchased)
      → insert_purchase p add_years id c hash now db ≡ ok (db', some x)
      → find_purchase c.chain_id hash db' ≡ some x
  unfolding insert_purchase bought paid
  insert-found id c hash now db db' x e =
      elim (Bool-cases (any (paid_by c.chain_id hash) db.payments)) [
        | inl used ↦ absurd (ground (arith, used, e))
        | inr unused ↦ elim (Bool-cases (any (has_id id) db.entitlements)) [
          | inl taken ↦ absurd (ground (arith, unused, taken, e))
          | inr fresh ↦
              let row = bought p add_years id c now db.entitlements in
              let inserted : ArchiveDb = record db {
                entitlements = row ∷ db.entitlements;
                payments = paid p add_years id c hash ∷ db.payments;
              } in
              let tables : inserted ≡ db' = ground (arith, unused, fresh, e) in
              let columns : selected (some row) ≡ some x = ground (arith, unused, fresh, e) in
              subst (λ d. find_purchase c.chain_id hash d ≡ some x) tables
                (inserted-found id c hash now db ∙ columns)
        ]
      ]

  finish-found :
      (others : ℕ → ArchiveDb → ArchiveDb) (c : PurchaseChallenge) (transaction_hash : Text)
      (idempotent : Bool) (now : ℕ) (db db' : ArchiveDb) (o : Option Purchased)
      (r : ArchivePurchaseResult)
      → KeepsPurchase others c.chain_id (p.lower transaction_hash)
      → find_purchase c.chain_id (p.lower transaction_hash) db ≡ o
      → finish_activation p add_years others c transaction_hash idempotent now db o ≡ (db', ok r)
      → find_purchase c.chain_id (p.lower transaction_hash) db' ≡ some r.purchased
  unfolding finish_activation mark_challenge_used find_purchase
  finish-found others c h i now db db' none r keeps found e = absurd (ground (arith, e))
  finish-found others c h i now db db' (some x) r keeps found e =
      let tables : mark_challenge_used c.id (p.lower h) now (others 2 db) ≡ db' =
        ground (arith, e) in
      let columns : x ≡ r.purchased = ground (arith, e) in
      subst (λ d. find_purchase c.chain_id (p.lower h) d ≡ some r.purchased) tables
        (keeps 2 db x found ∙ ap some columns)

  insertion-found :
      (others : ℕ → ArchiveDb → ArchiveDb) (id : Text) (c : PurchaseChallenge)
      (transaction_hash : Text) (now : ℕ) (db db' : ArchiveDb)
      (o : Result (ArchiveDb × Option Purchased)) (r : ArchivePurchaseResult)
      → KeepsPurchase others c.chain_id (p.lower transaction_hash)
      → insert_purchase p add_years id c (p.lower transaction_hash) now db ≡ o
      → after_insertion p add_years others c transaction_hash now db o ≡ (db', ok r)
      → find_purchase c.chain_id (p.lower transaction_hash) db' ≡ some r.purchased
  unfolding after_insertion
  insertion-found others id c h now db db' (err m) r keeps inserted e = absurd (ground (arith, e))
  insertion-found others id c h now db db' (ok (d, some x)) r keeps inserted e =
      finish-found others c h false now d db' (some x) r keeps
        (insert-found id c (p.lower h) now db d x inserted) e
  insertion-found others id c h now db db' (ok (d, none)) r keeps inserted e =
      finish-found others c h false now (others 1 d) db'
        (find_purchase c.chain_id (p.lower h) (others 1 d)) r keeps refl e

  found-found :
      (others : ℕ → ArchiveDb → ArchiveDb) (id : Text) (c : PurchaseChallenge)
      (transaction_hash : Text) (now : ℕ) (db db' : ArchiveDb) (o : Option Purchased)
      (r : ArchivePurchaseResult)
      → KeepsPurchase others c.chain_id (p.lower transaction_hash)
      → find_purchase c.chain_id (p.lower transaction_hash) db ≡ o
      → activate_found p add_years others id c transaction_hash now db o ≡ (db', ok r)
      → find_purchase c.chain_id (p.lower transaction_hash) db' ≡ some r.purchased
  unfolding activate_found
  found-found others id c h now db db' (some x) r keeps found e =
      finish-found others c h true now db db' (some x) r keeps found e
  found-found others id c h now db db' none r keeps found e =
      insertion-found others id c h now (others 0 db) db'
        (insert_purchase p add_years id c (p.lower h) now (others 0 db)) r keeps refl e

  -- A transaction whose purchase is found buys nothing more.
  again :
      (others : ℕ → ArchiveDb → ArchiveDb) (id : Text) (c : PurchaseChallenge)
      (transaction_hash : Text) (now : ℕ) (db : ArchiveDb) (x : Purchased)
      → find_purchase c.chain_id (p.lower transaction_hash) db ≡ some x
      → let (db', result) =
          activate_archive_purchase p add_years others id c transaction_hash now db in
        (result
          ≡ ok (record { purchased = x; transaction_hash = transaction_hash; idempotent = true }))
        × (db'.entitlements ≡ (others 2 db).entitlements)
        × (db'.payments ≡ (others 2 db).payments)
  unfolding activate_archive_purchase activate_found finish_activation mark_challenge_used
  again others id c h now db x found = rw found (refl, refl, refl)

  -- When a transaction has bought an entitlement, another activation with it, by whatever challenge
  -- for its network, returns the same entitlement and inserts none; this holds however other requests
  -- interleave, as long as they leave that purchase as it is found.
  pub activate-once :
      (others others' : ℕ → ArchiveDb → ArchiveDb) (id id' : Text) (c c' : PurchaseChallenge)
      (transaction_hash : Text) (now later : ℕ) (db db' : ArchiveDb) (r : ArchivePurchaseResult)
      → KeepsPurchase others c.chain_id (p.lower transaction_hash)
      → c'.chain_id ≡ c.chain_id
      → activate_archive_purchase p add_years others id c transaction_hash now db ≡ (db', ok r)
      → let (db'', result) =
          activate_archive_purchase p add_years others' id' c' transaction_hash later db' in
        (result
          ≡ ok (record {
            purchased = r.purchased;
            transaction_hash = transaction_hash;
            idempotent = true;
          }))
        × (db''.entitlements ≡ (others' 2 db').entitlements)
        × (db''.payments ≡ (others' 2 db').payments)
  unfolding activate_archive_purchase
  activate-once others others' id id' c c' h now later db db' r keeps chain e =
      let found =
        found-found others id c h now db db' (find_purchase c.chain_id (p.lower h) db) r keeps refl
          e in
      again others' id' c' h later db' r.purchased
        (subst (λ n. find_purchase n (p.lower h) db' ≡ some r.purchased) (sym chain) found)
