-- ===== src/Archive/Purchases.antt =====
-- frontend/lib/archiveSubscriptionPurchases.ts: the challenges and the activation of a purchase.
-- `others k` is what other requests do to the tables before the k-th statement after the first.
pub mod Once
pub mod Access
use xdcid.Common.{
  ℕ, ◌+◌, ◌-◌, ◌*◌, max, Bool, true, false, ◌&&◌, not, Option, none, some, List, [], ◌∷◌, length,
  filter, find, update, any, Text, text_eq, ltb, leb, ◌==◌, if◌then◌else◌, Result, err, ok, ◌>>=◌,
  ◌>>◌, throw_if, Platform,
}
use xdcid.Archive.{
  Entitlement, active, purchase, PurchaseChallenge, ArchivePayment, ArchiveDb, is_active, has_id,
  day_ms,
}

abbrev pub challenge_minutes : ℕ
challenge_minutes = 15

abbrev pub hour_ms : ℕ
hour_ms = 60 * 60 * 1_000

-- The columns that a purchase's lookup and its insertion return.
pub record Purchased : Type 0 where
  pub entitlement_id : Text
  pub starts_at : ℕ
  pub expires_at : ℕ

pub record ArchivePurchaseResult : Type 0 where
  pub purchased : Purchased
  pub transaction_hash : Text
  pub idempotent : Bool

abbrev pub paid_by : ℕ → Text → ArchivePayment → Bool
paid_by chain_id hash p = p.chain_id == chain_id && text_eq p.transaction_hash hash

selected : Option Entitlement → Option Purchased
selected none = none
selected (some e) =
    some (record { entitlement_id = e.id; starts_at = e.starts_at; expires_at = e.expires_at })

joined : Option ArchivePayment → List Entitlement → Option Purchased
unfolding selected
joined none entitlements = none
joined (some p) entitlements = selected (find (has_id p.entitlement_id) entitlements)

-- The payment of a transaction, joined with its entitlement.
unfoldable pub find_purchase : ℕ → Text → ArchiveDb → Option Purchased
unfolding joined
find_purchase chain_id hash db = joined (find (paid_by chain_id hash) db.payments) db.entitlements

pub is_current : Text → ℕ → Entitlement → Bool
is_current fingerprint now e =
    text_eq e.wallet_fingerprint fingerprint && is_active e.status && ltb now e.expires_at

-- `greatest(now(), coalesce(max(expires_at), now()))` over the wallet's current entitlements.
pub latest_expiry : Text → ℕ → List Entitlement → ℕ
unfolding is_current
latest_expiry fingerprint now [] = now
latest_expiry fingerprint now (e ∷ es) =
    let rest = latest_expiry fingerprint now es in
    if is_current fingerprint now e then max e.expires_at rest else rest

mark_used : Text → Text → ℕ → PurchaseChallenge → PurchaseChallenge
mark_used id hash now c = record c {
  used_at = some (elim c.used_at [ none ↦ now | some time ↦ time ]);
  transaction_hash = some (elim c.transaction_hash [ none ↦ hash | some other ↦ other ]);
}

pub mark_challenge_used : Text → Text → ℕ → ArchiveDb → ArchiveDb
unfolding mark_used
mark_challenge_used id hash now db = record db {
  challenges = update (λ c. text_eq c.id id) (mark_used id hash now) db.challenges;
}

module _ (p : Platform) (add_years : ℕ → ℕ → ℕ) where
  -- The entitlement that a purchase inserts.
  pub bought : Text → PurchaseChallenge → ℕ → List Entitlement → Entitlement
  unfolding latest_expiry
  bought id c now entitlements = record {
    id = id;
    wallet_fingerprint = c.wallet_fingerprint;
    starts_at = now;
    expires_at = add_years (latest_expiry c.wallet_fingerprint now entitlements) c.plan_years;
    status = active;
    source = purchase;
    created_by = none;
    revoked_at = none;
    revoked_by = none;
  }

  paid : Text → PurchaseChallenge → Text → ArchivePayment
  paid id c hash = record {
    chain_id = c.chain_id;
    transaction_hash = hash;
    wallet_fingerprint = c.wallet_fingerprint;
    plan_years = c.plan_years;
    amount_atomic = c.amount_atomic;
    entitlement_id = id;
  }

  -- The statement that inserts a payment and, unless its transaction was used, an entitlement.
  unfoldable pub insert_purchase :
      Text → PurchaseChallenge → Text → ℕ → ArchiveDb → Result (ArchiveDb × Option Purchased)
  unfolding bought paid selected
  insert_purchase id c hash now db =
      if any (paid_by c.chain_id hash) db.payments
      then ok (db, none)
      else if any (has_id id) db.entitlements
      then err "duplicate key value violates unique constraint"
      else (let row = bought id c now db.entitlements in
          ok (
            record db {
              entitlements = row ∷ db.entitlements;
              payments = paid id c hash ∷ db.payments;
            },
            selected (some row),
          ))

  -- The challenge is marked last, whichever statement found the purchase.
  finish_activation :
      (ℕ → ArchiveDb → ArchiveDb)
      → PurchaseChallenge
      → Text
      → Bool
      → ℕ
      → ArchiveDb
      → Option Purchased
      → ArchiveDb × Result ArchivePurchaseResult
  unfolding mark_challenge_used
  finish_activation others c transaction_hash idempotent now db none =
      (db, err "Archive entitlement activation could not be confirmed")
  finish_activation others c transaction_hash idempotent now db (some purchased) = (
    mark_challenge_used c.id (p.lower transaction_hash) now (others 2 db),
    ok (record {
      purchased = purchased;
      transaction_hash = transaction_hash;
      idempotent = idempotent;
    }),
  )

  -- What follows the insertion: where it inserted nothing, another request may have.
  after_insertion :
      (ℕ → ArchiveDb → ArchiveDb)
      → PurchaseChallenge
      → Text
      → ℕ
      → ArchiveDb
      → Result (ArchiveDb × Option Purchased)
      → ArchiveDb × Result ArchivePurchaseResult
  unfolding finish_activation
  after_insertion others c transaction_hash now db (err e) = (db, err e)
  after_insertion others c transaction_hash now db (ok (db', some row)) =
      finish_activation others c transaction_hash false now db' (some row)
  after_insertion others c transaction_hash now db (ok (db', none)) =
      finish_activation others c transaction_hash false now (others 1 db')
        (find_purchase c.chain_id (p.lower transaction_hash) (others 1 db'))

  -- Of the purchase that the first statement finds; `id` is the random id of the entitlement.
  activate_found :
      (ℕ → ArchiveDb → ArchiveDb)
      → Text
      → PurchaseChallenge
      → Text
      → ℕ
      → ArchiveDb
      → Option Purchased
      → ArchiveDb × Result ArchivePurchaseResult
  unfolding finish_activation after_insertion
  activate_found others id c transaction_hash now db (some purchased) =
      finish_activation others c transaction_hash true now db (some purchased)
  activate_found others id c transaction_hash now db none =
      after_insertion others c transaction_hash now (others 0 db)
        (insert_purchase id c (p.lower transaction_hash) now (others 0 db))

  unfoldable pub activate_archive_purchase :
      (ℕ → ArchiveDb → ArchiveDb)
      → Text
      → PurchaseChallenge
      → Text
      → ℕ
      → ArchiveDb
      → ArchiveDb × Result ArchivePurchaseResult
  unfolding activate_found
  activate_archive_purchase others id c transaction_hash now db =
      activate_found others id c transaction_hash now db
        (find_purchase c.chain_id (p.lower transaction_hash) db)
