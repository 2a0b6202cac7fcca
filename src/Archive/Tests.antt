-- ===== src/Archive/Tests.antt =====
-- The archive: the theorems at a concrete purchase.
use xdcid.Common.{
  ℕ, ◌+◌, ◌*◌, ◌≡◌, refl, Bool, true, false, text_eq, none, some, [], ◌∷◌, Text, text, ok,
}
use xdcid.Common.Samples.{sample_platform, address_of, hash_of}
use xdcid.Archive.{Entitlement, active, admin, is_active, PurchaseChallenge, ArchiveDb}
use xdcid.Archive.Purchases.{
  Purchased, ArchivePurchaseResult, insert_purchase, activate_archive_purchase,
}
use xdcid.Archive.Purchases.Once.{activate-once}

abbrev sample_challenge : PurchaseChallenge
sample_challenge = record {
  id = text "challenge";
  wallet = address_of b'1';
  wallet_fingerprint = text "wallet";
  plan_years = 3;
  amount_atomic = 30_000_000;
  chain_id = 137;
  treasury = address_of b'2';
  message = text "sign";
  expires_at = 900;
  used_at = none;
  transaction_hash = none;
  created_at = 0;
}

-- The wallet has an entitlement that ends at 1000.
abbrev sample_db : ArchiveDb
sample_db = record {
  entitlements =
      (record {
        id = text "old";
        wallet_fingerprint = text "wallet";
        starts_at = 0;
        expires_at = 1_000;
        status = active;
        source = admin;
        created_by = none;
        revoked_at = none;
        revoked_by = none;
      })
      ∷ [];
  challenges = sample_challenge ∷ [];
  payments = [];
}

-- A year has a hundred milliseconds.
abbrev add_hundreds : ℕ → ℕ → ℕ
add_hundreds time years = time + years * 100

abbrev unchanged : ℕ → ArchiveDb → ArchiveDb
unchanged k db = db

abbrev sample_purchase : Purchased
sample_purchase = record { entitlement_id = text "new"; starts_at = 500; expires_at = 1_300 }

abbrev first_result : ArchivePurchaseResult
first_result = record {
  purchased = sample_purchase;
  transaction_hash = hash_of b'a';
  idempotent = false;
}

abbrev after_first : ArchiveDb
after_first =
    (activate_archive_purchase sample_platform add_hundreds unchanged (text "new") sample_challenge
      (hash_of b'a') 500 sample_db).0

abbrev after_second : ArchiveDb
after_second =
    (activate_archive_purchase sample_platform add_hundreds unchanged (text "newer")
      sample_challenge (hash_of b'a') 600 after_first).0

activate-once_example :
    ((activate_archive_purchase sample_platform add_hundreds unchanged
        (text "newer")
        sample_challenge
        (hash_of b'a')
        600
        after_first).1
      ≡ ok (record {
        purchased = sample_purchase;
        transaction_hash = hash_of b'a';
        idempotent = true;
      }))
    × (after_second.entitlements ≡ after_first.entitlements)
    × (after_second.payments ≡ after_first.payments)
unfolding activate_archive_purchase xdcid.Archive.Purchases.find_purchase insert_purchase
    xdcid.Common.text_eq xdcid.Archive.is_active
activate-once_example =
    activate-once sample_platform add_hundreds unchanged unchanged (text "new") (text "newer")
      sample_challenge sample_challenge (hash_of b'a') 500 600 sample_db after_first first_result
      (λ k db x h. h) refl refl

abbrev inserted : ArchiveDb
inserted = record after_first { challenges = sample_challenge ∷ [] }
