-- ===== src/Archive.antt =====
-- frontend/lib/archiveEntitlements.ts and frontend/lib/archiveSubscriptionPurchases.ts: who may read
-- the archive, and the purchases that give that right. `add_years` adds a plan's years to a time.
pub mod Purchases
pub mod Challenges
mod Tests
use xdcid.Common.{
  ℕ, ◌+◌, ◌*◌, max, Bool, true, false, ◌&&◌, ◌||◌, not, Option, none, some, List, [], ◌∷◌, length,
  filter, find, update, any, Text, text, text_eq, ltb, leb, ◌==◌, if◌then◌else◌, is_some, or_else,
  Number, int, Result, err, ok, ◌>>=◌, ◌>>◌, throw_if, Platform,
}

pub data EntitlementStatus : Type 0 where
  active revoked : EntitlementStatus

pub data EntitlementSource : Type 0 where
  admin purchase : EntitlementSource

pub record Entitlement : Type 0 where
  pub id : Text
  pub wallet_fingerprint : Text
  pub starts_at : ℕ
  pub expires_at : ℕ
  pub status : EntitlementStatus
  pub source : EntitlementSource
  pub created_by : Option Text
  pub revoked_at : Option ℕ
  pub revoked_by : Option Text

pub record PurchaseChallenge : Type 0 where
  pub id : Text
  pub wallet : Text
  pub wallet_fingerprint : Text
  pub plan_years : ℕ
  pub amount_atomic : ℕ
  pub chain_id : ℕ
  pub treasury : Text
  pub message : Text
  pub expires_at : ℕ
  pub used_at : Option ℕ
  pub transaction_hash : Option Text
  pub created_at : ℕ

-- Without its own random id.
pub record ArchivePayment : Type 0 where
  pub chain_id : ℕ
  pub transaction_hash : Text
  pub wallet_fingerprint : Text
  pub plan_years : ℕ
  pub amount_atomic : ℕ
  pub entitlement_id : Text

pub record ArchiveDb : Type 0 where
  pub entitlements : List Entitlement
  pub challenges : List PurchaseChallenge
  pub payments : List ArchivePayment

pub is_active : EntitlementStatus → Bool
is_active active = true
is_active revoked = false

abbrev pub day_ms : ℕ
day_ms = 24 * 60 * 60 * 1_000

abbrev pub has_id : Text → Entitlement → Bool
has_id id e = text_eq e.id id

-- The rows that give a wallet access at a time, in the grace of some days after their end.
pub gives_access : Text → ℕ → ℕ → Entitlement → Bool
unfolding is_active
gives_access fingerprint grace_days now e =
    text_eq e.wallet_fingerprint fingerprint
    && is_active e.status
    && leb e.starts_at now
    && leb now (e.expires_at + grace_days * day_ms)

-- `administrator` tells whether the wallet is the archive's administrator.
pub has_active_archive_entitlement : Bool → Text → ℕ → ℕ → ArchiveDb → Bool
unfolding gives_access
has_active_archive_entitlement administrator fingerprint grace_days now db =
    administrator || any (gives_access fingerprint grace_days now) db.entitlements

-- `id` is the random id of the row; a missing start is now, and a missing source the administrator.
pub grant_wallet_archive_entitlement :
    Platform
    → Text
    → Text
    → Option ℕ
    → ℕ
    → Text
    → Option EntitlementSource
    → ℕ
    → ArchiveDb
    → Result (ArchiveDb × Entitlement)
grant_wallet_archive_entitlement p id fingerprint starts_at expires_at created_by source now db =
    let start = or_else starts_at now in
    let row : Entitlement = record {
      id = id;
      wallet_fingerprint = fingerprint;
      starts_at = start;
      expires_at = expires_at;
      status = active;
      source = or_else source admin;
      created_by = some (p.lower created_by);
      revoked_at = none;
      revoked_by = none;
    } in
    throw_if (leb expires_at start) "Archive entitlement expiry must be after its start"
    >> throw_if (any (has_id id) db.entitlements) "duplicate key value violates unique constraint"
    >> ok (record db { entitlements = row ∷ db.entitlements }, row)

is_revocable : Text → Entitlement → Bool
unfolding is_active
is_revocable id e = has_id id e && is_active e.status

pub revoke_archive_entitlement :
    Platform → Text → Text → ℕ → ArchiveDb → ArchiveDb × Result (Unit {0})
unfolding is_revocable
revoke_archive_entitlement p id revoked_by now db = (
  record db {
    entitlements =
        update (is_revocable id)
          (λ e. record e {
            status = revoked;
            revoked_at = some now;
            revoked_by = some (p.lower revoked_by);
          })
          db.entitlements;
  },
  throw_if (not (length (filter (is_revocable id) db.entitlements) == 1))
      "Active archive entitlement was not found",
)

-- `Number(value)` of a plan.
pub normalize_archive_plan_years : Number → Result ℕ
normalize_archive_plan_years (int n) =
    throw_if (not (n == 1 || n == 3 || n == 7)) "Archive plan must be 1, 3, or 7 years" >> ok n
normalize_archive_plan_years _ = err "Archive plan must be 1, 3, or 7 years"
