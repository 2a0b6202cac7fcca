-- ===== src/Archive/Challenges.antt =====
-- frontend/lib/archiveSubscriptionPurchases.ts: the challenge of a purchase, which its wallet signs.
-- `fingerprint` is the keyed hash of a wallet and `iso` is `toISOString`. `others k` is what
-- other requests do to the tables before the k-th statement of the creation after its first.
use xdcid.Common.{
  ℕ, ◌+◌, ◌*◌, Bool, ◌&&◌, Option, none, List, [], ◌∷◌, ◌++◌, length, filter, find, Text, text,
  text_eq, decimal, ltb, leb, ◌==◌, if◌then◌else◌, Result, err, ok, Platform,
}
use xdcid.Archive.{PurchaseChallenge, ArchiveDb, day_ms}
use xdcid.Archive.Purchases.{challenge_minutes, hour_ms}

lines : List Text → Text
lines [] = []
lines (line ∷ []) = line
lines (line ∷ rest) = let joined = lines rest in line ++ 10 ∷ joined

pub archive_purchase_message : (ℕ → Text) → Text → Text → ℕ → ℕ → ℕ → Text → ℕ → Text
unfolding lines
archive_purchase_message iso challenge_id wallet plan_years amount_atomic chain_id treasury
      expires_at =
    lines (
      text "XDCID Archive Subscription"
      ∷ []
      ∷ text "Authorize this wallet to purchase or renew archive access."
      ∷ text "This signature does not move funds."
      ∷ []
      ∷ (text "Challenge: " ++ challenge_id)
      ∷ (text "Wallet: " ++ wallet)
      ∷ (text "Plan: "
          ++ decimal plan_years
          ++ text " year"
          ++ (if plan_years == 1 then [] else text "s"))
      ∷ (text "Amount: " ++ decimal amount_atomic ++ text " USDC atomic units")
      ∷ (text "Chain ID: " ++ decimal chain_id)
      ∷ (text "Treasury: " ++ treasury)
      ∷ (text "Expires: " ++ iso expires_at)
      ∷ [])

module _ (p : Platform) (iso : ℕ → Text) (fingerprint : Text → Text) where
  is_same_archive_wallet : Text → Text → Bool
  is_same_archive_wallet wallet other =
      p.is_address wallet
      && p.is_address other
      && text_eq (p.get_address wallet) (p.get_address other)

  -- The wallet's challenges of the last hour.
  is_recent : Text → ℕ → PurchaseChallenge → Bool
  is_recent wallet_fingerprint now c =
      text_eq c.wallet_fingerprint wallet_fingerprint && ltb now (c.created_at + hour_ms)

  -- Challenges that expired more than a day ago are removed, also when the wallet has too many. The
  -- addresses are ones that `getAddress` accepts, and the amount is not negative.
  pub create_archive_purchase_challenge :
      (ℕ → ArchiveDb → ArchiveDb)
      → Text
      → Text
      → ℕ
      → ℕ
      → ℕ
      → Text
      → ℕ
      → ArchiveDb
      → ArchiveDb × Result PurchaseChallenge
  unfolding is_same_archive_wallet is_recent
  create_archive_purchase_challenge others id raw_wallet plan_years amount_atomic chain_id
        raw_treasury now db =
      let wallet = p.get_address raw_wallet in
      let treasury = p.get_address raw_treasury in
      let expires_at = now + challenge_minutes * 60_000 in
      let kept = filter (λ c. leb now (c.expires_at + day_ms)) db.challenges in
      let counted = others 1 (record db { challenges = kept }) in
      let recent = length (filter (is_recent (fingerprint wallet) now) counted.challenges) in
      let last = others 2 counted in
      let challenge : PurchaseChallenge = record {
        id = id;
        wallet = wallet;
        wallet_fingerprint = fingerprint wallet;
        plan_years = plan_years;
        amount_atomic = amount_atomic;
        chain_id = chain_id;
        treasury = treasury;
        message =
            archive_purchase_message iso id wallet plan_years amount_atomic chain_id treasury
              expires_at;
        expires_at = expires_at;
        used_at = none;
        transaction_hash = none;
        created_at = now;
      } in
      if amount_atomic == 0
      then (db, err "Archive price must be positive")
      else if is_same_archive_wallet wallet treasury
      then (
        db,
        err
            "The archive treasury cannot purchase a subscription because the transfer would pay itself",
      )
      else if leb 10 recent
      then (counted, err "Too many archive checkout attempts; try again later")
      else (record last { challenges = challenge ∷ last.challenges }, ok challenge)

pub get_archive_purchase_challenge : Text → ArchiveDb → Option PurchaseChallenge
get_archive_purchase_challenge id db = find (λ c. text_eq c.id id) db.challenges
