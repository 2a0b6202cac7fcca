-- ===== src/Pending/Storing.antt =====
-- What is read after a transfer was saved or removed.
use xdcid.Common.{
  ℕ, ◌≡◌, ◌≤◌, refl, ap, sym, ◌∙◌, true, not, Option, none, some, [], ◌∷◌, Text, take, filter, find,
  All-take, All-find, All-mono, All-filter, length-filter-le, length-take-le, arith, Platform,
}
use xdcid.Pending.{
  PendingCctpTransfer, Storage, is_pending_cctp_transfer, read_pending_cctp_transfers, has_burn,
  or_fee, saved_as, save_pending_cctp_transfer, remove_pending_cctp_transfer, is_fee_hash,
}
use xdcid.Pending.Order.{read-IsSorted, read_of_stored, filter-IsSorted, take-IsSorted}

module _ (p : Platform) where
  or_fee-is_fee_hash :
      (a b : Option Text)
      → is_fee_hash a ≡ true
      → is_fee_hash b ≡ true
      → is_fee_hash (or_fee p a b) ≡ true
  unfolding or_fee
  or_fee-is_fee_hash none b h k = k
  or_fee-is_fee_hash (some []) b h k = k
  or_fee-is_fee_hash (some (c ∷ s)) b h k = h

  saved_as-valid :
      (candidate : PendingCctpTransfer) (now : ℕ) (previous : Option PendingCctpTransfer)
      → candidate.updated_at ≡ now
      → is_pending_cctp_transfer candidate now ≡ true
      → ((t : PendingCctpTransfer) → previous ≡ some t → is_pending_cctp_transfer t now ≡ true)
      → ((saved_as p candidate now previous).updated_at ≡ now)
        × (is_pending_cctp_transfer (saved_as p candidate now previous) now ≡ true)
  unfolding saved_as is_pending_cctp_transfer
  saved_as-valid candidate now none same h k = (same, h)
  saved_as-valid candidate now (some t) same h k =
      let old = k t refl in
      (
        refl,
        ground (
          arith,
          old,
          h,
          or_fee-is_fee_hash candidate.fee_hash t.fee_hash (ground (arith, h))
              (ground (arith, old)),
        ),
      )

  updated_by :
      (t : PendingCctpTransfer) (now : ℕ)
      → is_pending_cctp_transfer t now ≡ true
      → t.updated_at ≤ now
  unfolding is_pending_cctp_transfer
  updated_by t now h = ground arith

  -- After a transfer was saved, what is read at that time is the saved transfer, and then the nine
  -- first of the transfers that were read before and are of other burns, in their order.
  pub read-save :
      (s s' : Storage) (input saved : PendingCctpTransfer) (now : ℕ)
      → save_pending_cctp_transfer p s input now ≡ (s', some saved)
      → read_pending_cctp_transfers s' now
        ≡ saved
          ∷ take 9
              (filter (λ t. not (has_burn p input.burn_hash t)) (read_pending_cctp_transfers s now))
  unfolding save_pending_cctp_transfer
  read-save s s' input saved now e =
      let (sorted, short, valid) = read-IsSorted s now in
      let existing = read_pending_cctp_transfers s now in
      let candidate : PendingCctpTransfer = record input { created_at = now; updated_at = now } in
      let previous = find (has_burn p input.burn_hash) existing in
      let others = filter (λ t. not (has_burn p input.burn_hash t)) existing in
      let (fresh, well_formed) =
        saved_as-valid candidate now previous refl (ground (arith, e))
          (λ t k. All-find (λ u. is_pending_cctp_transfer u now ≡ true) _ existing t valid k) in
      let same : saved_as p candidate now previous ≡ saved = ground (arith, e) in
      let rest_valid =
        All-take (λ t. is_pending_cctp_transfer t now ≡ true) 9 others
          (All-filter _ _ existing valid) in
      read_of_stored s' now (saved ∷ take 9 others) (ground (arith, e))
        (
          All-mono (λ t h. omega (arith, updated_by t now h, fresh, ap (λ t. t.updated_at) same))
              (take 9 others) rest_valid,
          take-IsSorted 9 others (filter-IsSorted _ existing sorted),
        )
        (omega (arith, length-take-le 9 others))
        (ap (λ t. is_pending_cctp_transfer t now) (sym same) ∙ well_formed, rest_valid)

  -- After a transfer was removed, what is read at that time is what was read before without the
  -- transfers of that burn.
  pub read-remove :
      (s s' : Storage) (hash : Text) (now : ℕ)
      → remove_pending_cctp_transfer p s hash now ≡ (s', true)
      → read_pending_cctp_transfers s' now
        ≡ filter (λ t. not (has_burn p hash t)) (read_pending_cctp_transfers s now)
  unfolding remove_pending_cctp_transfer
  read-remove s s' hash now e =
      let (sorted, short, valid) = read-IsSorted s now in
      let existing = read_pending_cctp_transfers s now in
      let others = filter (λ t. not (has_burn p hash t)) existing in
      read_of_stored s' now others (ground (arith, e)) (filter-IsSorted _ existing sorted)
        (omega (arith, short, length-filter-le (λ t. not (has_burn p hash t)) existing))
        (All-filter _ _ existing valid)
