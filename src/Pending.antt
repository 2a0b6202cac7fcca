-- ===== src/Pending.antt =====
-- frontend/lib/pendingCctpTransfers.ts: the transfers that the browser's storage remembers until their
-- mint. An entry that is no object, or has a field of another type, is `none`; times are natural
-- numbers of milliseconds.
pub mod Order
pub mod Storing
mod Tests
use xdcid.Common.{
  ℕ, ◌+◌, ◌*◌, Bool, true, false, ◌&&◌, not, Option, none, some, List, [], ◌∷◌, Text, text_eq,
  length, take, find, filter, Number, int, leb, ltb, ◌==◌, if◌then◌else◌, Platform, ◌||◌,
}
use xdcid.Cctp.Logs.{is_hex_of}

pub data PendingMode : Type 0 where
  standard forwarded : PendingMode

pub record PendingCctpTransfer : Type 0 where
  pub burn_hash : Text
  pub payer : Text
  pub source_chain_id : Number
  pub destination_chain_id : Number
  pub amount : Text
  pub recipient : Text
  pub transfer_mode : Option PendingMode
  pub fee_hash : Option Text
  pub created_at : ℕ
  pub updated_at : ℕ

pub record PendingQuery : Type 0 where
  pub payer : Text
  pub source_chain_id : Number
  pub destination_chain_id : Number
  pub amount : Text
  pub recipient : Text

-- The stored list, or `none` for no value, one that does not parse, or one of another version; and
-- whether `setItem` succeeds.
pub record Storage : Type 0 where
  pub transfers : Option (List (Option PendingCctpTransfer))
  pub writable : Bool

abbrev pub max_pending_transfers : ℕ
max_pending_transfers = 10

abbrev pub pending_transfer_ttl_ms : ℕ
pending_transfer_ttl_ms = 30 * 24 * 60 * 60 * 1_000

is_positive : Number → Bool
is_positive (int n) = ltb 0 n
is_positive _ = false

-- `===` of numbers that are positive integers.
unfoldable pub same_number : Number → Number → Bool
same_number (int a) (int b) = a == b
same_number _ _ = false

is_known : Option PendingMode → Bool
is_known none = false
is_known (some _) = true

is_fee_hash : Option Text → Bool
is_fee_hash none = true
is_fee_hash (some h) = is_hex_of 64 h

pub is_pending_cctp_transfer : PendingCctpTransfer → ℕ → Bool
unfolding is_positive is_known is_fee_hash
is_pending_cctp_transfer t now =
    is_hex_of 64 t.burn_hash
    && is_hex_of 40 t.payer
    && is_positive t.source_chain_id
    && is_positive t.destination_chain_id
    && not (same_number t.source_chain_id t.destination_chain_id)
    && ltb 0 (length t.amount)
    && is_hex_of 40 t.recipient
    && is_known t.transfer_mode
    && is_fee_hash t.fee_hash
    && leb t.created_at now
    && leb t.updated_at now
    && leb now (t.updated_at + pending_transfer_ttl_ms)

-- The entries that have the shape of a transfer.
abbrev pub shaped : List (Option PendingCctpTransfer) → List PendingCctpTransfer
shaped [] = []
shaped (none ∷ ts) = shaped ts
shaped (some t ∷ ts) = t ∷ shaped ts

abbrev pub as_stored : List PendingCctpTransfer → List (Option PendingCctpTransfer)
as_stored [] = []
as_stored (t ∷ ts) = some t ∷ as_stored ts

insert : PendingCctpTransfer → List PendingCctpTransfer → List PendingCctpTransfer
insert t [] = t ∷ []
insert t (u ∷ us) =
    let rest = insert t us in if leb u.updated_at t.updated_at then t ∷ u ∷ us else u ∷ rest

-- The stable sort by `right.updatedAt - left.updatedAt`.
sort : List PendingCctpTransfer → List PendingCctpTransfer
unfolding insert
sort [] = []
sort (t ∷ ts) = insert t (sort ts)

stored_list : Storage → List (Option PendingCctpTransfer)
stored_list s = elim s.transfers [ none ↦ [] | some ts ↦ ts ]

pub read_pending_cctp_transfers : Storage → ℕ → List PendingCctpTransfer
unfolding sort stored_list
read_pending_cctp_transfers s now =
    take max_pending_transfers
      (sort (filter (λ t. is_pending_cctp_transfer t now) (shaped (stored_list s))))

module _ (p : Platform) where
  abbrev pub has_burn : Text → PendingCctpTransfer → Bool
  has_burn hash t = text_eq (p.lower t.burn_hash) (p.lower hash)

  -- `input.feeHash || previous.feeHash`
  or_fee : Option Text → Option Text → Option Text
  or_fee none fee = fee
  or_fee (some []) fee = fee
  or_fee (some (c ∷ s)) fee = some (c ∷ s)

  -- The record that is saved, of what was stored for its burn before.
  saved_as : PendingCctpTransfer → ℕ → Option PendingCctpTransfer → PendingCctpTransfer
  unfolding or_fee
  saved_as candidate now none = candidate
  saved_as candidate now (some previous) = record previous {
    fee_hash = or_fee candidate.fee_hash previous.fee_hash;
    updated_at = now;
  }

  -- The times of the input are not read.
  unfoldable pub save_pending_cctp_transfer :
      Storage → PendingCctpTransfer → ℕ → Storage × Option PendingCctpTransfer
  unfolding saved_as
  save_pending_cctp_transfer s input now =
      let candidate = record input { created_at = now; updated_at = now } in
      let existing = read_pending_cctp_transfers s now in
      let saved = saved_as candidate now (find (has_burn input.burn_hash) existing) in
      let transfers =
        take max_pending_transfers
          (saved ∷ filter (λ t. not (has_burn input.burn_hash t)) existing) in
      if is_pending_cctp_transfer candidate now && s.writable
      then (record s { transfers = some (as_stored transfers) }, some saved)
      else (s, none)

  unfoldable pub remove_pending_cctp_transfer : Storage → Text → ℕ → Storage × Bool
  remove_pending_cctp_transfer s burn_hash now =
      let transfers = read_pending_cctp_transfers s now in
      let remaining = filter (λ t. not (has_burn burn_hash t)) transfers in
      if not (length remaining == length transfers) && s.writable
      then (record s { transfers = some (as_stored remaining) }, true)
      else (s, false)

  pub find_matching_pending_cctp_transfer :
      List PendingCctpTransfer → PendingQuery → Option PendingCctpTransfer
  find_matching_pending_cctp_transfer transfers input =
      find
        (λ t.
          text_eq (p.lower t.payer) (p.lower input.payer)
          && same_number t.source_chain_id input.source_chain_id
          && same_number t.destination_chain_id input.destination_chain_id
          && text_eq t.amount input.amount
          && text_eq (p.lower t.recipient) (p.lower input.recipient))
        transfers
