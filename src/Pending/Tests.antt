-- ===== src/Pending/Tests.antt =====
-- Pending transfers: the theorems at a concrete storage.
use xdcid.Common.{
  ℕ, ◌≡◌, ◌≤◌, refl, true, not, none, some, List, [], ◌∷◌, text, int, length, take, filter, All,
}
use xdcid.Common.Samples.{sample_platform, address_of, hash_of}
use xdcid.Pending.{
  PendingCctpTransfer, standard, forwarded, Storage, is_pending_cctp_transfer,
  read_pending_cctp_transfers, save_pending_cctp_transfer, remove_pending_cctp_transfer, has_burn,
}
use xdcid.Pending.Order.{IsSorted, read-IsSorted}
use xdcid.Pending.Storing.{read-save}

abbrev transfer_of : ℕ → ℕ → PendingCctpTransfer
transfer_of c time = record {
  burn_hash = hash_of c;
  payer = address_of b'1';
  source_chain_id = int 1;
  destination_chain_id = int 137;
  amount = text "5.5";
  recipient = address_of b'2';
  transfer_mode = some standard;
  fee_hash = none;
  created_at = time;
  updated_at = time;
}

abbrev stored : Storage
stored = record {
  transfers = some (some (transfer_of b'a' 10) ∷ none ∷ some (transfer_of b'b' 20) ∷ []);
  writable = true;
}

read-IsSorted_example :
    IsSorted (read_pending_cctp_transfers stored 30)
    × (length (read_pending_cctp_transfers stored 30) ≤ 10)
    × All (λ t. is_pending_cctp_transfer t 30 ≡ true) (read_pending_cctp_transfers stored 30)
read-IsSorted_example = read-IsSorted stored 30

abbrev saved_again : PendingCctpTransfer
saved_again = record (transfer_of b'a' 10) { updated_at = 30 }

abbrev after_save : Storage
after_save = record stored { transfers = some (some saved_again ∷ some (transfer_of b'b' 20) ∷ []) }

read-save_example :
    read_pending_cctp_transfers after_save 30
    ≡ saved_again
      ∷ take 9 (
          filter
            (λ t. not (has_burn sample_platform (hash_of b'A') t))
            (read_pending_cctp_transfers stored 30))
unfolding save_pending_cctp_transfer is_pending_cctp_transfer xdcid.Cctp.Logs.is_hex_of
    xdcid.Common.starts_with xdcid.Pending.same_number read_pending_cctp_transfers
    xdcid.Common.text_eq
read-save_example =
    read-save sample_platform stored after_save (transfer_of b'A' 5) saved_again 30 refl

abbrev after_remove : Storage
after_remove = record stored { transfers = some (some (transfer_of b'b' 20) ∷ []) }
