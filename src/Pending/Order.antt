-- ===== src/Pending/Order.antt =====
-- The stored transfers are read newest first; a list that is already as read is read as it stands.
use xdcid.Common.{
  ℕ, zero, suc, ◌≡◌, ◌≤◌, refl, ap, inl, inr, Bool, true, some, List, [], ◌∷◌, length, take, filter,
  All, All-take, All-mono, All-filter, filter-All, length-take-le, leb, arith, Bool-cases,
}
use xdcid.Pending.{
  PendingCctpTransfer, Storage, is_pending_cctp_transfer, insert, sort, shaped, as_stored,
  stored_list, read_pending_cctp_transfers, max_pending_transfers,
}

-- Newest first.
abbrev pub IsSorted : List PendingCctpTransfer → Type 0
IsSorted [] = Unit
IsSorted (t ∷ ts) = All (λ u. u.updated_at ≤ t.updated_at) ts × IsSorted ts

insert-All {κ} :
    (P : PendingCctpTransfer → Type κ) (t : PendingCctpTransfer) (ts : List PendingCctpTransfer)
    → P t
    → All P ts
    → All P (insert t ts)
unfolding insert
insert-All P t [] h _ = (h, tt)
insert-All P t (u ∷ us) h (k, ks) = ground (arith, insert-All P t us h ks)

sort-All {κ} :
    (P : PendingCctpTransfer → Type κ) (ts : List PendingCctpTransfer) → All P ts → All P (sort ts)
unfolding sort
sort-All P [] _ = tt
sort-All P (t ∷ ts) (h, hs) = insert-All P t (sort ts) h (sort-All P ts hs)

insert-IsSorted :
    (t : PendingCctpTransfer) (ts : List PendingCctpTransfer) → IsSorted ts → IsSorted (insert t ts)
unfolding insert
insert-IsSorted t [] s = (tt, tt)
insert-IsSorted t (u ∷ us) (h, s) = elim (Bool-cases (leb u.updated_at t.updated_at)) [
  | inl older ↦ rw older ((ground arith, All-mono (λ x k. ground arith) us h), (h, s))
  | inr newer ↦
      rw newer (
        insert-All (λ x. x.updated_at ≤ u.updated_at) t us (ground arith) h,
        insert-IsSorted t us s,
      )
]

sort-IsSorted : (ts : List PendingCctpTransfer) → IsSorted (sort ts)
unfolding sort
sort-IsSorted [] = tt
sort-IsSorted (t ∷ ts) = insert-IsSorted t (sort ts) (sort-IsSorted ts)

pub take-IsSorted : (n : ℕ) (ts : List PendingCctpTransfer) → IsSorted ts → IsSorted (take n ts)
take-IsSorted zero ts s = tt
take-IsSorted (suc n) [] s = tt
take-IsSorted (suc n) (t ∷ ts) (h, s) = (All-take _ n ts h, take-IsSorted n ts s)

-- What is read is newest first, at most ten transfers, and every one of them is well formed and at
-- most thirty days old.
pub read-IsSorted :
    (s : Storage) (now : ℕ)
    → IsSorted (read_pending_cctp_transfers s now)
      × (length (read_pending_cctp_transfers s now) ≤ 10)
      × All (λ t. is_pending_cctp_transfer t now ≡ true) (read_pending_cctp_transfers s now)
unfolding read_pending_cctp_transfers
read-IsSorted s now =
    let valid = filter (λ t. is_pending_cctp_transfer t now) (shaped (stored_list s)) in
    (
      take-IsSorted max_pending_transfers (sort valid) (sort-IsSorted valid),
      length-take-le max_pending_transfers (sort valid),
      All-take _ max_pending_transfers (sort valid) (
          sort-All (λ t. is_pending_cctp_transfer t now ≡ true) valid
            (filter-All _ (shaped (stored_list s)))),
    )

pub filter-IsSorted :
    (q : PendingCctpTransfer → Bool) (ts : List PendingCctpTransfer)
    → IsSorted ts
    → IsSorted (filter q ts)
filter-IsSorted q [] s = tt
filter-IsSorted q (t ∷ ts) (h, s) =
    ground (arith, filter-IsSorted q ts s, All-filter (λ u. u.updated_at ≤ t.updated_at) q ts h)

sort_of_IsSorted : (ts : List PendingCctpTransfer) → IsSorted ts → sort ts ≡ ts
unfolding sort insert
sort_of_IsSorted [] s = refl
sort_of_IsSorted (t ∷ []) s = refl
sort_of_IsSorted (t ∷ u ∷ us) ((h, hs), s) = rw (sort_of_IsSorted (u ∷ us) s) (ground arith)

filter_of_All {ℓ} :
    {A : Type ℓ} (q : A → Bool) (xs : List A) → All (λ x. q x ≡ true) xs → filter q xs ≡ xs
filter_of_All q [] h = refl
filter_of_All q (x ∷ xs) (h, hs) = rw (h, filter_of_All q xs hs) refl

take_of_le {ℓ} : {A : Type ℓ} (n : ℕ) (xs : List A) → length xs ≤ n → take n xs ≡ xs
take_of_le zero [] h = refl
take_of_le zero (x ∷ xs) h = absurd (omega arith)
take_of_le (suc n) [] h = refl
take_of_le (suc n) (x ∷ xs) h = ap (λ r. x ∷ r) (take_of_le n xs (omega arith))

shaped-as_stored : (ts : List PendingCctpTransfer) → shaped (as_stored ts) ≡ ts
shaped-as_stored [] = refl
shaped-as_stored (t ∷ ts) = ap (λ r. t ∷ r) (shaped-as_stored ts)

-- A list that has the properties of one that was read is read back as it was stored.
pub read_of_stored :
    (s : Storage) (now : ℕ) (ts : List PendingCctpTransfer)
    → s.transfers ≡ some (as_stored ts)
    → IsSorted ts
    → length ts ≤ 10
    → All (λ t. is_pending_cctp_transfer t now ≡ true) ts
    → read_pending_cctp_transfers s now ≡ ts
unfolding read_pending_cctp_transfers stored_list
read_of_stored s now ts e sorted short valid =
    rw (e, shaped-as_stored ts, filter_of_All _ ts valid, sort_of_IsSorted ts sorted)
      (take_of_le max_pending_transfers ts short)
