-- ===== src/Recovery/Monitor/Order.antt =====
-- The most urgent records of the monitor come first.
use xdcid.Common.{
  ℕ, zero, suc, ◌≡◌, ◌≤◌, ◌<◌, ◌⊎◌, inl, inr, Bool, true, false, List, [], ◌∷◌, All, All-mono,
  All-take, take, arith, Bool-cases,
}
use xdcid.Recovery.Monitor.{MonitorRecord, more_urgent, priority, insert, sort}

-- Of a more urgent status, or of the same status and at least as old.
abbrev pub IsFirst : MonitorRecord → MonitorRecord → Type 0
IsFirst a b =
    (priority a.status < priority b.status)
    ⊎ ((priority a.status ≡ priority b.status) × (b.age_minutes ≤ a.age_minutes))

abbrev pub IsSorted : List MonitorRecord → Type 0
IsSorted [] = Unit
IsSorted (a ∷ rest) = All (IsFirst a) rest × IsSorted rest

IsFirst-trans : (a b c : MonitorRecord) → IsFirst a b → IsFirst b c → IsFirst a c
IsFirst-trans a b c h k = ground arith

urgent-IsFirst : (a b : MonitorRecord) → more_urgent a b ≡ true → IsFirst a b
unfolding more_urgent
urgent-IsFirst a b h = ground arith

other-IsFirst : (a b : MonitorRecord) → more_urgent b a ≡ false → IsFirst a b
unfolding more_urgent
other-IsFirst a b h = ground arith

module _ {A : Type 0} (before : A → A → Bool) (P : A → Type 0) where
  insert-All : (x : A) (ys : List A) → P x → All P ys → All P (insert before x ys)
  unfolding insert
  insert-All x [] h _ = (h, tt)
  insert-All x (y ∷ ys) h (k, ks) = ground (arith, insert-All x ys h ks)

  pub sort-All : (xs : List A) → All P xs → All P (sort before xs)
  unfolding sort
  sort-All [] _ = tt
  sort-All (x ∷ xs) (h, hs) = insert-All x (sort before xs) h (sort-All xs hs)

insert-IsSorted :
    (x : MonitorRecord) (ys : List MonitorRecord) → IsSorted ys → IsSorted (insert more_urgent x ys)
unfolding insert
insert-IsSorted x [] _ = (tt, tt)
insert-IsSorted x (y ∷ ys) (h, s) = elim (Bool-cases (more_urgent y x)) [
  | inl e ↦
      rw e
        (insert-All more_urgent (IsFirst y) x ys (urgent-IsFirst y x e) h, insert-IsSorted x ys s)
  | inr e ↦
      let first = other-IsFirst x y e in
      rw e ((first, All-mono (λ z k. IsFirst-trans x y z first k) ys h), (h, s))
]

sort-IsSorted : (xs : List MonitorRecord) → IsSorted (sort more_urgent xs)
unfolding sort
sort-IsSorted [] = tt
sort-IsSorted (x ∷ xs) = insert-IsSorted x (sort more_urgent xs) (sort-IsSorted xs)

take-IsSorted : (n : ℕ) (xs : List MonitorRecord) → IsSorted xs → IsSorted (take n xs)
take-IsSorted zero xs _ = tt
take-IsSorted (suc n) [] _ = tt
take-IsSorted (suc n) (x ∷ xs) (h, s) = (All-take _ n xs h, take-IsSorted n xs s)

pub take-sort-IsSorted : (n : ℕ) (xs : List MonitorRecord) → IsSorted (take n (sort more_urgent xs))
take-sort-IsSorted n xs = take-IsSorted n (sort more_urgent xs) (sort-IsSorted xs)
