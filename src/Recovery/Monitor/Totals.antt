-- ===== src/Recovery/Monitor/Totals.antt =====
-- What the counters of the monitor add up to.
use xdcid.Common.{ℕ, ◌+◌, ◌≡◌, refl, Bool, List, [], ◌∷◌, length, filter, leb, if◌then◌else◌, arith}
use xdcid.Recovery.{ForwardingRecoveryRecord}
use xdcid.Recovery.Monitor.{
  ForwardingMonitorStatus, Counts, RouteCount, classify_status, status_of, count, count_all,
  warnings, add_to_route, routes_of, insert, sort,
}

abbrev pub sum : {A : Type 0} → (A → ℕ) → List A → ℕ
sum f [] = 0
sum f (x ∷ xs) = f x + sum f xs

module _ {A : Type 0} (before : A → A → Bool) (f : A → ℕ) where
  sum-insert : (x : A) (xs : List A) → sum f (insert before x xs) ≡ f x + sum f xs
  unfolding insert
  sum-insert x [] = refl
  sum-insert x (y ∷ ys) = ground (arith, sum-insert x ys)

  pub sum-sort : (xs : List A) → sum f (sort before xs) ≡ sum f xs
  unfolding sort
  sum-sort [] = refl
  sum-sort (x ∷ xs) = omega (arith, sum-insert x (sort before xs), sum-sort xs)

pub length-sum : {A : Type 0} (xs : List A) → length xs ≡ sum (λ x. 1) xs
length-sum [] = refl
length-sum (x ∷ xs) = omega (arith, length-sum xs)

filter-sum :
    {A : Type 0} (p : A → Bool) (xs : List A)
    → length (filter p xs) ≡ sum (λ x. if p x then 1 else 0) xs
filter-sum p [] = refl
filter-sum p (x ∷ xs) = ground (arith, filter-sum p xs)

pub length-sort :
    {A : Type 0} (before : A → A → Bool) (xs : List A) → length (sort before xs) ≡ length xs
length-sort before xs =
    omega (arith, length-sum xs, length-sum (sort before xs), sum-sort before (λ x. 1) xs)

pub filter-sort :
    {A : Type 0} (before : A → A → Bool) (p : A → Bool) (xs : List A)
    → length (filter p (sort before xs)) ≡ length (filter p xs)
filter-sort before p xs = omega (
  arith,
  filter-sum p xs,
  filter-sum p (sort before xs),
  sum-sort before (λ x. if p x then 1 else 0) xs,
)

abbrev pub total : Counts → ℕ
total c = c.in_progress + c.delayed + c.needs_attention + c.recovery_expired

count-total : (s : ForwardingMonitorStatus) (c : Counts) → total (count s c) ≡ total c + 1
unfolding count
count-total ForwardingMonitorStatus.in_progress c = omega arith
count-total ForwardingMonitorStatus.delayed c = omega arith
count-total ForwardingMonitorStatus.needs_attention c = omega arith
count-total ForwardingMonitorStatus.recovery_expired c = omega arith

count-in_progress :
    (s : ForwardingMonitorStatus) (c : Counts)
    → warnings s + (count s c).in_progress ≡ c.in_progress + 1
unfolding count warnings
count-in_progress ForwardingMonitorStatus.in_progress c = omega arith
count-in_progress ForwardingMonitorStatus.delayed c = omega arith
count-in_progress ForwardingMonitorStatus.needs_attention c = omega arith
count-in_progress ForwardingMonitorStatus.recovery_expired c = omega arith

count-expired :
    (now : ℕ) (row : ForwardingRecoveryRecord) (c : Counts)
    → (count (status_of now row) c).recovery_expired
      ≡ (if leb row.expires_at now then 1 else 0) + c.recovery_expired
unfolding count status_of classify_status
count-expired now row c = ground arith

module _ (now : ℕ) where
  pub count_all-total :
      (rows : List ForwardingRecoveryRecord) (c : Counts)
      → total (count_all now rows c) ≡ total c + length rows
  unfolding count_all
  count_all-total [] c = omega arith
  count_all-total (row ∷ rows) c =
      omega (
        arith,
        count-total (status_of now row) c,
        count_all-total rows (count (status_of now row) c),
      )

  pub count_all-expired :
      (rows : List ForwardingRecoveryRecord) (c : Counts)
      → (count_all now rows c).recovery_expired
        ≡ c.recovery_expired + length (filter (λ r. leb r.expires_at now) rows)
  unfolding count_all
  count_all-expired [] c = omega arith
  count_all-expired (row ∷ rows) c =
      ground (arith, count-expired now row c, count_all-expired rows (count (status_of now row) c))

  add-outstanding :
      (row : ForwardingRecoveryRecord) (rs : List RouteCount)
      → sum RouteCount.outstanding_count (add_to_route now row rs)
        ≡ sum RouteCount.outstanding_count rs + 1
  unfolding add_to_route
  add-outstanding row [] = refl
  add-outstanding row (r ∷ rs) = ground (arith, add-outstanding row rs)

  add-warnings :
      (row : ForwardingRecoveryRecord) (rs : List RouteCount)
      → sum RouteCount.warning_count (add_to_route now row rs)
        ≡ sum RouteCount.warning_count rs + warnings (status_of now row)
  unfolding add_to_route
  add-warnings row [] = omega arith
  add-warnings row (r ∷ rs) = ground (arith, add-warnings row rs)

  pub routes-outstanding :
      (rows : List ForwardingRecoveryRecord) (rs : List RouteCount)
      → sum RouteCount.outstanding_count (routes_of now rows rs)
        ≡ sum RouteCount.outstanding_count rs + length rows
  unfolding routes_of
  routes-outstanding [] rs = omega arith
  routes-outstanding (row ∷ rows) rs =
      omega (arith, add-outstanding row rs, routes-outstanding rows (add_to_route now row rs))

  -- Every row is a warning of its route or in progress.
  pub routes-warnings :
      (rows : List ForwardingRecoveryRecord) (rs : List RouteCount) (c : Counts)
      → sum RouteCount.warning_count (routes_of now rows rs) + (count_all now rows c).in_progress
        ≡ sum RouteCount.warning_count rs + c.in_progress + length rows
  unfolding routes_of count_all
  routes-warnings [] rs c = omega arith
  routes-warnings (row ∷ rows) rs c =
      let s = status_of now row in
      omega (
        arith,
        add-warnings row rs,
        count-in_progress s c,
        routes-warnings rows (add_to_route now row rs) (count s c),
      )
