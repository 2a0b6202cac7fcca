-- ===== src/Completions/Delivery.antt =====
-- What a retry delivers and what it leaves.
use xdcid.Common.{
  ℕ, ◌+◌, ◌≡◌, ◌≤◌, refl, sym, ap, ◌∙◌, Bool, true, false, ◌||◌, not, Option, some, List, [], ◌∷◌,
  length, filter, map, any, All, All-mono, length-map, Text, text_eq, text_eq_self, if◌then◌else◌,
  arith,
}
use xdcid.Completions.{
  SafePayload, QueuedCompletion, Storage, shaped, as_stored, stored_list, is_recent, read_queue,
  write_queue, has_key, forget_completion, is_recorded, retry_each,
  retry_pending_payment_completions,
}

pub shaped-as_stored : (xs : List QueuedCompletion) → shaped (as_stored xs) ≡ xs
shaped-as_stored [] = refl
shaped-as_stored (x ∷ xs) = ap (λ ys. x ∷ ys) (shaped-as_stored xs)

recent_twice :
    (at end : ℕ) (k : Text) (xs : List QueuedCompletion)
    → at ≤ end
    → filter (is_recent end) (filter (λ x. not (has_key k x)) (filter (is_recent at) xs))
      ≡ filter (λ x. not (has_key k x)) (filter (is_recent end) xs)
recent_twice at end k [] le = refl
recent_twice at end k (x ∷ xs) le = ground (arith, recent_twice at end k xs le)

-- Forgetting a key takes its completions out of what is read later.
pub read-forget :
    (at end : ℕ) (k : Text) (s : Storage)
    → s.writable ≡ true
    → at ≤ end
    → (read_queue end (forget_completion at k s)
        ≡ filter (λ x. not (has_key k x)) (read_queue end s))
      × ((forget_completion at k s).writable ≡ true)
unfolding forget_completion write_queue
read-forget at end k s w le = rw w (
  ap (filter (is_recent end)) (shaped-as_stored (filter (λ x. not (has_key k x)) (read_queue at s)))
      ∙ recent_twice at end k (stored_list s.queue) le,
  refl,
)

-- The keys of the completions whose posts are answered with success.
abbrev pub delivered : (ℕ → SafePayload → Option Bool) → ℕ → List QueuedCompletion → List Text
delivered post k [] = []
delivered post k (x ∷ xs) =
    let rest = delivered post (k + 1) xs in
    if is_recorded (post k x.payload) then x.key ∷ rest else rest

abbrev pub is_delivered : List Text → QueuedCompletion → Bool
is_delivered keys x = any (λ k. text_eq x.key k) keys

filter_both :
    (k : Text) (keys : List Text) (xs : List QueuedCompletion)
    → filter (λ x. not (is_delivered keys x)) (filter (λ x. not (has_key k x)) xs)
      ≡ filter (λ x. not (is_delivered (k ∷ keys) x)) xs
filter_both k keys [] = refl
filter_both k keys (x ∷ xs) = ground (arith, filter_both k keys xs)

filter_none : (xs : List QueuedCompletion) → filter (λ x. not (is_delivered [] x)) xs ≡ xs
filter_none [] = refl
filter_none (x ∷ xs) = ap (λ ys. x ∷ ys) (filter_none xs)

-- One post, of what the rest leaves after a success and after a failure.
step-leaves :
    (recorded : Bool) (end : ℕ) (k : Text) (keys : List Text) (after kept : Storage × ℕ)
    (queue rest : List QueuedCompletion)
    → rest ≡ filter (λ x. not (has_key k x)) queue
    → (read_queue end after.0 ≡ filter (λ x. not (is_delivered keys x)) rest)
      × (after.1 ≡ length keys)
    → (read_queue end kept.0 ≡ filter (λ x. not (is_delivered keys x)) queue)
      × (kept.1 ≡ length keys)
    → (read_queue end (if recorded then (after.0, after.1 + 1) else kept).0
        ≡ filter (λ x. not (is_delivered (if recorded then k ∷ keys else keys) x)) queue)
      × ((if recorded then (after.0, after.1 + 1) else kept).1
          ≡ length (if recorded then k ∷ keys else keys))
step-leaves true end k keys after kept queue rest forgotten (left, count) _ = (
  left ∙ ap (filter (λ y. not (is_delivered keys y))) forgotten ∙ filter_both k keys queue,
  omega (arith, count),
)
step-leaves false end k keys after kept queue rest forgotten _ done = done

each-leaves :
    (post : ℕ → SafePayload → Option Bool) (clock : ℕ → ℕ) (end k : ℕ) (xs : List QueuedCompletion)
    (s : Storage)
    → s.writable ≡ true
    → ((j : ℕ) → clock j ≤ end)
    → (read_queue end (retry_each post clock k xs s).0
        ≡ filter (λ x. not (is_delivered (delivered post k xs) x)) (read_queue end s))
      × ((retry_each post clock k xs s).1 ≡ length (delivered post k xs))
unfolding retry_each
each-leaves post clock end k [] s w before = (sym (filter_none (read_queue end s)), refl)
each-leaves post clock end k (x ∷ xs) s w before =
    let (forgotten, still) = read-forget (clock k) end x.key s w (before k) in
    step-leaves (is_recorded (post k x.payload)) end x.key (delivered post (k + 1) xs)
      (retry_each post clock (k + 1) xs (forget_completion (clock k) x.key s))
      (retry_each post clock (k + 1) xs s) (read_queue end s)
      (read_queue end (forget_completion (clock k) x.key s)) forgotten
      (each-leaves post clock end (k + 1) xs (forget_completion (clock k) x.key s) still before)
      (each-leaves post clock end (k + 1) xs s w before)

-- After a retry, what is read are the completions whose keys the server did not record, in their
-- order, and the retry counts the posts that succeeded. This needs a storage that can be written,
-- and a time of reading that is not before the retry.
pub retry-leaves :
    (post : ℕ → SafePayload → Option Bool) (clock : ℕ → ℕ) (now end : ℕ) (s : Storage)
    → s.writable ≡ true
    → ((j : ℕ) → clock j ≤ end)
    → (read_queue end (retry_pending_payment_completions post clock now s).0
        ≡ filter
            (λ x. not (is_delivered (delivered post 0 (read_queue now s)) x))
            (read_queue end s))
      × ((retry_pending_payment_completions post clock now s).1
          ≡ length (delivered post 0 (read_queue now s)))
unfolding retry_pending_payment_completions
retry-leaves post clock now end s w before =
    each-leaves post clock end 0 (read_queue now s) s w before

all_delivered :
    (post : ℕ → SafePayload → Option Bool) (k : ℕ) (xs : List QueuedCompletion)
    → ((j : ℕ) (payload : SafePayload) → post j payload ≡ some true)
    → delivered post k xs ≡ map QueuedCompletion.key xs
all_delivered post k [] h = refl
all_delivered post k (x ∷ xs) h =
    rw (h k x.payload) (ap (λ ks. x.key ∷ ks) (all_delivered post (k + 1) xs h))

all_covered :
    (now end : ℕ) (xs : List QueuedCompletion)
    → now ≤ end
    → All
        (λ x.
          (not (is_recent end x)
            || is_delivered (map QueuedCompletion.key (filter (is_recent now) xs)) x)
          ≡ true)
        xs
all_covered now end [] le = tt
all_covered now end (x ∷ xs) le = (
  ground (arith, text_eq_self x.key),
  All-mono (λ y h. ground (arith, h)) xs (all_covered now end xs le),
)

covered_gone :
    (end : ℕ) (keys : List Text) (xs : List QueuedCompletion)
    → All (λ x. (not (is_recent end x) || is_delivered keys x) ≡ true) xs
    → filter (λ x. not (is_delivered keys x)) (filter (is_recent end) xs) ≡ []
covered_gone end keys [] h = refl
covered_gone end keys (x ∷ xs) (h, hs) = ground (arith, covered_gone end keys xs hs)

-- When the server records every post, a retry leaves nothing to read, and counts every completion
-- that was pending. This needs a storage that can be written, and a time of reading that is not
-- before the retry.
pub retry-empties :
    (post : ℕ → SafePayload → Option Bool) (clock : ℕ → ℕ) (now end : ℕ) (s : Storage)
    → s.writable ≡ true
    → now ≤ end
    → ((j : ℕ) → clock j ≤ end)
    → ((j : ℕ) (payload : SafePayload) → post j payload ≡ some true)
    → (read_queue end (retry_pending_payment_completions post clock now s).0 ≡ [])
      × ((retry_pending_payment_completions post clock now s).1 ≡ length (read_queue now s))
retry-empties post clock now end s w le before recorded =
    let (left, count) = retry-leaves post clock now end s w before in
    let same = all_delivered post 0 (read_queue now s) recorded in
    (
      left
          ∙ ap (λ ks. filter (λ x. not (is_delivered ks x)) (read_queue end s)) same
          ∙ covered_gone end (map QueuedCompletion.key (read_queue now s)) (stored_list s.queue)
              (all_covered now end (stored_list s.queue) le),
      count ∙ ap length same ∙ length-map QueuedCompletion.key (read_queue now s),
    )
