-- ===== src/Completions/Submitting.antt =====
-- Where a submitted completion is found afterwards.
use xdcid.Common.{
  ℕ, zero, suc, ◌-◌, ◌≡◌, ◌≤◌, refl, ap, ◌∙◌, Bool, true, ◌&&◌, not, Option, List, [], ◌∷◌, ◌++◌,
  length, drop, filter, any, Text, String, text_eq_self, if◌then◌else◌, arith, any-filter-not,
  length-append, Result, err, ok, is_ok, Platform,
}
use xdcid.Completions.{
  PaymentCompletionPayload, QueuedCompletion, CompletionResponse, Storage, is_recent, read_queue,
  write_queue, has_key, newest, completion_key, remember_completion, submit_answer, after_answer,
  submit_payment_completion,
}
use xdcid.Completions.Delivery.{shaped-as_stored, read-forget}

any-drop_last :
    (q : QueuedCompletion → Bool) (n : ℕ) (xs : List QueuedCompletion) (x : QueuedCompletion)
    → n ≤ length xs
    → q x ≡ true
    → any q (drop n (xs ++ (x ∷ []))) ≡ true
any-drop_last q zero [] x le h = ground (arith, h)
any-drop_last q zero (y ∷ ys) x le h = ground (arith, any-drop_last q 0 ys x)
any-drop_last q (suc n) [] x le h = absurd (omega arith)
any-drop_last q (suc n) (y ∷ ys) x le h = any-drop_last q n ys x (omega arith) h

any-newest :
    (q : QueuedCompletion → Bool) (xs : List QueuedCompletion) (x : QueuedCompletion)
    → q x ≡ true
    → any q (newest (xs ++ (x ∷ []))) ≡ true
unfolding newest
any-newest q xs x h =
    any-drop_last q (length (xs ++ (x ∷ [])) - 50) xs x (omega (arith, length-append xs (x ∷ []))) h

-- What is recent stays found after the filter of recent entries.
any-recent :
    (q r : QueuedCompletion → Bool) (xs : List QueuedCompletion)
    → any (λ x. q x && r x) xs ≡ true
    → any q (filter r xs) ≡ true
any-recent q r [] e = absurd (cc e)
any-recent q r (x ∷ xs) e = ground (arith, any-recent q r xs)

answer-remembers :
    (now later : ℕ) (key : Text) (s : Storage) (answer : Result Text)
    → (any (has_key key) (read_queue now s) ≡ true) × (s.writable ≡ true)
    → let (s', result) = after_answer later key s answer in
      any (has_key key) (read_queue (if is_ok result then later else now) s') ≡ not (is_ok result)
unfolding after_answer
answer-remembers now later key s (err e) (pending, w) = pending
answer-remembers now later key s (ok receipt) (pending, w) =
    ap (any (has_key key)) (read-forget later later key s w (omega arith)).0
    ∙ any-filter-not (has_key key) (read_queue later s)

module _ (p : Platform) where
  remember-pending :
      (now : ℕ) (payload : PaymentCompletionPayload) (s : Storage)
      → s.writable ≡ true
      → (any
            (has_key (completion_key p payload.safe))
            (read_queue now (remember_completion p now now payload s))
          ≡ true)
        × ((remember_completion p now now payload s).writable ≡ true)
  unfolding remember_completion write_queue
  remember-pending now payload s w =
      let key = completion_key p payload.safe in
      let others = filter (λ x. not (has_key key x)) (read_queue now s) in
      let item : QueuedCompletion = record { key = key; queued_at = now; payload = payload.safe } in
      let found =
        any-newest (λ x. has_key key x && is_recent now x) others item
          (ground (arith, text_eq_self key)) in
      rw (w, shaped-as_stored (newest (others ++ (item ∷ []))))
        (any-recent (has_key key) (is_recent now) (newest (others ++ (item ∷ []))) found, refl)

  -- A submission that fails leaves its completion among those that are pending, and one that returns
  -- a receipt leaves none of that payment; this needs a storage that can be written.
  pub submit-remembers :
      (now later : ℕ) (payload : PaymentCompletionPayload) (failure : String)
      (response : Option CompletionResponse) (s : Storage)
      → s.writable ≡ true
      → let (s', result) = submit_payment_completion p now payload failure response later s in
        any
          (has_key (completion_key p payload.safe))
          (read_queue (if is_ok result then later else now) s')
        ≡ not (is_ok result)
  unfolding submit_payment_completion
  submit-remembers now later payload failure response s w =
      answer-remembers now later (completion_key p payload.safe)
        (remember_completion p now now payload s) (submit_answer failure response)
        (remember-pending now payload s w)
