-- ===== src/Completions.antt =====
-- frontend/lib/paymentCompletionQueue.ts: the completed payments that the browser's storage remembers
-- until the server has recorded them.
pub mod Delivery
pub mod Submitting
mod Tests
use xdcid.Common.{
  ℕ, ◌+◌, ◌-◌, ◌*◌, Bool, true, false, not, Option, none, some, List, [], ◌∷◌, ◌++◌, length, drop,
  filter, Text, text, text_eq, decimal, String, leb, if◌then◌else◌, Result, err, ok, Platform,
}

pub data PaymentToken : Type 0 where
  native usdc : PaymentToken

pub data PaymentChannel : Type 0 where
  send pay_link : PaymentChannel

pub data CompletionMethod : Type 0 where
  direct standard automatic recovered : CompletionMethod

-- What is stored and posted again: the payment without its reference and description.
pub record SafePayload : Type 0 where
  pub name : Text
  pub source_chain_id : ℕ
  pub destination_chain_id : ℕ
  pub token : PaymentToken
  pub amount_atomic : Text
  pub recipient : Text
  pub source_transaction_hash : Text
  pub destination_transaction_hash : Option Text
  pub payment_channel : PaymentChannel
  pub pay_link_id : Option Text
  pub pay_link_request_id : Option Text
  pub completion_method : Option CompletionMethod
  pub xdcid_fee_atomic : Option Text
  pub circle_fee_atomic : Option Text

pub record PaymentCompletionPayload : Type 0 where
  pub safe : SafePayload
  pub reference : Option Text
  pub description : Option Text

pub record QueuedCompletion : Type 0 where
  pub key : Text
  pub queued_at : ℕ
  pub payload : SafePayload

-- The stored list, or `none` for no value and one that does not parse; an entry without the shape of
-- a completion is `none`. And whether `setItem` succeeds.
pub record Storage : Type 0 where
  pub queue : Option (List (Option QueuedCompletion))
  pub writable : Bool

-- The server's answer to a post, and `none` outside for a request that fails.
pub record CompletionResponse : Type 0 where
  pub ok : Bool
  pub error : Option String
  pub receipt : Option Text

abbrev pub retry_ttl_ms : ℕ
retry_ttl_ms = 7 * 24 * 60 * 60 * 1_000

abbrev pub max_pending_completions : ℕ
max_pending_completions = 50

abbrev pub shaped : List (Option QueuedCompletion) → List QueuedCompletion
shaped [] = []
shaped (none ∷ xs) = shaped xs
shaped (some x ∷ xs) = x ∷ shaped xs

abbrev pub as_stored : List QueuedCompletion → List (Option QueuedCompletion)
as_stored [] = []
as_stored (x ∷ xs) = some x ∷ as_stored xs

abbrev pub stored_list : Option (List (Option QueuedCompletion)) → List QueuedCompletion
stored_list none = []
stored_list (some xs) = shaped xs

abbrev pub is_recent : ℕ → QueuedCompletion → Bool
is_recent now x = leb now (x.queued_at + retry_ttl_ms)

abbrev pub read_queue : ℕ → Storage → List QueuedCompletion
read_queue now s = filter (is_recent now) (stored_list s.queue)

pub write_queue : List QueuedCompletion → Storage → Storage
write_queue queue s = if s.writable then record s { queue = some (as_stored queue) } else s

abbrev pub has_key : Text → QueuedCompletion → Bool
has_key k x = text_eq x.key k

-- `queue.slice(-50)`
pub newest : List QueuedCompletion → List QueuedCompletion
newest queue = drop (length queue - max_pending_completions) queue

module _ (p : Platform) where
  pub completion_key : SafePayload → Text
  completion_key payload =
      decimal payload.source_chain_id ++ text ":" ++ p.lower payload.source_transaction_hash

  pub remember_completion : ℕ → ℕ → PaymentCompletionPayload → Storage → Storage
  unfolding newest write_queue
  remember_completion read_at now payload s =
      let key = completion_key payload.safe in
      let others = filter (λ x. not (has_key key x)) (read_queue read_at s) in
      let item : QueuedCompletion = record { key = key; queued_at = now; payload = payload.safe } in
      write_queue (newest (others ++ (item ∷ []))) s

pub forget_completion : ℕ → Text → Storage → Storage
unfolding write_queue
forget_completion now key s = write_queue (filter (λ x. not (has_key key x)) (read_queue now s)) s

-- `body.error || "…"`, where an error that is empty is `none`
message : CompletionResponse → String
message response = elim response.error [
  | none ↦ "Payment history could not be recorded"
  | some error ↦ error
]

-- What the caller is given of the server's answer; a request that fails throws its own error.
pub submit_answer : String → Option CompletionResponse → Result Text
unfolding message
submit_answer failure none = err failure
submit_answer failure (some response) =
    if response.ok
    then elim response.receipt [ none ↦ err (message response) | some receipt ↦ ok receipt ]
    else err (message response)

-- Neither a request that fails nor an answer that is not OK.
abbrev pub is_recorded : Option Bool → Bool
is_recorded none = false
is_recorded (some answer) = answer

-- Posting the pending completions one after the other; `post k` is the server's answer to the k-th
-- request, and `clock k` the time after it.
pub retry_each :
    (ℕ → SafePayload → Option Bool) → (ℕ → ℕ) → ℕ → List QueuedCompletion → Storage → Storage × ℕ
unfolding forget_completion
retry_each post clock k [] s = (s, 0)
retry_each post clock k (x ∷ xs) s =
    let delivered = retry_each post clock (k + 1) xs (forget_completion (clock k) x.key s) in
    let kept = retry_each post clock (k + 1) xs s in
    if is_recorded (post k x.payload) then (delivered.0, delivered.1 + 1) else kept

-- The storage after the retry, and how many completions were recorded.
pub retry_pending_payment_completions :
    (ℕ → SafePayload → Option Bool) → (ℕ → ℕ) → ℕ → Storage → Storage × ℕ
unfolding retry_each
retry_pending_payment_completions post clock now s = retry_each post clock 0 (read_queue now s) s

-- A receipt makes the completion forgotten.
after_answer : ℕ → Text → Storage → Result Text → Storage × Result Text
unfolding forget_completion
after_answer now key s (err e) = (s, err e)
after_answer now key s (ok receipt) = (forget_completion now key s, ok receipt)

module _ (p : Platform) where
  -- Remembering, posting, and forgetting what the server recorded.
  pub submit_payment_completion :
      ℕ
      → PaymentCompletionPayload
      → String
      → Option CompletionResponse
      → ℕ
      → Storage
      → Storage × Result Text
  unfolding submit_answer after_answer
  submit_payment_completion now payload failure response later s =
      after_answer later (completion_key p payload.safe) (remember_completion p now now payload s)
        (submit_answer failure response)
