-- ===== src/Completions/Tests.antt =====
-- Completions: the theorems at a concrete storage.
use xdcid.Common.{
  ℕ, ◌≡◌, refl, true, not, none, some, [], ◌∷◌, text, length, any, if◌then◌else◌, is_ok, arith,
}
use xdcid.Common.Samples.{sample_platform, address_of, hash_of}
use xdcid.Completions.{
  usdc, send, SafePayload, PaymentCompletionPayload, QueuedCompletion, Storage, read_queue, has_key,
  completion_key, submit_payment_completion, retry_pending_payment_completions,
}
use xdcid.Completions.Delivery.{retry-empties}
use xdcid.Completions.Submitting.{submit-remembers}

abbrev payload_of : ℕ → SafePayload
payload_of c = record {
  name = text "alice.xdc";
  source_chain_id = 50;
  destination_chain_id = 137;
  token = usdc;
  amount_atomic = text "5000000";
  recipient = address_of b'2';
  source_transaction_hash = hash_of c;
  destination_transaction_hash = none;
  payment_channel = send;
  pay_link_id = none;
  pay_link_request_id = none;
  completion_method = none;
  xdcid_fee_atomic = none;
  circle_fee_atomic = none;
}

abbrev queued : ℕ → QueuedCompletion
queued c = record { key = hash_of c; queued_at = 10; payload = payload_of c }

abbrev two_pending : Storage
two_pending = record {
  queue = some (some (queued b'1') ∷ none ∷ some (queued b'2') ∷ []);
  writable = true;
}

retry-empties_example :
    (read_queue 40 (retry_pending_payment_completions (λ k s. some true) (λ k. 30) 20 two_pending).0
      ≡ [])
    × ((retry_pending_payment_completions (λ k s. some true) (λ k. 30) 20 two_pending).1
        ≡ length (read_queue 20 two_pending))
retry-empties_example =
    retry-empties (λ k s. some true) (λ k. 30) 20 40 two_pending refl (omega arith)
      (λ j. omega arith) (λ j payload. refl)

abbrev submitted : PaymentCompletionPayload
submitted = record { safe = payload_of b'3'; reference = some (text "INV-1"); description = none }

submit-remembers_example :
    any (has_key (completion_key sample_platform submitted.safe)) (
      read_queue
        (if is_ok
            (submit_payment_completion sample_platform 20 submitted "offline" none 30 two_pending).1
          then 30
          else 20)
        (submit_payment_completion sample_platform 20 submitted "offline" none 30 two_pending).0)
    ≡ not (
        is_ok
          (submit_payment_completion sample_platform 20 submitted "offline" none 30 two_pending).1)
submit-remembers_example =
    submit-remembers sample_platform 20 30 submitted "offline" none two_pending refl
