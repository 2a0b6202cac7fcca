-- ===== src/Pay/Links/Settling.antt =====
-- frontend/lib/payLinkStore.ts, settleStoredPayLink. `others k` is what other requests do to the tables
-- before the k-th statement of a settlement after its first; the checks between them write nothing.
pub mod Outcomes
use xdcid.Common.{
  ℕ, Bool, true, false, ◌&&◌, ◌||◌, not, Option, none, some, [], ◌∷◌, Text, text_eq, any, find,
  update, Result, ok, err, ◌>>=◌, ◌>>◌, throw_if, leb, ◌==◌, if◌then◌else◌, is_some, Platform,
}
use xdcid.Networks.{PaymentNetworkEnvironment}
use xdcid.Pay.Requests.{PaymentRequest, decode_payment_request}
use xdcid.Pay.Cancellation.{payment_request_id}
use xdcid.Pay.Settlement.{PayLinkSettlementClaim, validate_pay_link_settlement_claim}
use xdcid.Pay.Links.{PayLink, LinkDb, has_id, has_request_id, is_short_pay_link_id}

pub data SettleResult : Type 0 where
  settled already_paid : SettleResult

pub record Settlement : Type 0 where
  pub claim : PayLinkSettlementClaim
  pub pay_link_id : Option Text
  pub payment_id : Text
  pub source_transaction_hash : Text
  pub destination_transaction_hash : Option Text
  pub paid_at : ℕ

-- `hash?.toLowerCase() === other.toLowerCase()`
same_hash : Platform → Option Text → Text → Bool
same_hash p none hash = false
same_hash p (some h) hash = text_eq (p.lower h) (p.lower hash)

module _ (p : Platform) (env : PaymentNetworkEnvironment) (stringify : PaymentRequest → Text)
    (parse : Text → Option PaymentRequest) where
  unfoldable pub settled_link : Settlement → LinkDb → Option PayLink
  settled_link input db =
      let by_request = find (has_request_id (p.lower input.claim.request_id)) db.links in
      elim input.pay_link_id [
        | none ↦ by_request
        | some id ↦ if is_short_pay_link_id id then find (has_id id) db.links else by_request
      ]

  -- The checks up to the update, for the link that was read: whether it is paid by this transaction
  -- already, and its request id.
  check_settlement : Settlement → ℕ → PayLink → Result (Bool × Text)
  unfolding same_hash
  check_settlement input now_seconds l = do
    stored ← decode_payment_request env p stringify parse l.encoded_request now_seconds
    request_id ← payment_request_id env p stringify parse stored now_seconds
    validate_pay_link_settlement_claim env p stringify parse stored input.claim now_seconds
    throw_if (is_some l.revoked_at) "This Pay Link was cancelled before payment completed"
    throw_if (leb l.expires_at input.paid_at) "This Pay Link expired before payment completed"
    throw_if
        (is_some l.paid_at
          && not (same_hash p l.source_transaction_hash input.source_transaction_hash))
        "This Pay Link has already been paid"
    ok (is_some l.paid_at, p.lower request_id)

  -- `WHERE (request_id = … OR encoded_request = …) AND paid_at IS NULL AND revoked_at IS NULL`
  is_open : Text → Text → PayLink → Bool
  is_open request_id encoded_request l =
      (has_request_id request_id l || text_eq l.encoded_request encoded_request)
      && not (is_some l.paid_at)
      && not (is_some l.revoked_at)

  pay : Settlement → Text → PayLink → PayLink
  pay input request_id l = record l {
    request_id = some request_id;
    paid_at = some input.paid_at;
    payment_id = some input.payment_id;
    source_transaction_hash = some (p.lower input.source_transaction_hash);
    destination_transaction_hash = elim input.destination_transaction_hash [
      | none ↦ none
      | some h ↦ some (p.lower h)
    ];
  }

  raced_result : Settlement → Option PayLink → Result SettleResult
  unfolding same_hash
  raced_result input none = err "This Pay Link has already been paid or cancelled"
  raced_result input (some l) =
      if same_hash p l.source_transaction_hash input.source_transaction_hash
      then ok already_paid
      else err "This Pay Link has already been paid or cancelled"

  -- The statements after the checks.
  write_settlement :
      (ℕ → LinkDb → LinkDb) → Settlement → PayLink → Text → LinkDb → LinkDb × Result SettleResult
  unfolding is_open pay raced_result
  write_settlement others input l request_id db =
      let now_db = others 1 db in
      if any (is_open request_id l.encoded_request) now_db.links
      then (
        record now_db {
          links = update (is_open request_id l.encoded_request) (pay input request_id) now_db.links;
        },
        ok settled,
      )
      else (others 2 now_db, raced_result input (find (has_id l.id) (others 2 now_db).links))

  unfoldable pub settle_stored_pay_link :
      (ℕ → LinkDb → LinkDb) → Settlement → ℕ → LinkDb → LinkDb × Result SettleResult
  unfolding settled_link check_settlement write_settlement
  settle_stored_pay_link others input now_seconds db = elim (settled_link input db) [
    | none ↦ (db, err "Pay Link request was not found")
    | some l ↦ elim (check_settlement input now_seconds l) [
      | err message ↦ (db, err message)
      | ok (true, request_id) ↦ (db, ok already_paid)
      | ok (false, request_id) ↦ write_settlement others input l request_id db
    ]
  ]
