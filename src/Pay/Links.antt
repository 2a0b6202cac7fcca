-- ===== src/Pay/Links.antt =====
-- frontend/lib/payLinkStore.ts: the tables pay_links and pay_link_cancellations, and the operations on
-- them but the settlement. A statement of SQL is one step, and `others k` is what other requests do to the
-- tables before the k-th statement after an operation's first. Times are in milliseconds, except the expiry of
-- a request. The random bytes and the hash of tokens are parameters.
pub mod Settling
pub mod Payments
use xdcid.Common.{
  ℕ, ◌+◌, ◌*◌, Bool, true, false, ◌&&◌, ◌||◌, not, Option, none, some, List, [], ◌∷◌, Text, text,
  text_eq, starts_with, length, all, any, find, filter, update, drop, Result, ok, err, ◌>>=◌, ◌>>◌,
  leb, ltb, ◌==◌, if◌then◌else◌, is_some, Platform,
}
use xdcid.Cctp.Logs.{is_hex_of}

pub record PayLink : Type 0 where
  pub id : Text
  pub request_id : Option Text
  pub name : Text
  pub encoded_request : Text
  pub signature : Text
  pub revocation_token_hash : Text
  pub created_at : ℕ
  pub expires_at : ℕ
  pub revoked_at : Option ℕ
  pub paid_at : Option ℕ
  pub payment_id : Option Text
  pub source_transaction_hash : Option Text
  pub destination_transaction_hash : Option Text

pub record Cancelled : Type 0 where
  pub request_id : Text
  pub name : Text
  pub nonce : Text
  pub cancelled_at : ℕ
  pub cancellation_signature : Text

pub record LinkDb : Type 0 where
  pub links : List PayLink
  pub cancellations : List Cancelled

abbrev pub short_pay_link_ttl_seconds : ℕ
short_pay_link_ttl_seconds = 30 * 24 * 60 * 60

is_id_char : ℕ → Bool
is_id_char c =
    (leb b'A' c && leb c b'Z')
    || (leb b'a' c && leb c b'z')
    || (leb b'0' c && leb c b'9')
    || c == b'_'
    || c == b'-'

-- `/^rq_[A-Za-z0-9_-]{20}$/`
unfoldable pub is_short_pay_link_id : Text → Bool
unfolding is_id_char
is_short_pay_link_id s = starts_with s (text "rq_") && length s == 23 && all is_id_char (drop 3 s)

abbrev pub has_id : Text → PayLink → Bool
has_id id l = text_eq l.id id

abbrev pub has_request_id : Text → PayLink → Bool
has_request_id id l = elim l.request_id [ none ↦ false | some i ↦ text_eq i id ]

pub remove_expired_pay_links : ℕ → LinkDb → LinkDb
remove_expired_pay_links now db = record db {
  links = filter (λ l. not (ltb l.expires_at now)) db.links;
}

pub record NewPayLink : Type 0 where
  pub name : Text
  pub encoded_request : Text
  pub signature : Text
  pub request_id : Text
  pub request_expires : ℕ

-- A link lives for thirty days, or until its request expires when that is sooner.
link_expiry : ℕ → ℕ → ℕ
link_expiry now request_expires =
    let retention = now + short_pay_link_ttl_seconds * 1_000 in
    if request_expires == 0
    then retention
    else if ltb (request_expires * 1_000) retention
    then request_expires * 1_000
    else retention

pub data LinkStatus : Type 0 where
  active expired revoked paid : LinkStatus

pub link_status : ℕ → PayLink → LinkStatus
link_status now l =
    if is_some l.paid_at
    then paid
    else if is_some l.revoked_at
    then revoked
    else if leb l.expires_at now
    then expired
    else active

pub data RevokeResult : Type 0 where
  revoked_now already_revoked not_found unauthorized : RevokeResult

module _ (p : Platform) (hash_token : Text → Text) where
  new_link : NewPayLink → ℕ → Text × Text → PayLink
  unfolding link_expiry
  new_link input now (id, token) = record {
    id = id;
    request_id = some (p.lower input.request_id);
    name = input.name;
    encoded_request = input.encoded_request;
    signature = input.signature;
    revocation_token_hash = hash_token token;
    created_at = now;
    expires_at = link_expiry now input.request_expires;
    revoked_at = none;
    paid_at = none;
    payment_id = none;
    source_transaction_hash = none;
    destination_transaction_hash = none;
  }

  -- The attempts that are left, each with the id and the token that it draws, of which the first is
  -- the k-th statement.
  allocate :
      (ℕ → LinkDb → LinkDb)
      → NewPayLink
      → ℕ
      → ℕ
      → List (Text × Text)
      → LinkDb
      → LinkDb × Result (PayLink × Text)
  unfolding new_link
  allocate others input now k [] db = (db, err "Unable to allocate a unique Pay Link ID")
  allocate others input now k ((id, token) ∷ attempts) db =
      let now_db = others k db in
      let rest = allocate others input now (k + 1) attempts now_db in
      let l = new_link input now (id, token) in
      if any (has_id id) now_db.links
      then rest
      else (record now_db { links = l ∷ now_db.links }, ok (l, token))

  pub create_stored_pay_link :
      (ℕ → LinkDb → LinkDb)
      → NewPayLink
      → ℕ
      → (ℕ → Text × Text)
      → LinkDb
      → LinkDb × Result (PayLink × Text)
  unfolding allocate remove_expired_pay_links
  create_stored_pay_link others input now draws db =
      allocate others input now 1 (draws 0 ∷ draws 1 ∷ draws 2 ∷ [])
        (remove_expired_pay_links now db)

  -- `record.requestId || keccak256(record.encodedRequest)`
  known_request_id : PayLink → Text
  known_request_id l = elim l.request_id [
    | some (c ∷ s) ↦ c ∷ s
    | _ ↦ p.lower (p.keccak256 l.encoded_request)
  ]

  lacks_request_id : PayLink → Bool
  lacks_request_id l = elim l.request_id [ some (c ∷ s) ↦ false | _ ↦ true ]

  -- A row without a request id gets one when it is read.
  unfoldable pub get_stored_pay_link :
      (ℕ → LinkDb → LinkDb) → ℕ → Text → LinkDb → LinkDb × Option (PayLink × LinkStatus)
  unfolding known_request_id lacks_request_id
  get_stored_pay_link others now id db =
      elim (if is_short_pay_link_id id then find (has_id id) db.links else none) [
        | none ↦ (db, none)
        | some l ↦
            let named = record l { request_id = some (known_request_id l) } in
            (
              if lacks_request_id l
                  then record (others 1 db) {
                    links =
                        update (has_id l.id)
                          (λ r. record r { request_id = some (known_request_id l) })
                          (others 1 db).links;
                  }
                  else db,
              some (named, link_status now l),
            )
      ]

  pub is_payment_request_paid : Text → LinkDb → Bool
  is_payment_request_paid request_id db =
      is_hex_of 64 request_id
      && any (λ l. has_request_id (p.lower request_id) l && is_some l.paid_at) db.links

  pub is_payment_request_cancelled : Text → LinkDb → Bool
  is_payment_request_cancelled request_id db =
      is_hex_of 64 request_id
      && any (λ c. text_eq c.request_id (p.lower request_id)) db.cancellations

  -- `insert … onConflictDoNothing` into the table of cancellations.
  insert_cancellation : Cancelled → LinkDb → LinkDb
  insert_cancellation c db = record db {
    cancellations =
        if any (λ old. text_eq old.request_id c.request_id) db.cancellations
        then db.cancellations
        else c ∷ db.cancellations;
  }

  -- Whether the cancellation is new.
  pub cancel_payment_request : (ℕ → LinkDb → LinkDb) → Cancelled → Text → LinkDb → LinkDb × Bool
  unfolding insert_cancellation
  cancel_payment_request others input encoded_request db =
      let id = p.lower input.request_id in
      let now_db = others 1 (insert_cancellation (record input { request_id = id }) db) in
      (
        record now_db {
          links =
              update (λ l. text_eq l.encoded_request encoded_request)
                (λ l. record l { revoked_at = some input.cancelled_at }) now_db.links;
        },
        not (any (λ c. text_eq c.request_id id) db.cancellations),
      )

  -- The comparison of the hashes as bytes is that of their texts in lower-case hexadecimal.
  unfoldable pub revoke_stored_pay_link :
      (ℕ → LinkDb → LinkDb) → ℕ → Text → Text → LinkDb → LinkDb × RevokeResult
  revoke_stored_pay_link others now id token db =
      if not (is_short_pay_link_id id) || leb (length token) 0
      then (db, unauthorized)
      else elim (find (has_id id) db.links) [
        | none ↦ (db, not_found)
        | some l ↦
            if not (text_eq l.revocation_token_hash (hash_token token))
            then (db, unauthorized)
            else if is_some l.revoked_at
            then (db, already_revoked)
            else (
              record (others 1 db) {
                links =
                    update (has_id id) (λ r. record r { revoked_at = some now })
                      (others 1 db).links;
              },
              revoked_now,
            )
      ]
