-- ===== src/Pay/Links/Payments/Histories.antt =====
-- Histories of requests to the Pay Link store.
use xdcid.Common.{ℕ, ◌≡◌, true, Option, some, is_some, find, Text, Platform}
use xdcid.Networks.{PaymentNetworkEnvironment}
use xdcid.Pay.Requests.{PaymentRequest}
use xdcid.Pay.Links.{
  PayLink, has_id, Cancelled, LinkDb, get_stored_pay_link, cancel_payment_request,
  revoke_stored_pay_link,
}
use xdcid.Pay.Links.Settling.{Settlement, settle_stored_pay_link}
use xdcid.Pay.Links.Settling.Outcomes.{settle-KeepsPayments}
use xdcid.Pay.Links.Payments.{
  SamePayment, KeepsPayments, KeepsPayments-refl, KeepsPayments-trans, get-KeepsPayments,
  cancel-KeepsPayments, revoke-KeepsPayments,
}

module _ (p : Platform) (hash_token : Text → Text) (env : PaymentNetworkEnvironment)
    (stringify : PaymentRequest → Text) (parse : Text → Option PaymentRequest) where
  -- What the requests other than a creation make of the tables. What happens between two statements
  -- of a request is such a history too.
  pub data Reaches : LinkDb → LinkDb → Type 0 where
    nothing : {db : LinkDb} → Reaches db db
    then : {a b c : LinkDb} → Reaches a b → Reaches b c → Reaches a c
    reads :
        {db : LinkDb} (others : ℕ → LinkDb → LinkDb)
        → ((k : ℕ) (d : LinkDb) → Reaches d (others k d))
        → (now : ℕ) (id : Text) → Reaches db (get_stored_pay_link p hash_token others now id db).0
    cancels :
        {db : LinkDb} (others : ℕ → LinkDb → LinkDb)
        → ((k : ℕ) (d : LinkDb) → Reaches d (others k d))
        → (input : Cancelled) (encoded : Text)
        → Reaches db (cancel_payment_request p hash_token others input encoded db).0
    revokes :
        {db : LinkDb} (others : ℕ → LinkDb → LinkDb)
        → ((k : ℕ) (d : LinkDb) → Reaches d (others k d))
        → (now : ℕ) (id token : Text)
        → Reaches db (revoke_stored_pay_link p hash_token others now id token db).0
    settles :
        {db : LinkDb} (others : ℕ → LinkDb → LinkDb)
        → ((k : ℕ) (d : LinkDb) → Reaches d (others k d))
        → (input : Settlement) (now : ℕ)
        → Reaches db (settle_stored_pay_link p env stringify parse others input now db).0

  pub reaches-KeepsPayments : (db db' : LinkDb) → Reaches db db' → KeepsPayments db.links db'.links
  reaches-KeepsPayments db _ nothing = KeepsPayments-refl db.links
  reaches-KeepsPayments a c (then {b = b} f g) =
      KeepsPayments-trans a.links b.links c.links (reaches-KeepsPayments a b f)
        (reaches-KeepsPayments b c g)
  reaches-KeepsPayments db _ (reads others during now id) =
      get-KeepsPayments p hash_token others
        (λ k d. reaches-KeepsPayments d (others k d) (during k d)) now id db
  reaches-KeepsPayments db _ (cancels others during input encoded) =
      cancel-KeepsPayments p hash_token others
        (λ k d. reaches-KeepsPayments d (others k d) (during k d)) input encoded db
  reaches-KeepsPayments db _ (revokes others during now id token) =
      revoke-KeepsPayments p hash_token others
        (λ k d. reaches-KeepsPayments d (others k d) (during k d)) now id token db
  reaches-KeepsPayments db _ (settles others during input now) =
      settle-KeepsPayments p env stringify parse others
        (λ k d. reaches-KeepsPayments d (others k d) (during k d)) input now db

  -- No history of reads, cancellations, revocations and settlements, however their statements
  -- interleave, removes a link that is paid, or changes the time, the id or the transactions of its payment.
  pub reaches-SamePayment :
      (db db' : LinkDb) (history : Reaches db db') (id : Text) (l : PayLink)
      → find (has_id id) db.links ≡ some l
      → is_some l.paid_at ≡ true
      → (l' : PayLink) × (find (has_id id) db'.links ≡ some l') × SamePayment l l'
  reaches-SamePayment db db' history id l found paid =
      reaches-KeepsPayments db db' history id l found paid
