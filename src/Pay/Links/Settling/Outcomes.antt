-- ===== src/Pay/Links/Settling/Outcomes.antt =====
-- What a settlement does to the tables, and when it is refused.
use xdcid.Common.{
  ℕ, ◌≡◌, ◌≢◌, ◌≤◌, ◌<◌, refl, subst, inl, inr, Bool, true, false, ◌&&◌, ◌||◌, not, Option, none,
  some, List, [], ◌∷◌, String, Text, text_eq, any, update, is_some, arith, Bool-cases, Option-cases,
  ok, err, Result-cases, value, Platform,
}
use xdcid.Networks.{PaymentNetworkEnvironment}
use xdcid.Pay.Requests.{PaymentRequest, validate_payment_request, decode_payment_request}
use xdcid.Pay.Requests.Validity.{validate-IsRequest}
use xdcid.Pay.Cancellation.{payment_request_id}
use xdcid.Pay.Settlement.{validate_pay_link_settlement_claim}
use xdcid.Pay.Settlement.Claims.{Settles, validate_claim-Settles}
use xdcid.Pay.Links.{PayLink, LinkDb}
use xdcid.Pay.Links.Payments.{
  KeepsPayments, KeepsPayments-refl, KeepsPayments-trans, update-KeepsPayments,
}
use xdcid.Pay.Links.Settling.{
  Settlement, settled, same_hash, settled_link, check_settlement, is_open, pay, raced_result,
  write_settlement, settle_stored_pay_link,
}

-- A row that could be paid and has the id of a request or its encoded text.
abbrev pub is_payable : Text → Text → PayLink → Bool
is_payable id encoded l =
    not (is_some l.paid_at)
    && not (is_some l.revoked_at)
    && (text_eq l.encoded_request encoded
        || elim l.request_id [ none ↦ false | some known ↦ text_eq known id ])

update_closes :
    (q : PayLink → Bool) (f : PayLink → PayLink) (id encoded : Text)
    → ((l : PayLink) → is_some (f l).paid_at ≡ true)
    → ((l : PayLink) → q l ≡ false → is_payable id encoded l ≡ false)
    → (links : List PayLink) → any (is_payable id encoded) (update q f links) ≡ false
update_closes q f id encoded pays leaves [] = refl
update_closes q f id encoded pays leaves (x ∷ xs) =
    ground (arith, pays x, leaves x, update_closes q f id encoded pays leaves xs)

module _ (p : Platform) (env : PaymentNetworkEnvironment) (stringify : PaymentRequest → Text)
    (parse : Text → Option PaymentRequest) (others : ℕ → LinkDb → LinkDb) where
  check-decodes :
      (input : Settlement) (now : ℕ) (l : PayLink) (known : Bool) (id : Text)
      → check_settlement p env stringify parse input now l ≡ ok (known, id)
      → (r : PaymentRequest) × (decode_payment_request env p stringify parse l.encoded_request now
          ≡ ok r)
        × Settles env p stringify parse r input.claim now
        × (input.paid_at < l.expires_at)
        × (l.revoked_at ≡ none)
        × ((i : Text) × (payment_request_id env p stringify parse r now ≡ ok i) × (id ≡ p.lower i))
        × ((known ≡ is_some l.paid_at)
            × (known ≡ true
                → same_hash p l.source_transaction_hash input.source_transaction_hash ≡ true))
  unfolding check_settlement
  check-decodes input now l known id e =
      elim (Result-cases (decode_payment_request env p stringify parse l.encoded_request now)) [
        | inr (m, failed) ↦ ground (arith, failed)
        | inl (r, decoded) ↦ elim (Result-cases (payment_request_id env p stringify parse r now)) [
          | inr (m, failed) ↦ ground (arith, decoded, failed)
          | inl (i, made) ↦
              elim (Result-cases
                (validate_pay_link_settlement_claim env p stringify parse r input.claim now)) [
                  | inr (m, failed) ↦ ground (arith, decoded, made, failed)
                  | inl (tt, claimed) ↦ (
                    r,
                    decoded,
                    validate_claim-Settles env p stringify parse r input.claim now claimed,
                    ground (arith, decoded, made, claimed),
                    ground (arith, decoded, made, claimed),
                    (i, made, ground (arith, decoded, made, claimed)),
                    (
                      ground (arith, decoded, made, claimed),
                      λ k. ground (arith, decoded, made, claimed),
                    ),
                  )
                ]
        ]
      ]

  decode-late :
      (r' : PaymentRequest) (l : PayLink) (now : ℕ) (r : PaymentRequest)
      → parse l.encoded_request ≡ some r
      → value r.expires ≢ 0
      → value r.expires ≤ now
      → ¬ (decode_payment_request env p stringify parse l.encoded_request now ≡ ok r')
  unfolding decode_payment_request
  decode-late r' l now r parsed finite past e =
      elim (Result-cases (validate_payment_request env p r now)) [
        | inr (m, failed) ↦ ground (arith, parsed, failed)
        | inl (tt, valid) ↦ elim (validate-IsRequest env p r now valid).current [
          | inl never ↦ ground (arith, never, finite)
          | inr later ↦ omega (arith, later, past)
        ]
      ]

  write-KeepsPayments :
      ((k : ℕ) (d : LinkDb) → KeepsPayments d.links (others k d).links)
      → (input : Settlement) (l : PayLink) (id : Text) (db : LinkDb)
      → KeepsPayments db.links (write_settlement p env stringify parse others input l id db).0.links
  unfolding write_settlement is_open pay
  write-KeepsPayments keep input l id db =
      elim (Bool-cases
        (any (is_open p env stringify parse id l.encoded_request) (others 1 db).links)) [
          | inl open_row ↦
              rw (open_row, write_settlement)
                (KeepsPayments-trans db.links (others 1 db).links _ (keep 1 db) (
                  update-KeepsPayments _ _ (λ r. refl) (λ r h q. ground (arith, h, q))
                    (others 1 db).links))
          | inr closed ↦
              rw (closed, write_settlement)
                (KeepsPayments-trans db.links (others 1 db).links _ (keep 1 db)
                  (keep 2 (others 1 db)))
        ]

  pub settle-KeepsPayments :
      ((k : ℕ) (d : LinkDb) → KeepsPayments d.links (others k d).links)
      → (input : Settlement) (now : ℕ) (db : LinkDb)
      → KeepsPayments db.links
          (settle_stored_pay_link p env stringify parse others input now db).0.links
  unfolding settle_stored_pay_link
  settle-KeepsPayments keep input now db =
      elim (Option-cases (settled_link p env stringify parse input db)) [
        | inl missing ↦ rw (missing, settle_stored_pay_link) (KeepsPayments-refl db.links)
        | inr (l, found) ↦
            elim (Result-cases (check_settlement p env stringify parse input now l)) [
              | inr (m, failed) ↦
                  rw (found, failed, settle_stored_pay_link) (KeepsPayments-refl db.links)
              | inl ((true, id), passed) ↦
                  rw (found, passed, settle_stored_pay_link) (KeepsPayments-refl db.links)
              | inl ((false, id), passed) ↦
                  rw (found, passed, settle_stored_pay_link)
                    (write-KeepsPayments keep input l id db)
            ]
      ]

  write-closes :
      (input : Settlement) (l : PayLink) (id : Text) (db db' : LinkDb)
      → write_settlement p env stringify parse others input l id db ≡ (db', ok settled)
      → any (is_payable id l.encoded_request) db'.links ≡ false
  unfolding write_settlement is_open pay raced_result
  write-closes input l id db db' e =
      elim (Bool-cases
        (any (is_open p env stringify parse id l.encoded_request) (others 1 db).links)) [
          | inl open_row ↦
              let same : update (is_open p env stringify parse id l.encoded_request)
                    (pay p env stringify parse input id) (others 1 db).links
                  ≡ db'.links =
                ground (arith, open_row) in
              subst (λ rows. any (is_payable id l.encoded_request) rows ≡ false) same
                (update_closes (is_open p env stringify parse id l.encoded_request)
                  (pay p env stringify parse input id) id l.encoded_request (λ r. refl)
                  (λ r q. ground (arith, q)) (others 1 db).links)
          | inr closed ↦ ground (arith, closed)
        ]

  -- When a settlement returns `paid`, the claim settles the request that the stored link encodes, the
  -- payment was made before the link expired, the link was not revoked when it was read, and no row is
  -- left that could be paid again and has the id of this request or the same encoded text, whatever
  -- other requests did in between.
  pub settle-IsPaid :
      (input : Settlement) (now : ℕ) (db db' : LinkDb)
      → settle_stored_pay_link p env stringify parse others input now db ≡ (db', ok settled)
      → (l : PayLink) × (r : PaymentRequest) × (settled_link p env stringify parse input db
          ≡ some l)
        × (decode_payment_request env p stringify parse l.encoded_request now ≡ ok r)
        × Settles env p stringify parse r input.claim now
        × (input.paid_at < l.expires_at)
        × (l.revoked_at ≡ none)
        × (id : Text) × (payment_request_id env p stringify parse r now ≡ ok id)
        × (any (is_payable (p.lower id) l.encoded_request) db'.links ≡ false)
  unfolding settle_stored_pay_link
  settle-IsPaid input now db db' e =
      elim (Option-cases (settled_link p env stringify parse input db)) [
        | inl missing ↦ ground (arith, missing)
        | inr (l, found) ↦
            elim (Result-cases (check_settlement p env stringify parse input now l)) [
              | inr (m, failed) ↦ ground (arith, found, failed)
              | inl ((true, id), passed) ↦ ground (arith, found, passed)
              | inl ((false, id), passed) ↦
                  let (r, decoded, settles, before, unrevoked, (i, made, named), _) =
                    check-decodes input now l false id passed in
                  (
                    l,
                    r,
                    found,
                    decoded,
                    settles,
                    before,
                    unrevoked,
                    i,
                    made,
                    subst (λ k. any (is_payable k l.encoded_request) db'.links ≡ false) named
                        (write-closes input l id db db' (ground (arith, found, passed))),
                  )
            ]
      ]

  -- Once the request of a link has expired, every settlement of the link is refused and writes
  -- nothing, also when its payment was made before the expiry.
  pub settle-late :
      (input : Settlement) (now : ℕ) (db : LinkDb) (l : PayLink) (r : PaymentRequest)
      → settled_link p env stringify parse input db ≡ some l
      → parse l.encoded_request ≡ some r
      → value r.expires ≢ 0
      → value r.expires ≤ now
      → (message : String) × (settle_stored_pay_link p env stringify parse others input now db
          ≡ (db, err message))
  unfolding settle_stored_pay_link
  settle-late input now db l r found parsed finite past =
      elim (Result-cases (check_settlement p env stringify parse input now l)) [
        | inr (m, failed) ↦ (m, ground (arith, found, failed))
        | inl ((known, id), passed) ↦
            let (r', decoded, _, _, _, _, _) = check-decodes input now l known id passed in
            absurd (decode-late r' l now r parsed finite past decoded)
      ]
