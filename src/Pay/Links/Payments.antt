-- ===== src/Pay/Links/Payments.antt =====
-- A payment that a link records stays as it was recorded.
pub mod Histories
use xdcid.Common.{
  ℕ, ◌≡◌, refl, sym, subst, ◌⊎◌, ◌∙◌, inl, inr, Bool, true, false, not, Option, none, some, List,
  [], ◌∷◌, Text, text_eq, text_eq_sound, find, find_holds, any, any-find, update, if◌then◌else◌,
  is_some, arith, Bool-cases, Option-cases, Result, ok, err, Platform,
}
use xdcid.Pay.Links.{
  PayLink, Cancelled, LinkDb, has_id, get_stored_pay_link, known_request_id, lacks_request_id,
  insert_cancellation, cancel_payment_request, revoke_stored_pay_link, is_short_pay_link_id,
}

-- The second row holds the payment of the first.
pub record SamePayment (l l' : PayLink) : Type 0 where
  pub paid_at : l'.paid_at ≡ l.paid_at
  pub payment_id : l'.payment_id ≡ l.payment_id
  pub source : l'.source_transaction_hash ≡ l.source_transaction_hash
  pub destination : l'.destination_transaction_hash ≡ l.destination_transaction_hash

-- Every paid row is still there, with its payment.
abbrev pub KeepsPayments : List PayLink → List PayLink → Type 0
KeepsPayments links links' =
    (id : Text) (l : PayLink)
    → find (has_id id) links ≡ some l
    → is_some l.paid_at ≡ true
    → (l' : PayLink) × (find (has_id id) links' ≡ some l') × SamePayment l l'

pub find-update :
    (q : PayLink → Bool) (f : PayLink → PayLink)
    → ((l : PayLink) → (f l).id ≡ l.id)
    → (links : List PayLink) (id : Text) (l : PayLink) → find (has_id id) links ≡ some l
    → find (has_id id) (update q f links) ≡ some (if q l then f l else l)
find-update q f same [] id l e = absurd (cc e)
find-update q f same (x ∷ xs) id l e = ground (arith, same x, find-update q f same xs id l)

-- An update that does not change the payment of a paid row.
pub update-KeepsPayments :
    (q : PayLink → Bool) (f : PayLink → PayLink)
    → ((l : PayLink) → (f l).id ≡ l.id)
    → ((l : PayLink) → is_some l.paid_at ≡ true → q l ≡ true → SamePayment l (f l))
    → (links : List PayLink) → KeepsPayments links (update q f links)
update-KeepsPayments q f same keeps links id l e h = elim (Bool-cases (q l)) [
  | inl chosen ↦ (f l, ground (arith, find-update q f same links id l e, chosen), keeps l h chosen)
  | inr other ↦ (
    l,
    ground (arith, find-update q f same links id l e, other),
    record { paid_at = refl; payment_id = refl; source = refl; destination = refl },
  )
]

pub KeepsPayments-refl : (links : List PayLink) → KeepsPayments links links
KeepsPayments-refl links id l e h =
    (l, e, record { paid_at = refl; payment_id = refl; source = refl; destination = refl })

pub KeepsPayments-trans :
    (a b c : List PayLink) → KeepsPayments a b → KeepsPayments b c → KeepsPayments a c
KeepsPayments-trans a b c f g id l e h =
    let (m, em, sm) = f id l e h in
    let (n, en, sn) = g id m em (rw sm.paid_at h) in
    (
      n,
      en,
      record {
        paid_at = sn.paid_at ∙ sm.paid_at;
        payment_id = sn.payment_id ∙ sm.payment_id;
        source = sn.source ∙ sm.source;
        destination = sn.destination ∙ sm.destination;
      },
    )

-- A table that is unchanged, or that others leave and an update changes without touching payments.
pub either-KeepsPayments :
    (q : PayLink → Bool) (f : PayLink → PayLink) (links mid links' : List PayLink)
    → ((l : PayLink) → (f l).id ≡ l.id)
    → ((l : PayLink) → is_some l.paid_at ≡ true → q l ≡ true → SamePayment l (f l))
    → KeepsPayments links mid
    → (links' ≡ links) ⊎ (links' ≡ update q f mid)
    → KeepsPayments links links'
either-KeepsPayments q f links mid links' same keeps before (inl e) =
    subst (KeepsPayments links) (sym e) (KeepsPayments-refl links)
either-KeepsPayments q f links mid links' same keeps before (inr e) =
    subst (KeepsPayments links) (sym e)
      (KeepsPayments-trans links mid _ before (update-KeepsPayments q f same keeps mid))

module _ (p : Platform) (hash_token : Text → Text) (others : ℕ → LinkDb → LinkDb)
    (keep : (k : ℕ) (d : LinkDb) → KeepsPayments d.links (others k d).links) where
  get-changes :
      (now : ℕ) (id : Text) (db : LinkDb) (l : PayLink)
      → find (has_id id) db.links ≡ some l
      → ((get_stored_pay_link p hash_token others now id db).0.links ≡ db.links)
        ⊎ ((get_stored_pay_link p hash_token others now id db).0.links
            ≡ update
                (has_id l.id)
                (λ r. record r { request_id = some (known_request_id p hash_token l) })
                (others 1 db).links)
  unfolding get_stored_pay_link
  get-changes now id db l e = ground arith

  pub get-KeepsPayments :
      (now : ℕ) (id : Text) (db : LinkDb)
      → KeepsPayments db.links (get_stored_pay_link p hash_token others now id db).0.links
  unfolding get_stored_pay_link
  get-KeepsPayments now id db = elim (Option-cases (find (has_id id) db.links)) [
    | inl missing ↦
        let same : (get_stored_pay_link p hash_token others now id db).0.links ≡ db.links =
          ground (arith, missing) in
        subst (KeepsPayments db.links) (sym same) (KeepsPayments-refl db.links)
    | inr (l, found) ↦
        either-KeepsPayments _ _ db.links (others 1 db).links _ (λ r. refl)
          (λ r h q. record { paid_at = refl; payment_id = refl; source = refl; destination = refl })
          (keep 1 db) (get-changes now id db l found)
  ]

  pub cancel-KeepsPayments :
      (input : Cancelled) (encoded : Text) (db : LinkDb)
      → KeepsPayments db.links (cancel_payment_request p hash_token others input encoded db).0.links
  unfolding cancel_payment_request insert_cancellation
  cancel-KeepsPayments input encoded db =
      let noted =
        insert_cancellation p hash_token (record input { request_id = p.lower input.request_id })
          db in
      KeepsPayments-trans db.links (others 1 noted).links _ (keep 1 noted) (
        update-KeepsPayments _ _ (λ r. refl)
          (λ r h q. record { paid_at = refl; payment_id = refl; source = refl; destination = refl })
          (others 1 noted).links)

  revoke-changes :
      (now : ℕ) (id token : Text) (db : LinkDb)
      → ((revoke_stored_pay_link p hash_token others now id token db).0.links ≡ db.links)
        ⊎ ((revoke_stored_pay_link p hash_token others now id token db).0.links
            ≡ update (has_id id) (λ r. record r { revoked_at = some now }) (others 1 db).links)
  unfolding revoke_stored_pay_link
  revoke-changes now id token db = ground arith

  pub revoke-KeepsPayments :
      (now : ℕ) (id token : Text) (db : LinkDb)
      → KeepsPayments db.links (revoke_stored_pay_link p hash_token others now id token db).0.links
  revoke-KeepsPayments now id token db =
      either-KeepsPayments _ _ db.links (others 1 db).links _ (λ r. refl)
        (λ r h q. record { paid_at = refl; payment_id = refl; source = refl; destination = refl })
        (keep 1 db) (revoke-changes now id token db)
