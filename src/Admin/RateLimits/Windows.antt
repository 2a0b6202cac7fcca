-- ===== src/Admin/RateLimits/Windows.antt =====
-- What the rate limits promise over a history of requests.
use xdcid.Common.{
  ℕ, ◌+◌, ◌-◌, ◌*◌, ◌≡◌, ◌≤◌, ◌<◌, refl, sym, ◌∙◌, subst, inl, inr, Bool, true, false, ◌&&◌, ◌||◌,
  not, Option, none, some, List, [], ◌∷◌, find, All, find-update, find-update_other, Text, text_eq,
  text_eq_self, text_eq_sound, value, leb, ◌==◌, if◌then◌else◌, Bool-cases, arith, Result-cases,
  err, ok, Platform,
}
use xdcid.Admin.{Headers}
use xdcid.Admin.RateLimits.{
  RateRow, Decision, is_row, next_hit, stored_hit, record_hit, decide, RateLimit, identifier_of,
  check_admin_rate_limit, is_positive,
}

next_hit-is_row :
    (scope i : Text) (window now : ℕ) (r : RateRow)
    → is_row scope i (next_hit window now r) ≡ is_row scope i r
unfolding next_hit
next_hit-is_row scope i window now r = ground arith

pub stored_hit-find :
    (scope i : Text) (window now : ℕ) (rows : List RateRow) (o : Option RateRow)
    → find (is_row scope i) rows ≡ o
    → let (rows', r) = stored_hit scope i window now rows o in find (is_row scope i) rows' ≡ some r
unfolding stored_hit
stored_hit-find scope i window now rows none e = ground (arith, text_eq_self scope, text_eq_self i)
stored_hit-find scope i window now rows (some r) e =
    find-update (is_row scope i) (next_hit window now)
      (λ x h. next_hit-is_row scope i window now x ∙ h) rows r e

is_row_apart :
    (scope i scope' i' : Text) (r : RateRow)
    → (text_eq scope' scope && text_eq i' i) ≡ false
    → is_row scope' i' r ≡ true
    → is_row scope i r ≡ false
is_row_apart scope i scope' i' r apart h =
    let same_scope : r.scope ≡ scope' = text_eq_sound r.scope scope' (ground arith) in
    let same_id : r.identifier_hash ≡ i' = text_eq_sound r.identifier_hash i' (ground arith) in
    rw (same_scope, same_id) apart

stored_hit-find_other :
    (scope i scope' i' : Text) (window now : ℕ) (rows : List RateRow) (o : Option RateRow)
    → (text_eq scope' scope && text_eq i' i) ≡ false
    → find (is_row scope i) (stored_hit scope' i' window now rows o).0 ≡ find (is_row scope i) rows
unfolding stored_hit
stored_hit-find_other scope i scope' i' window now rows none apart = ground (arith, apart)
stored_hit-find_other scope i scope' i' window now rows (some r) apart =
    find-update_other (is_row scope i) (is_row scope' i') (next_hit window now)
      (λ x h. is_row_apart scope i scope' i' x apart h)
      (λ x h. next_hit-is_row scope i window now x ∙ is_row_apart scope i scope' i' x apart h) rows

-- What is left of the limit for requests before the end of a window that begins at a time.
budget : ℕ → ℕ → Option RateRow → ℕ
budget limit from none = limit
budget limit from (some r) =
    if leb from r.window_started_at then limit - r.hit_count else limit - r.hit_count + limit

spend :
    (scope i : Text) (limit window from db_now now : ℕ) (rows : List RateRow) (row : Option RateRow)
    → from ≤ db_now
    → db_now < from + window * 1_000
    → let r = (stored_hit scope i window db_now rows row).1 in
      (if (decide limit window now r).allowed then 1 else 0) + budget limit from (some r)
      ≤ budget limit from row
unfolding budget decide next_hit stored_hit
spend scope i limit window from db_now now rows none h k = ground arith
spend scope i limit window from db_now now rows (some r) h k = ground arith

budget-le : (limit from : ℕ) (row : Option RateRow) → budget limit from row ≤ 2 * limit
unfolding budget
budget-le limit from none = omega arith
budget-le limit from (some r) = ground arith

-- A request at the database's time and at the server's.
pub record Hit : Type 0 where
  pub headers : Headers
  pub input : RateLimit
  pub db_now : ℕ
  pub now : ℕ

module _ (p : Platform) (fingerprint : Text → Text) where
  abbrev pub is_of : Text → Text → Hit → Bool
  is_of scope i h =
      text_eq h.input.scope scope && text_eq (identifier_of p fingerprint h.headers h.input) i

  -- The request is made in the window's length from a time, and one of the caller has the given limit
  -- and window.
  abbrev pub Counted : Text → Text → ℕ → ℕ → ℕ → Hit → Type 0
  Counted scope i limit window from h =
      (from ≤ h.db_now)
      × (h.db_now < from + window * 1_000)
      × ((not (is_of scope i h)
            || ((value h.input.limit == limit) && (value h.input.window_seconds == window)))
          ≡ true)

  -- How many requests of a caller are allowed, over the requests of every caller.
  pub allowed_count : Text → Text → List Hit → List RateRow → ℕ
  allowed_count scope i [] rows = 0
  allowed_count scope i (h ∷ hs) rows =
      elim (check_admin_rate_limit p fingerprint h.headers h.input h.db_now h.now rows) [
        | err e ↦ allowed_count scope i hs rows
        | ok (rows', d) ↦
            (if is_of scope i h && d.allowed then 1 else 0) + allowed_count scope i hs rows'
      ]

  -- A call that does not throw records a hit and decides by its row.
  pub check-recorded :
      (h : Hit) (rows rows' : List RateRow) (d : Decision)
      → check_admin_rate_limit p fingerprint h.headers h.input h.db_now h.now rows ≡ ok (rows', d)
      → let window = value h.input.window_seconds in
        let (kept, r) =
          record_hit h.input.scope
            (identifier_of p fingerprint h.headers h.input)
            window
            h.db_now
            rows in
        (is_positive h.input.limit ≡ true)
        × (is_positive h.input.window_seconds ≡ true)
        × (rows' ≡ kept)
        × (d ≡ decide (value h.input.limit) window h.now r)
  unfolding check_admin_rate_limit
  check-recorded h rows rows' d e = elim (Bool-cases (is_positive h.input.limit)) [
    | inl a ↦ elim (Bool-cases (is_positive h.input.window_seconds)) [
      | inl b ↦ (a, b, ground (arith, a, b, e), ground (arith, a, b, e))
      | inr b ↦ absurd (ground (arith, a, b, e))
    ]
    | inr a ↦ absurd (ground (arith, a, e))
  ]

  -- A hit costs what it is allowed.
  hit-spends :
      (scope i : Text) (limit window from : ℕ) (h : Hit) (rows rows' : List RateRow) (d : Decision)
      → Counted scope i limit window from h
      → check_admin_rate_limit p fingerprint h.headers h.input h.db_now h.now rows ≡ ok (rows', d)
      → (if is_of scope i h && d.allowed then 1 else 0)
          + budget limit from (find (is_row scope i) rows')
        ≤ budget limit from (find (is_row scope i) rows)
  unfolding record_hit
  hit-spends scope i limit window from h rows rows' d (after, before, same) e =
      let j = identifier_of p fingerprint h.headers h.input in
      let w = value h.input.window_seconds in
      let o = find (is_row h.input.scope j) rows in
      let (_, _, kept, decided) = check-recorded h rows rows' d e in
      elim (Bool-cases (is_of scope i h)) [
        | inr other ↦
            rw (other, kept, stored_hit-find_other scope i h.input.scope j w h.db_now rows o other)
              (omega arith)
        | inl own ↦
            let scopes : h.input.scope ≡ scope = text_eq_sound h.input.scope scope (ground arith) in
            let callers : j ≡ i = text_eq_sound j i (ground arith) in
            let windows : w ≡ window = ground (arith, same, own) in
            let limits : value h.input.limit ≡ limit = ground (arith, same, own) in
            let found = stored_hit-find h.input.scope j w h.db_now rows o refl in
            let spent =
              spend h.input.scope j (value h.input.limit) w from h.db_now h.now rows o after
                (subst (λ x. h.db_now < from + x * 1_000) (sym windows) before) in
            rw (own, kept, decided, sym scopes, sym callers, sym limits, found) spent
      ]

  allowed_within_budget :
      (scope i : Text) (limit window from : ℕ) (hs : List Hit) (rows : List RateRow)
      → All (Counted scope i limit window from) hs
      → allowed_count scope i hs rows ≤ budget limit from (find (is_row scope i) rows)
  unfolding allowed_count
  allowed_within_budget scope i limit window from [] rows _ = omega arith
  allowed_within_budget scope i limit window from (h ∷ hs) rows (c, cs) =
      elim (Result-cases
        (check_admin_rate_limit p fingerprint h.headers h.input h.db_now h.now rows)) [
          | inr (message, e) ↦
              rw (e, allowed_count) (allowed_within_budget scope i limit window from hs rows cs)
          | inl ((rows', d), e) ↦
              rw (e, allowed_count)
                (omega (
                  arith,
                  hit-spends scope i limit window from h rows rows' d c e,
                  allowed_within_budget scope i limit window from hs rows' cs,
                ))
        ]

  -- However the requests of many callers come, and whatever the rows were before, at most twice the
  -- limit of one caller's requests are allowed within the length of a window.
  pub allowed-le :
      (scope i : Text) (limit window from : ℕ) (hs : List Hit) (rows : List RateRow)
      → All (Counted scope i limit window from) hs
      → allowed_count scope i hs rows ≤ 2 * limit
  allowed-le scope i limit window from hs rows counted = omega (
    arith,
    allowed_within_budget scope i limit window from hs rows counted,
    budget-le limit from (find (is_row scope i) rows),
  )
