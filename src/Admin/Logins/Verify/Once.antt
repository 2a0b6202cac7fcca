-- ===== src/Admin/Logins/Verify/Once.antt =====
-- The whole login handler, and a challenge's single use.
use xdcid.Common.{
  ℕ, ◌≡◌, ◌≤◌, refl, sym, ap, ◌∙◌, subst, inl, inr, true, false, Option, none, some, List, [], ◌∷◌,
  length, filter, update, any, Text, Result, err, ok, Bool-cases, arith, Platform,
}
use xdcid.Admin.{is_same_origin}
use xdcid.Admin.RateLimits.{RateRow, Decision, check_admin_rate_limit}
use xdcid.Admin.Sessions.{SessionCodec}
use xdcid.Admin.Sessions.Permissions.{Sources}
use xdcid.Admin.Logins.{
  Challenge, AdminDb, Reply, Server, LoginBody, LoginRequest, Times, Login, is_open, use_at,
  valid_login, login_of,
}
use xdcid.Admin.Logins.Verify.{verify_ip_limit, limit_client, verify}
use xdcid.Admin.Logins.Verify.Proofs.{is_login, Proven, IsProven, body-IsProven}

-- After the open rows of a challenge were used, none is open, now or later.
used_up :
    (id : Text) (now : ℕ) (cs : List Challenge)
    → any (is_open id now) (update (is_open id now) (use_at now) cs) ≡ false
unfolding is_open use_at
used_up id now [] = refl
used_up id now (c ∷ cs) = ground (arith, used_up id now cs)

none_open :
    (id : Text) (now later : ℕ) (cs : List Challenge)
    → now ≤ later
    → any (is_open id now) cs ≡ false
    → length (filter (is_open id later) cs) ≡ 0
unfolding is_open
none_open id now later [] le h = refl
none_open id now later (c ∷ cs) le h = ground (arith, none_open id now later cs le)

abbrev pub challenge_of : Option LoginBody → Option Text
challenge_of none = none
challenge_of (some b) = b.challenge_id

-- The challenge that a request is about.
abbrev pub asked_for : LoginRequest → Option Text
asked_for request = challenge_of request.body

some_injective : {a b : Text} → some a ≡ some b → a ≡ b
some_injective e = cc

module _ (p : Platform) (codec : SessionCodec) (server : Server) where
  login_of-challenge_id :
      (b : LoginBody) (login : Login)
      → login_of p codec server b ≡ some login
      → b.challenge_id ≡ some login.challenge_id
  unfolding login_of valid_login
  login_of-challenge_id b login e = ground (arith, e)

  module _ (others : ℕ → AdminDb → AdminDb) (before after : Sources) (session_id : Text)
      (request : LoginRequest) (t : Times) where
    client-IsProven :
        (db db' : AdminDb) (r : Reply) (limit : Result (List RateRow × Decision))
        → limit_client p codec server others before after session_id request t db limit ≡ (db', r)
        → is_login r ≡ true
        → IsProven p codec server others before after session_id request t request.body db db'
    unfolding limit_client
    client-IsProven db db' r (err m) e h = absurd (ground (arith, e, h))
    client-IsProven db db' r (ok (rates, d)) e h = elim (Bool-cases d.allowed) [
      | inl fine ↦
          body-IsProven p codec server others before after session_id request t request.body
            (record db { rates = rates }) db' r (ground (arith, fine, e)) h
      | inr over ↦ absurd (ground (arith, over, e, h))
    ]

    -- A request is logged in only from the server's own origin, with a body of the right form, whose
    -- challenge was there when the tables were read, neither used nor expired, of the wallet and of
    -- the message that the wallet signed, by a wallet that had a permission; and the login uses up
    -- the one open row of that challenge.
    pub verify-IsProven :
        (db db' : AdminDb) (r : Reply)
        → verify p codec server others before after session_id request t db ≡ (db', r)
        → is_login r ≡ true
        → (is_same_origin server.url_origin request.url request.headers ≡ true)
          × IsProven p codec server others before after session_id request t request.body db db'
    unfolding verify
    verify-IsProven db db' r e h =
        elim (Bool-cases (is_same_origin server.url_origin request.url request.headers)) [
          | inr foreign ↦ absurd (ground (arith, foreign, e, h))
          | inl own ↦ elim (Bool-cases server.configured) [
            | inr missing ↦ absurd (ground (arith, own, missing, e, h))
            | inl configured ↦
                let limit =
                  check_admin_rate_limit p server.fingerprint request.headers verify_ip_limit
                    t.first_db t.first_now db.rates in
                (own, client-IsProven db db' r limit (ground (arith, own, configured, e)) h)
          ]
        ]

    -- Other requests leave no row of a challenge open that was not.
    abbrev pub KeepsSpent : Text → ℕ → Type 0
    KeepsSpent id now =
        (k : ℕ) (d : AdminDb)
        → any (is_open id now) d.challenges ≡ false
        → any (is_open id now) (others k d).challenges ≡ false

    named_id :
        (db db' : AdminDb) (id : Text)
        → IsProven p codec server others before after session_id request t request.body db db'
        → asked_for request ≡ some id
        → (start : AdminDb) × (login : Login) × (start.challenges ≡ db.challenges)
          × (login.challenge_id ≡ id)
          × Proven p codec server others before after session_id request t login
              (others 0 start)
              db'
    named_id db db' id (b, login, body, read, start, same, proven) asked = (
      start,
      login,
      same,
      some_injective
          (sym (login_of-challenge_id b login read) ∙ sym (ap challenge_of body) ∙ asked),
      proven,
    )

    login-uses_up :
        (db db' : AdminDb) (r : Reply) (id : Text)
        → KeepsSpent id t.now
        → verify p codec server others before after session_id request t db ≡ (db', r)
        → is_login r ≡ true
        → asked_for request ≡ some id
        → any (is_open id t.now) db'.challenges ≡ false
    login-uses_up db db' r id keeps e h asked =
        let (_, shown) = verify-IsProven db db' r e h in
        let (start, login, same, same_id, proven) = named_id db db' id shown asked in
        let empty =
          ap (any (is_open login.challenge_id t.now)) proven.used
          ∙ used_up login.challenge_id t.now (others 1 (others 0 start)).challenges in
        let used =
          subst (λ x. any (is_open x t.now) proven.ended.challenges ≡ false) same_id empty in
        subst (λ cs. any (is_open id t.now) cs ≡ false) (sym proven.left)
          (keeps 2 proven.ended used)

    spent-refused :
        (db db' : AdminDb) (r : Reply) (id : Text) (now : ℕ)
        → KeepsSpent id now
        → now ≤ t.now
        → any (is_open id now) db.challenges ≡ false
        → verify p codec server others before after session_id request t db ≡ (db', r)
        → asked_for request ≡ some id
        → is_login r ≡ false
    spent-refused db db' r id now keeps le spent e asked = elim (Bool-cases (is_login r)) [
      | inr refused ↦ refused
      | inl accepted ↦
          let (_, shown) = verify-IsProven db db' r e accepted in
          let (start, login, same, same_id, proven) = named_id db db' id shown asked in
          let read =
            keeps 1 (others 0 start) (keeps 0 start (ap (any (is_open id now)) same ∙ spent)) in
          let closed = none_open id now t.now (others 1 (others 0 start)).challenges le read in
          let one =
            subst
              (λ x. length (filter (is_open x t.now) (others 1 (others 0 start)).challenges) ≡ 1)
              same_id proven.one_use in
          absurd (omega (arith, closed, one))
    ]

-- When a request was logged in by a challenge, no later request for that challenge is logged in, as
-- long as no other request makes a used or expired challenge open again.
pub login-once :
    (p : Platform) (codec : SessionCodec) (server : Server) (others others' : ℕ → AdminDb → AdminDb)
    (before after before' after' : Sources) (session_id session_id' : Text)
    (request request' : LoginRequest) (t t' : Times) (db db' db'' : AdminDb) (r r' : Reply)
    (id : Text)
    → KeepsSpent p codec server others before after session_id request t id t.now
    → KeepsSpent p codec server others' before' after' session_id' request' t' id t.now
    → asked_for request ≡ some id
    → asked_for request' ≡ some id
    → t.now ≤ t'.now
    → verify p codec server others before after session_id request t db ≡ (db', r)
    → is_login r ≡ true
    → verify p codec server others' before' after' session_id' request' t' db' ≡ (db'', r')
    → is_login r' ≡ false
login-once p codec server others others' before after before' after' session_id session_id' request
      request' t t' db db' db'' r r' id keeps keeps' asked asked' le e h e' =
    spent-refused p codec server others' before' after' session_id' request' t' db' db'' r' id t.now
      keeps' le
      (login-uses_up p codec server others before after session_id request t db db' r id keeps e h
        asked)
      e' asked'
