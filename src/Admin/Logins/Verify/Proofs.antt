-- ===== src/Admin/Logins/Verify/Proofs.antt =====
-- What a login proves of the challenge that it uses.
use xdcid.Common.{
  ℕ, ◌≡◌, ◌<◌, refl, inl, inr, Bool, true, false, Option, none, some, List, length, filter, find,
  update, Text, text_eq, ◌==◌, is_some, Result, err, ok, Option-cases, Bool-cases, arith, Platform,
}
use xdcid.Admin.RateLimits.{RateRow, Decision, check_admin_rate_limit}
use xdcid.Admin.Sessions.{SessionCodec}
use xdcid.Admin.Sessions.Permissions.{Sources, resolve_admin_authorization}
use xdcid.Admin.Logins.{
  Challenge, AdminDb, Reply, logged_in, Server, LoginBody, LoginRequest, Times, Login, has_id,
  is_open, use_at, login_of, record_event,
}
use xdcid.Admin.Logins.Verify.{
  verify_challenge_limit, recorded, deny, finish_login, check_signature, is_unusable,
  check_challenge, limit_challenge, verify_login, read_body,
}

abbrev pub is_login : Reply → Bool
is_login (logged_in a t au) = true
is_login _ = false

module _ (p : Platform) (codec : SessionCodec) (server : Server) (others : ℕ → AdminDb → AdminDb)
    (before after : Sources) (session_id : Text) (request : LoginRequest) (t : Times) where
  -- The tables that were read had the login's challenge, neither used nor expired, of the wallet and
  -- of the message that the wallet signed; the wallet had a permission; and the login used up the one
  -- row of that challenge that was still open, before the tables became the last ones.
  pub record Proven (login : Login) (read db' : AdminDb) : Type 0 where
    pub challenge : Challenge
    pub found : find (has_id login.challenge_id) read.challenges ≡ some challenge
    pub unused : is_some challenge.used_at ≡ false
    pub unexpired : t.now < challenge.expires_at
    pub of_wallet : text_eq (p.get_address challenge.address) (p.get_address login.address) ≡ true
    pub of_message : text_eq challenge.message_hash (server.hash_message login.message) ≡ true
    pub permitted :
        (length (resolve_admin_authorization p (p.get_address login.address) before).permissions
          == 0)
        ≡ false
    pub signed :
        server.verify_signature login.message login.signature (p.get_address login.address)
        ≡ some true
    pub one_use : length (filter (is_open login.challenge_id t.now) (others 1 read).challenges) ≡ 1
    pub ended : AdminDb
    pub used :
        ended.challenges
        ≡ update (is_open login.challenge_id t.now) (use_at t.now) (others 1 read).challenges
    pub left : db'.challenges ≡ (others 2 ended).challenges

  -- The same of the body of a request, over the tables before and after it.
  abbrev pub IsProven : Option LoginBody → AdminDb → AdminDb → Type 0
  IsProven body db db' =
      (b : LoginBody) × (login : Login) × (body ≡ some b)
      × (login_of p codec server b ≡ some login)
      × (start : AdminDb) × (start.challenges ≡ db.challenges)
      × Proven login (others 0 start) db'

  finish-used :
      (id address : Text) (db db' : AdminDb) (r : Reply)
      → finish_login p codec server others before after session_id request t id address db
        ≡ (db', r)
      → is_login r ≡ true
      → (length (filter (is_open id t.now) db.challenges) ≡ 1)
        × (db'.challenges
            ≡ (others 2 (record db {
              challenges = update (is_open id t.now) (use_at t.now) db.challenges;
            })).challenges)
  unfolding finish_login deny recorded record_event
  finish-used id address db db' r e h =
      let n = length (filter (is_open id t.now) db.challenges) in
      elim (Bool-cases (n == 1)) [
        | inl one ↦ (ground (arith, one), ground (arith, one, e))
        | inr other ↦ absurd (ground (arith, other, e, h))
      ]

  -- What a login proves from the challenge that was read.
  signature-signed :
      (login : Login) (address : Text) (db db' : AdminDb) (r : Reply)
      → check_signature p codec server others before after session_id request t login address db
        ≡ (db', r)
      → is_login r ≡ true
      → (server.verify_signature login.message login.signature address ≡ some true)
        × (finish_login p codec server others before after session_id request t login.challenge_id
              address
              (others 1 db)
            ≡ (db', r))
  unfolding check_signature deny
  signature-signed login address db db' r e h =
      elim (Option-cases (server.verify_signature login.message login.signature address)) [
        | inl thrown ↦ absurd (ground (arith, thrown, e, h))
        | inr (true, checked) ↦ (checked, ground (arith, checked, e))
        | inr (false, checked) ↦ absurd (ground (arith, checked, e, h))
      ]

  challenge-IsProven :
      (login : Login) (db db' : AdminDb) (r : Reply)
      → check_challenge p codec server others before after session_id request t login
          (p.get_address login.address)
          db
        ≡ (db', r)
      → is_login r ≡ true
      → Proven login db db'
  unfolding check_challenge deny is_unusable
  challenge-IsProven login db db' r e h =
      let address = p.get_address login.address in
      let stranger = length (resolve_admin_authorization p address before).permissions == 0 in
      elim (Option-cases (find (has_id login.challenge_id) db.challenges)) [
        | inl missing ↦ absurd (ground (arith, missing, e, h))
        | inr (c, found) ↦
            let unusable =
              is_unusable p codec server others before after session_id request t login address
                (some c) in
            elim (Bool-cases unusable) [
              | inl bad ↦ absurd (ground (arith, found, bad, e, h))
              | inr good ↦ elim (Bool-cases stranger) [
                | inl unknown ↦ absurd (ground (arith, found, good, unknown, e, h))
                | inr permitted ↦
                    let (signed, finished) =
                      signature-signed login address db db' r
                        (ground (arith, found, good, permitted, e)) h in
                    let (one_use, left) =
                      finish-used login.challenge_id address (others 1 db) db' r finished h in
                    record {
                      challenge = c;
                      found = found;
                      unused = ground (arith, good);
                      unexpired = ground (arith, good);
                      of_wallet = ground (arith, good);
                      of_message = ground (arith, good);
                      permitted = permitted;
                      signed = signed;
                      one_use = one_use;
                      ended = _;
                      used = refl;
                      left = left;
                    }
              ]
            ]
      ]

  limit-IsProven :
      (login : Login) (db db' : AdminDb) (r : Reply) (limit : Result (List RateRow × Decision))
      → limit_challenge p codec server others before after session_id request t login
          (p.get_address login.address)
          db
          limit
        ≡ (db', r)
      → is_login r ≡ true
      → (start : AdminDb) × (start.challenges ≡ db.challenges) × Proven login (others 0 start) db'
  unfolding limit_challenge
  limit-IsProven login db db' r (err m) e h = absurd (ground (arith, e, h))
  limit-IsProven login db db' r (ok (rates, d)) e h = elim (Bool-cases d.allowed) [
    | inl fine ↦ (
      record db { rates = rates },
      refl,
      challenge-IsProven login (others 0 (record db { rates = rates })) db' r
          (ground (arith, fine, e)) h,
    )
    | inr over ↦ absurd (ground (arith, over, e, h))
  ]

  pub body-IsProven :
      (body : Option LoginBody) (db db' : AdminDb) (r : Reply)
      → read_body p codec server others before after session_id request t body db ≡ (db', r)
      → is_login r ≡ true
      → IsProven body db db'
  unfolding read_body verify_login
  body-IsProven none db db' r e h = absurd (ground (arith, e, h))
  body-IsProven (some b) db db' r e h = elim (Option-cases (login_of p codec server b)) [
    | inl bad ↦ absurd (ground (arith, bad, e, h))
    | inr (login, good) ↦
        let limit =
          check_admin_rate_limit p server.fingerprint request.headers
            (verify_challenge_limit login.challenge_id) t.second_db t.second_now db.rates in
        let (start, kept, proven) =
          limit-IsProven login db db' r limit (ground (arith, good, e)) h in
        (b, login, refl, good, start, kept, proven)
  ]
