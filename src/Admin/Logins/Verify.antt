-- ===== src/Admin/Logins/Verify.antt =====
-- frontend/app/api/admin/auth/verify/route.ts.
pub mod Proofs
pub mod Once
use xdcid.Common.{
  ℕ, ◌*◌, Bool, true, false, ◌&&◌, ◌||◌, not, Option, none, some, List, [], ◌∷◌, length, filter,
  find, update, Text, text, text_eq, String, int, leb, ◌==◌, is_some, Result, err, ok, Platform,
}
use xdcid.Admin.{is_same_origin, admin_client_binding}
use xdcid.Admin.RateLimits.{RateRow, Decision, RateLimit, check_admin_rate_limit}
use xdcid.Admin.Sessions.{SessionCodec, create_admin_session}
use xdcid.Admin.Sessions.Permissions.{Sources, resolve_admin_authorization}
use xdcid.Admin.Logins.{
  Challenge, Outcome, denied, failed, rate_limited, succeeded, AdminDb, Reply, refused, limited,
  logged_in, Server, LoginBody, LoginRequest, Times, Login, has_id, is_open, use_at, guard,
  record_event, login_of,
}

abbrev pub verify_ip_limit : RateLimit
verify_ip_limit = record {
  scope = text "verify-ip";
  limit = int 30;
  window_seconds = int (5 * 60);
  subject = none;
}

abbrev pub verify_challenge_limit : Text → RateLimit
verify_challenge_limit id = record {
  scope = text "verify-challenge";
  limit = int 10;
  window_seconds = int (5 * 60);
  subject = some id;
}

module _ (p : Platform) (codec : SessionCodec) (server : Server) (others : ℕ → AdminDb → AdminDb)
    (before after : Sources) (session_id : Text) (request : LoginRequest) (t : Times) where
  recorded : Outcome → Option Text → AdminDb → AdminDb
  recorded outcome address db =
      record_event p codec server (text "admin-verification") outcome request address db

  -- A refusal that is recorded first.
  deny : ℕ → String → Text → AdminDb → AdminDb × Reply
  unfolding recorded
  deny status error address db = (recorded denied (some address) db, refused status error)

  -- The challenge's use and the session.
  finish_login : Text → Text → AdminDb → AdminDb × Reply
  unfolding recorded deny
  finish_login id address db =
      let consumed = length (filter (is_open id t.now) db.challenges) in
      let db' = record db { challenges = update (is_open id t.now) (use_at t.now) db.challenges } in
      guard (not (consumed == 1)) (deny 401 "Login challenge was already used" address db') (
        recorded succeeded (some address) (others 2 db'),
        logged_in address
            (create_admin_session p codec address
              (admin_client_binding server.fingerprint request.headers) session_id t.session_now)
            (resolve_admin_authorization p address after),
      )

  -- The signature; where its check throws, the handler's `catch` answers.
  check_signature : Login → Text → AdminDb → AdminDb × Reply
  unfolding deny recorded finish_login
  check_signature login address db =
      elim (server.verify_signature login.message login.signature address) [
        | none ↦
            (recorded failed (some login.address) db, refused 503 "Unable to verify admin login")
        | some valid ↦
            guard (not valid) (deny 401 "Wallet signature is invalid" address db)
              (finish_login login.challenge_id address (others 1 db))
      ]

  -- Whether the challenge that was read may not be used for a login.
  is_unusable : Login → Text → Option Challenge → Bool
  is_unusable login address none = true
  is_unusable login address (some c) =
      is_some c.used_at
      || leb c.expires_at t.now
      || not (text_eq (p.get_address c.address) address)
      || not (text_eq c.message_hash (server.hash_message login.message))

  check_challenge : Login → Text → AdminDb → AdminDb × Reply
  unfolding is_unusable deny check_signature
  check_challenge login address db =
      guard (is_unusable login address (find (has_id login.challenge_id) db.challenges))
        (deny 401 "Login challenge is invalid, expired, or already used" address db)
        (guard (length (resolve_admin_authorization p address before).permissions == 0)
          (deny 403 "Wallet does not have an authorized XDCID administrator role" address db)
          (check_signature login address db))

  -- The rate limit of the challenge.
  limit_challenge : Login → Text → AdminDb → Result (List RateRow × Decision) → AdminDb × Reply
  unfolding recorded check_challenge
  limit_challenge login address db (err e) =
      (recorded failed (some login.address) db, refused 503 "Unable to verify admin login")
  limit_challenge login address db (ok (rates, decision)) =
      guard (not decision.allowed)
        (recorded rate_limited (some address) (record db { rates = rates }), limited decision)
        (check_challenge login address (others 0 (record db { rates = rates })))

  verify_login : Option Login → AdminDb → AdminDb × Reply
  unfolding limit_challenge
  verify_login none db = (db, refused 400 "Invalid login verification payload")
  verify_login (some login) db = limit_challenge login (p.get_address login.address) db (
      check_admin_rate_limit p server.fingerprint request.headers
        (verify_challenge_limit login.challenge_id) t.second_db t.second_now db.rates)

  pub read_body : Option LoginBody → AdminDb → AdminDb × Reply
  unfolding verify_login
  read_body none db = (db, refused 400 "Invalid JSON body")
  read_body (some body) db = verify_login (login_of p codec server body) db

  -- The rate limit of the client.
  limit_client : AdminDb → Result (List RateRow × Decision) → AdminDb × Reply
  unfolding recorded read_body
  limit_client db (err e) = (db, refused 503 "Admin authentication is temporarily unavailable")
  limit_client db (ok (rates, decision)) =
      guard (not decision.allowed)
        (recorded rate_limited none (record db { rates = rates }), limited decision)
        (read_body request.body (record db { rates = rates }))

  -- The whole handler.
  unfoldable pub verify : AdminDb → AdminDb × Reply
  unfolding limit_client
  verify db =
      guard (not (is_same_origin server.url_origin request.url request.headers))
        (db, refused 403 "Invalid request origin")
        (guard (not server.configured) (db, refused 503 "Admin authentication is not configured")
          (limit_client db (
            check_admin_rate_limit p server.fingerprint request.headers verify_ip_limit t.first_db
              t.first_now db.rates)))
