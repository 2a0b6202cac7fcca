-- ===== src/Admin/Logins/Challenges.antt =====
-- frontend/app/api/admin/auth/challenge/route.ts, and the message that a wallet signs. The
-- statements of the handler are one step here, which no other request interleaves.
use xdcid.Common.{
  ℕ, ◌+◌, ◌*◌, not, Option, none, some, List, [], ◌∷◌, ◌++◌, length, filter, Text, text, int, leb,
  ◌==◌, Result, err, ok, Platform,
}
use xdcid.Admin.{is_same_origin}
use xdcid.Admin.RateLimits.{RateRow, Decision, RateLimit, check_admin_rate_limit}
use xdcid.Admin.Sessions.{SessionCodec}
use xdcid.Admin.Sessions.Permissions.{Sources, resolve_admin_authorization}
use xdcid.Admin.Logins.{
  Outcome, denied, failed, rate_limited, succeeded, AdminDb, Reply, refused, limited, challenged,
  Server, LoginRequest, Times, guard, record_event,
}

abbrev pub admin_challenge_ttl_ms : ℕ
admin_challenge_ttl_ms = 5 * 60 * 1_000

join_lines : List Text → Text
join_lines [] = []
join_lines (line ∷ []) = line
join_lines (line ∷ lines) = let rest = join_lines lines in line ++ 10 ∷ rest

-- `iso` is `toISOString`.
pub build_admin_challenge : (ℕ → Text) → Text → Text → Text → ℕ → ℕ → Text
unfolding join_lines
build_admin_challenge iso origin address nonce issued_at expires_at = join_lines (
    text "Sign in to XDCID Admin"
    ∷ []
    ∷ (text "Address: " ++ address)
    ∷ text "Chain ID: 50"
    ∷ (text "URI: " ++ origin ++ text "/admin")
    ∷ (text "Nonce: " ++ nonce)
    ∷ (text "Issued At: " ++ iso issued_at)
    ∷ (text "Expiration Time: " ++ iso expires_at)
    ∷ []
    ∷ text "This request will not trigger a blockchain transaction or cost gas."
    ∷ [])

abbrev challenge_ip_limit : RateLimit
challenge_ip_limit = record {
  scope = text "challenge-ip";
  limit = int 15;
  window_seconds = int (5 * 60);
  subject = none;
}

abbrev challenge_wallet_limit : Text → RateLimit
challenge_wallet_limit address = record {
  scope = text "challenge-wallet";
  limit = int 5;
  window_seconds = int (5 * 60);
  subject = some address;
}

-- `id` and `nonce` are the random texts; the request's body is its `address`, when it parses.
module _ (p : Platform) (codec : SessionCodec) (server : Server) (iso : ℕ → Text) (id nonce : Text)
    (sources : Sources) (request : LoginRequest) (t : Times) where
  recorded : Outcome → Option Text → AdminDb → AdminDb
  recorded outcome address db =
      record_event p codec server (text "admin-challenge") outcome request address db

  -- Challenges that expired are removed, and the new one is stored.
  store_challenge : Text → Text → AdminDb → AdminDb
  store_challenge address message db = record db {
    challenges =
        (record {
          id = id;
          address = address;
          message_hash = server.hash_message message;
          expires_at = t.now + admin_challenge_ttl_ms;
          used_at = none;
        })
        ∷ filter (λ c. leb t.now c.expires_at) db.challenges;
  }

  issue : Text → Text → AdminDb → AdminDb × Reply
  unfolding recorded store_challenge
  issue raw address db = elim (server.url_origin request.url) [
    | none ↦
        (recorded failed (some raw) db, refused 503 "Unable to create an admin login challenge")
    | some origin ↦
        let expires_at = t.now + admin_challenge_ttl_ms in
        let message = build_admin_challenge iso origin address nonce t.now expires_at in
        (
          recorded succeeded (some address) (store_challenge address message db),
          challenged id message expires_at,
        )
  ]

  limit_wallet : Text → AdminDb → Result (List RateRow × Decision) → AdminDb × Reply
  unfolding recorded issue
  limit_wallet raw db (err e) =
      (recorded failed (some raw) db, refused 503 "Unable to create an admin login challenge")
  limit_wallet raw db (ok (rates, decision)) =
      let address = p.get_address raw in
      let db' = record db { rates = rates } in
      guard (not decision.allowed) (recorded rate_limited (some address) db', limited decision)
        (guard (length (resolve_admin_authorization p address sources).permissions == 0)
          (
            recorded denied (some address) db',
            refused 403 "Wallet does not have an authorized XDCID administrator role",
          )
          (issue raw address db'))

  -- Of the address in the body: `none` for a body that does not parse, and inside for no text.
  challenge_address : Option (Option Text) → AdminDb → AdminDb × Reply
  unfolding limit_wallet
  challenge_address none db = (db, refused 400 "Invalid JSON body")
  challenge_address (some none) db = (db, refused 400 "A valid wallet address is required")
  challenge_address (some (some raw)) db =
      guard (not (p.is_address raw)) (db, refused 400 "A valid wallet address is required")
        (limit_wallet raw db (
          check_admin_rate_limit p server.fingerprint request.headers
            (challenge_wallet_limit (p.get_address raw)) t.second_db t.second_now db.rates))

  limit_client : Option (Option Text) → AdminDb → Result (List RateRow × Decision) → AdminDb × Reply
  unfolding recorded challenge_address
  limit_client address db (err e) =
      (db, refused 503 "Admin authentication is temporarily unavailable")
  limit_client address db (ok (rates, decision)) =
      guard (not decision.allowed)
        (recorded rate_limited none (record db { rates = rates }), limited decision)
        (challenge_address address (record db { rates = rates }))

  -- The whole handler.
  pub create_challenge : Option (Option Text) → AdminDb → AdminDb × Reply
  unfolding limit_client
  create_challenge address db =
      guard (not (is_same_origin server.url_origin request.url request.headers))
        (db, refused 403 "Invalid request origin")
        (guard (not server.configured) (db, refused 503 "Admin authentication is not configured")
          (limit_client address db (
            check_admin_rate_limit p server.fingerprint request.headers challenge_ip_limit
              t.first_db t.first_now db.rates)))
