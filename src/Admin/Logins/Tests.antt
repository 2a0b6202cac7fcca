-- ===== src/Admin/Logins/Tests.antt =====
-- Logins: the theorems at a concrete challenge.
use xdcid.Common.{
  ℕ, ◌≡◌, refl, Bool, true, false, none, some, List, [], ◌∷◌, Text, text, int, find, is_some, arith,
}
use xdcid.Common.Samples.{sample_platform, address_of}
use xdcid.Admin.{Headers, is_same_origin}
use xdcid.Admin.Sessions.{SessionCodec, SessionPayload}
use xdcid.Admin.Sessions.Permissions.{Sources}
use xdcid.Admin.Logins.{Challenge, AdminDb, Reply, Server, LoginBody, LoginRequest, Times}
use xdcid.Admin.Logins.Verify.{verify}
use xdcid.Admin.Logins.Verify.Proofs.{is_login, IsProven}
use xdcid.Admin.Logins.Verify.Once.{verify-IsProven, login-once}

abbrev sample_headers : Headers
sample_headers = record {
  origin = some (text "https://xdcid.example");
  sec_fetch_site = none;
  forwarded_for = none;
  vercel_forwarded_for = none;
  real_ip = none;
  user_agent = none;
  cookie = none;
}

abbrev as_hash : Text → Text
as_hash s = s

abbrev sample_codec : SessionCodec
sample_codec = record {
  encode = as_hash;
  decode = as_hash;
  stringify = λ s. s.session_id;
  parse = λ s. none;
  sign = as_hash;
}

abbrev sample_server : Server
sample_server = record {
  url_origin = λ s. some (text "https://xdcid.example");
  fingerprint = as_hash;
  hash_message = as_hash;
  is_hex = λ s. true;
  verify_signature = λ message signature signer. some true;
  configured = true;
}

abbrev challenge_id : Text
challenge_id = text "0123456789abcdef0123456789abcdef"

abbrev sample_request : LoginRequest
sample_request = record {
  url = text "https://xdcid.example/api/admin/auth/verify";
  headers = sample_headers;
  body = some (record {
    challenge_id = some challenge_id;
    address = some (address_of b'1');
    message = some (text "sign in");
    signature = some (text "0x12");
  });
}

abbrev sample_sources : Sources
sample_sources = record {
  owners = some (address_of b'1' ∷ []);
  archive_wallet = none;
  registration_treasury = none;
  archive_treasury = none;
  authorization_signer = none;
}

abbrev times : ℕ → Times
times now = record {
  first_db = now;
  first_now = now;
  second_db = now;
  second_now = now;
  now = now;
  session_now = now;
}

abbrev unchanged : ℕ → AdminDb → AdminDb
unchanged k d = d

abbrev sample_db : AdminDb
sample_db = record {
  challenges =
      (record {
        id = challenge_id;
        address = address_of b'1';
        message_hash = text "sign in";
        expires_at = 100;
        used_at = none;
      })
      ∷ [];
  rates = [];
  events = [];
}

abbrev answer : AdminDb → ℕ → AdminDb × Reply
answer db now =
    verify sample_platform sample_codec sample_server unchanged sample_sources sample_sources
      (text "session") sample_request (times now) db

verify-IsProven_example :
    (is_same_origin sample_server.url_origin sample_request.url sample_request.headers ≡ true)
    × IsProven sample_platform sample_codec sample_server unchanged sample_sources sample_sources
        (text "session")
        sample_request
        (times 50)
        sample_request.body
        sample_db
        (answer sample_db 50).0
unfolding verify is_same_origin xdcid.Common.text_eq xdcid.Admin.same_url_origin
    xdcid.Admin.RateLimits.check_admin_rate_limit xdcid.Admin.Logins.login_of
    xdcid.Admin.Sessions.Permissions.resolve_admin_authorization
    xdcid.Admin.Sessions.Permissions.authorized_treasury_addresses xdcid.Admin.Logins.is_open
verify-IsProven_example =
    verify-IsProven sample_platform sample_codec sample_server unchanged sample_sources
      sample_sources (text "session") sample_request (times 50) sample_db (answer sample_db 50).0
      (answer sample_db 50).1 refl refl

login-once_example : is_login (answer (answer sample_db 50).0 60).1 ≡ false
unfolding verify is_same_origin xdcid.Common.text_eq xdcid.Admin.same_url_origin
    xdcid.Admin.RateLimits.check_admin_rate_limit xdcid.Admin.Logins.login_of
    xdcid.Admin.Sessions.Permissions.resolve_admin_authorization
    xdcid.Admin.Sessions.Permissions.authorized_treasury_addresses xdcid.Admin.Logins.is_open
login-once_example =
    login-once sample_platform sample_codec sample_server unchanged unchanged sample_sources
      sample_sources sample_sources sample_sources (text "session") (text "session") sample_request
      sample_request (times 50) (times 60) sample_db (answer sample_db 50).0
      (answer (answer sample_db 50).0 60).0 (answer sample_db 50).1
      (answer (answer sample_db 50).0 60).1 challenge_id (λ k d h. h) (λ k d h. h) refl refl
      (omega arith) refl refl refl
