-- ===== src/Admin/Tests.antt =====
-- The administration: the theorems at concrete requests.
use xdcid.Common.{
  ℕ, ◌+◌, ◌*◌, ◌/◌, ◌&&◌, not, all-Lacks, ◌≡◌, ◌≤◌, refl, Bool, true, false, Option, none, some, [],
  ◌∷◌, ◌++◌, find, Text, text, text_eq, int, ltb, if◌then◌else◌, map, arith,
}
use xdcid.Common.Samples.{sample_platform, address_of}
use xdcid.Admin.{Headers, admin_client_binding}
use xdcid.Admin.RateLimits.{RateRow, Decision, RateLimit, identifier_of}
use xdcid.Admin.RateLimits.Windows.{Hit, allowed_count, allowed-le}
use xdcid.Admin.Sessions.{
  SessionPayload, SessionCodec, session_payload, create_admin_session, parse_admin_session,
  cookie_value,
}
use xdcid.Admin.Sessions.Signed.{IsSigned}
use xdcid.Admin.Sessions.Signed.Roundtrip.{parse-create}
use xdcid.Admin.Sessions.Permissions.{
  AdminAuthorization, Sources, revenue_view, discount_issue, discount_signer,
  require_admin_permission,
}
use xdcid.Admin.Sessions.Permissions.Entitled.{entitles}
use xdcid.Admin.Sessions.Permissions.Authorized.{require-IsEntitled}

abbrev sample_headers : Headers
sample_headers = record {
  origin = some (text "https://xdcid.example");
  sec_fetch_site = none;
  forwarded_for = some (text "10.0.0.1, 10.0.0.2");
  vercel_forwarded_for = none;
  real_ip = none;
  user_agent = none;
  cookie = none;
}

-- The hash of a text is the text.
abbrev as_hash : Text → Text
as_hash s = s

abbrev one_a_minute : RateLimit
one_a_minute = record {
  scope = text "eligibility";
  limit = int 1;
  window_seconds = int 60;
  subject = none;
}

abbrev hit_at : ℕ → Hit
hit_at now = record { headers = sample_headers; input = one_a_minute; db_now = now; now = now }

client_first : admin_client_binding as_hash sample_headers ≡ text "admin-client:10.0.0.1:unknown"
unfolding admin_client_binding xdcid.Common.split xdcid.Common.trim
client_first = refl

abbrev caller : Text
caller = text "eligibility:admin-client:10.0.0.1:unknown"

allowed-le_example :
    allowed_count sample_platform as_hash (text "eligibility") caller (hit_at 5 ∷ hit_at 9 ∷ []) []
    ≤ 2 * 1
unfolding text_eq identifier_of admin_client_binding xdcid.Common.split xdcid.Common.trim
allowed-le_example =
    allowed-le sample_platform as_hash (text "eligibility") caller 1 60 0 (hit_at 5 ∷ hit_at 9 ∷ [])
      [] ((omega arith, omega arith, refl), ((omega arith, omega arith, refl), tt))

abbrev row_of : ℕ → RateRow
row_of hits = record {
  scope = text "eligibility";
  identifier_hash = caller;
  window_started_at = 5;
  hit_count = hits;
}

abbrev refusal : Decision
refusal = record { allowed = false; limit = 1; remaining = 0; retry_after_seconds = 60 }

-- A payload is written as its session id, and signed by a fixed text.
abbrev id_of_32 : Text
id_of_32 = text "0123456789abcdef0123456789abcdef"

abbrev sample_payload : Text → SessionPayload
sample_payload s = record {
  v = int 2;
  address = address_of b'1';
  client_binding = text "admin-client:10.0.0.1:unknown";
  issued_at = int 7;
  expires_at = int 907;
  session_id = s;
}

abbrev sample_codec : SessionCodec
sample_codec = record {
  encode = as_hash;
  decode = as_hash;
  stringify = λ s. s.session_id;
  parse = λ s. some (sample_payload s);
  sign = λ s. text "mac" ++ s;
}

parse-create_example :
    parse_admin_session sample_platform sample_codec
      (some (
        create_admin_session sample_platform sample_codec
          (address_of b'1')
          (text "admin-client:10.0.0.1:unknown")
          id_of_32
          7_500))
      (text "admin-client:10.0.0.1:unknown")
      30_000
    ≡ (if text_eq (text "admin-client:10.0.0.1:unknown") (text "admin-client:10.0.0.1:unknown")
          && ltb (30_000 / 1_000) (7_500 / 1_000 + 900)
        then some (
            session_payload sample_platform sample_codec
              (address_of b'1')
              (text "admin-client:10.0.0.1:unknown")
              id_of_32
              7_500)
        else none)
unfolding session_payload
parse-create_example =
    parse-create sample_platform sample_codec (address_of b'1')
      (text "admin-client:10.0.0.1:unknown") (text "admin-client:10.0.0.1:unknown") id_of_32 7_500
      30_000 refl refl refl (all-Lacks b'.' id_of_32 refl)
      (all-Lacks b'.' (text "mac" ++ id_of_32) refl) refl refl refl (omega arith)

-- The wallet is the signer of discounts, and nothing else.
abbrev sample_sources : Sources
sample_sources = record {
  owners = none;
  archive_wallet = some none;
  registration_treasury = none;
  archive_treasury = none;
  authorization_signer = some (address_of b'1');
}

abbrev signed_in : Headers
signed_in = record sample_headers {
  cookie = some (text "a=b; session=" ++ id_of_32 ++ text ".mac" ++ id_of_32);
}

abbrev signer_authorization : AdminAuthorization
signer_authorization = record { roles = discount_signer ∷ []; permissions = discount_issue ∷ [] }

require-IsEntitled_example :
    (token : Text) × (cookie_value signed_in.cookie (text "session") ≡ some token)
    × IsSigned sample_platform sample_codec token
        (admin_client_binding as_hash signed_in)
        30_000
        (sample_payload id_of_32)
    × (entitles sample_platform discount_issue
          (sample_platform.get_address (sample_payload id_of_32).address)
          sample_sources
        ≡ true)
unfolding require_admin_permission xdcid.Admin.Sessions.Permissions.require_authorized_admin_session
    parse_admin_session cookie_value xdcid.Common.split xdcid.Common.trim text_eq
    admin_client_binding xdcid.Admin.Sessions.Permissions.resolve_admin_authorization
    xdcid.Admin.Sessions.Permissions.authorized_treasury_addresses
require-IsEntitled_example =
    require-IsEntitled sample_platform sample_codec as_hash (text "session") signed_in
      discount_issue 30_000 sample_sources (sample_payload id_of_32) signer_authorization refl
