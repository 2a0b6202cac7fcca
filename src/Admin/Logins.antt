-- ===== src/Admin/Logins.antt =====
-- frontend/app/api/admin/auth: the challenge that a wallet signs and the login that its signature
-- proves. `others k` is what other requests do to the tables before the k-th statement of a login
-- after its rate limits.
pub mod Challenges
mod Tests
pub mod Verify
use xdcid.Common.{
  ℕ, ◌+◌, ◌*◌, Bool, true, false, ◌&&◌, ◌||◌, not, Option, none, some, List, [], ◌∷◌, ◌++◌, length,
  filter, find, update, all, take, Text, text, text_eq, String, int, leb, ltb, ◌==◌, if◌then◌else◌,
  is_some, Result, err, ok, Platform,
}
use xdcid.Admin.{Headers, is_same_origin, admin_client_binding}
use xdcid.Admin.RateLimits.{RateRow, Decision, RateLimit, check_admin_rate_limit}
use xdcid.Admin.Sessions.{SessionCodec, create_admin_session}
use xdcid.Admin.Sessions.Permissions.{AdminAuthorization, Sources, resolve_admin_authorization}

pub record Challenge : Type 0 where
  pub id : Text
  pub address : Text
  pub message_hash : Text
  pub expires_at : ℕ
  pub used_at : Option ℕ

pub data Outcome : Type 0 where
  denied failed rate_limited succeeded : Outcome

-- Without its random id and its time.
pub record SecurityEvent : Type 0 where
  pub event_type : Text
  pub outcome : Outcome
  pub address_fingerprint : Option Text
  pub client_fingerprint : Text

pub record AdminDb : Type 0 where
  pub challenges : List Challenge
  pub rates : List RateRow
  pub events : List SecurityEvent

pub data Reply : Type 0 where
  refused : (status : ℕ) (error : String) → Reply
  limited : Decision → Reply
  challenged : (challenge_id message : Text) (expires_at : ℕ) → Reply
  logged_in : (address token : Text) (authorization : AdminAuthorization) → Reply

-- What the handlers take from the request's URL, from the keyed hash, from hashing a message, from
-- viem's `isHex` and from checking a wallet's signature (`none` where that throws).
pub record Server : Type 0 where
  pub url_origin : Text → Option Text
  pub fingerprint : Text → Text
  pub hash_message : Text → Text
  pub is_hex : Text → Bool
  pub verify_signature : Text → Text → Text → Option Bool
  pub configured : Bool

-- A field of the body that is no text is `none`, and so is a body that does not parse.
pub record LoginBody : Type 0 where
  pub challenge_id : Option Text
  pub address : Option Text
  pub message : Option Text
  pub signature : Option Text

pub record LoginRequest : Type 0 where
  pub url : Text
  pub headers : Headers
  pub body : Option LoginBody

-- The database's time and the server's at the two rate limits, the time that the challenge is read
-- at, and the time that the session begins at.
pub record Times : Type 0 where
  pub first_db : ℕ
  pub first_now : ℕ
  pub second_db : ℕ
  pub second_now : ℕ
  pub now : ℕ
  pub session_now : ℕ

-- The fields of a body that the login reads on.
pub record Login : Type 0 where
  pub challenge_id : Text
  pub address : Text
  pub message : Text
  pub signature : Text

abbrev pub has_id : Text → Challenge → Bool
has_id id c = text_eq c.id id

-- `WHERE id = … AND used_at IS NULL AND expires_at > …`
pub is_open : Text → ℕ → Challenge → Bool
is_open id now c = has_id id c && not (is_some c.used_at) && ltb now c.expires_at

pub use_at : ℕ → Challenge → Challenge
use_at now c = record c { used_at = some now }

is_lower_hex : ℕ → Bool
is_lower_hex c = (leb b'0' c && leb c b'9') || (leb b'a' c && leb c b'f')

is_challenge_id : Text → Bool
unfolding is_lower_hex
is_challenge_id s = length s == 32 && all is_lower_hex s

-- `if (test) return …`
abbrev pub guard {ℓ} : {A : Type ℓ} → Bool → A → A → A
guard b early rest = if b then early else rest

module _ (p : Platform) (codec : SessionCodec) (server : Server) where
  fingerprint_address : Option Text → Option Text
  fingerprint_address none = none
  fingerprint_address (some a) = some (server.fingerprint (text "admin-address:" ++ p.lower a))

  pub record_event : Text → Outcome → LoginRequest → Option Text → AdminDb → AdminDb
  unfolding fingerprint_address
  record_event event_type outcome request address db = record db {
    events =
        db.events
        ++ (record {
          event_type = take 48 event_type;
          outcome = outcome;
          address_fingerprint = fingerprint_address address;
          client_fingerprint = admin_client_binding server.fingerprint request.headers;
        }
            ∷ []);
  }

  -- The checks of the body's fields.
  valid_login : Text → Text → Text → Text → Option Login
  unfolding is_challenge_id
  valid_login id address message signature =
      if is_challenge_id id
        && p.is_address address
        && leb (length message) 2_000
        && leb (length signature) 8_194
        && server.is_hex signature
      then some (record {
        challenge_id = id;
        address = address;
        message = message;
        signature = signature;
      })
      else none

  pub login_of : LoginBody → Option Login
  unfolding valid_login
  login_of body = elim body.challenge_id [
    | none ↦ none
    | some id ↦ elim body.address [
      | none ↦ none
      | some address ↦ elim body.message [
        | none ↦ none
        | some message ↦ elim body.signature [
          | none ↦ none
          | some signature ↦ valid_login id address message signature
        ]
      ]
    ]
  ]
