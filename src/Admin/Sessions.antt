-- ===== src/Admin/Sessions.antt =====
-- frontend/lib/adminAuth.ts: an administrator's session token, the cookie that carries it, and the
-- permissions that a wallet has at the time of a request. Times of a session are seconds.
pub mod Signed
pub mod Permissions
use xdcid.Common.{
  ℕ, ◌+◌, ◌*◌, ◌/◌, Bool, true, false, ◌&&◌, ◌||◌, not, Option, none, some, List, [], ◌∷◌, ◌++◌,
  length, any, Text, text, text_eq, trim, split, Number, int, value, is_safe_integer, ltb, leb,
  ◌==◌, if◌then◌else◌, Platform,
}
use xdcid.Admin.{Headers, admin_client_binding}

pub record SessionPayload : Type 0 where
  pub v : Number
  pub address : Text
  pub client_binding : Text
  pub issued_at : Number
  pub expires_at : Number
  pub session_id : Text

-- base64url of UTF-8 and back, JSON of a payload and back (`none` for a text that does not parse, or a
-- value with a field of another type), and the keyed hash of a text.
pub record SessionCodec : Type 0 where
  pub encode : Text → Text
  pub decode : Text → Text
  pub stringify : SessionPayload → Text
  pub parse : Text → Option SessionPayload
  pub sign : Text → Text

abbrev pub admin_session_ttl_seconds : ℕ
admin_session_ttl_seconds = 15 * 60

abbrev pub is_empty : Text → Bool
is_empty [] = true
is_empty (c ∷ s) = false

-- Whether a third part of the token is there and not empty.
has_extra : List Text → Bool
has_extra [] = false
has_extra (extra ∷ rest) = not (is_empty extra)

join_eq : List Text → Text
join_eq [] = []
join_eq (part ∷ []) = part
join_eq (part ∷ rest) = let joined = join_eq rest in part ++ text "=" ++ joined

-- `const [key, ...rest] = part.trim().split("=")`, for a part of the given key.
part_value : Text → List Text → Option Text
unfolding join_eq
part_value name [] = none
part_value name (key ∷ rest) = if text_eq key name then some (join_eq rest) else none

first_value : Text → List Text → Option Text
unfolding part_value
first_value name [] = none
first_value name (part ∷ parts) =
    let rest = first_value name parts in
    elim (part_value name (split b'=' (trim part))) [ some v ↦ some v | none ↦ rest ]

unfoldable pub cookie_value : Option Text → Text → Option Text
unfolding first_value
cookie_value none name = first_value name (split b';' [])
cookie_value (some cookies) name = first_value name (split b';' cookies)

-- `payload.v === 2`
is_two : Number → Bool
is_two (int n) = n == 2
is_two _ = false

-- A number of seconds that lies after another.
pub expires_after : Number → ℕ → Bool
expires_after (int n) seconds = ltb seconds n
expires_after _ seconds = false

module _ (p : Platform) (codec : SessionCodec) where
  -- The token of a session that begins at a time in milliseconds.
  unfoldable pub session_payload : Text → Text → Text → ℕ → SessionPayload
  session_payload address client_binding session_id now = record {
    v = int 2;
    address = p.get_address address;
    client_binding = client_binding;
    issued_at = int (now / 1_000);
    expires_at = int (now / 1_000 + admin_session_ttl_seconds);
    session_id = session_id;
  }

  pub create_admin_session : Text → Text → Text → ℕ → Text
  unfolding session_payload
  create_admin_session address client_binding session_id now =
      let segment =
        codec.encode (codec.stringify (session_payload address client_binding session_id now)) in
      segment ++ b'.' ∷ codec.sign segment

  -- Whether a payload may be used by a client at a time in milliseconds.
  pub is_current : SessionPayload → Text → ℕ → Bool
  unfolding is_two expires_after
  is_current payload client_binding now =
      is_two payload.v
      && p.is_address payload.address
      && text_eq payload.client_binding client_binding
      && is_safe_integer payload.issued_at
      && is_safe_integer payload.expires_at
      && expires_after payload.expires_at (now / 1_000)
      && (length payload.session_id == 32)

  accept_payload : Option SessionPayload → Text → ℕ → Option SessionPayload
  unfolding is_current
  accept_payload none client_binding now = none
  accept_payload (some payload) client_binding now =
      if is_current payload client_binding now
      then some (record payload { address = p.get_address payload.address })
      else none

  -- Of the parts of a token between its dots.
  parse_parts : List Text → Text → ℕ → Option SessionPayload
  unfolding accept_payload has_extra
  parse_parts (segment ∷ signature ∷ rest) client_binding now =
      if is_empty segment
        || is_empty signature
        || has_extra rest
        || not (text_eq (codec.sign segment) signature)
      then none
      else accept_payload (codec.parse (codec.decode segment)) client_binding now
  parse_parts _ client_binding now = none

  unfoldable pub parse_admin_session : Option Text → Text → ℕ → Option SessionPayload
  unfolding parse_parts
  parse_admin_session none client_binding now = none
  parse_admin_session (some token) client_binding now =
      if is_empty token then none else parse_parts (split b'.' token) client_binding now
