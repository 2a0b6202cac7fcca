-- ===== src/Admin/Sessions/Signed/Roundtrip.antt =====
-- A session that was created is accepted until it ends.
use xdcid.Common.{
  ℕ, ◌+◌, ◌/◌, ◌≡◌, ◌≤◌, refl, ap, ◌∙◌, Bool, true, false, ◌&&◌, none, some, [], ◌∷◌, ◌++◌, length,
  Text, text_eq, text_eq_self, split-append, Lacks, max_safe_integer, ltb, leb, if◌then◌else◌,
  arith, Platform,
}
use xdcid.Admin.Sessions.{
  SessionPayload, SessionCodec, is_empty, has_extra, session_payload, create_admin_session,
  is_current, accept_payload, parse_parts, parse_admin_session, expires_after, is_two,
}

drop_true : (a b : Bool) → (true && a && true && true && b && true) ≡ (a && b)
drop_true a b = ground arith

module _ (p : Platform) (codec : SessionCodec) where
  parts-accepted :
      (segment : Text) (payload : SessionPayload) (client_binding : Text) (now : ℕ)
      → Lacks b'.' segment
      → Lacks b'.' (codec.sign segment)
      → is_empty segment ≡ false
      → is_empty (codec.sign segment) ≡ false
      → codec.parse (codec.decode segment) ≡ some payload
      → parse_admin_session p codec (some (segment ++ b'.' ∷ codec.sign segment)) client_binding now
        ≡ accept_payload p codec (some payload) client_binding now
  unfolding parse_admin_session parse_parts has_extra
  parts-accepted [] payload client_binding now dots signed_dots filled signed parsed =
      absurd (cc filled)
  parts-accepted (c ∷ s) payload client_binding now dots signed_dots filled signed parsed =
      rw
        (
          split-append b'.' (c ∷ s) (codec.sign (c ∷ s)) dots signed_dots,
          signed,
          text_eq_self (codec.sign (c ∷ s)),
          parsed,
        )
        refl

  current_payload :
      (address client_binding other_binding session_id : Text) (now later : ℕ)
      → p.is_address (p.get_address address) ≡ true
      → p.get_address (p.get_address address) ≡ p.get_address address
      → length session_id ≡ 32
      → now / 1_000 + 900 ≤ max_safe_integer
      → let payload = session_payload p codec address client_binding session_id now in
        accept_payload p codec (some payload) other_binding later ≡ (
          if text_eq client_binding other_binding && ltb (later / 1_000) (now / 1_000 + 900)
          then some payload
          else none)
  unfolding accept_payload is_current session_payload is_two expires_after
  current_payload address client_binding other_binding session_id now later valid same long safe =
      let begun : leb (now / 1_000) max_safe_integer ≡ true = ground arith in
      let ends : leb (now / 1_000 + 900) max_safe_integer ≡ true = ground arith in
      rw (valid, same, long, begun, ends)
        (ap
          (λ b.
            if b
            then some (session_payload p codec address client_binding session_id now)
            else none)
          (drop_true (text_eq client_binding other_binding)
            (ltb (later / 1_000) (now / 1_000 + 900))))

  -- A token that was created for a client is accepted from that client, and from no other, until
  -- fifteen minutes after its creation, and gives back the payload that was signed. This needs a
  -- session id of 32 code units, an address in checksum form, texts without dots that decode and
  -- parse to what was encoded, and a time that numbers can express.
  pub parse-create :
      (address client_binding other_binding session_id : Text) (now later : ℕ)
      → let payload = session_payload p codec address client_binding session_id now in
        let segment = codec.encode (codec.stringify payload) in
        p.is_address payload.address ≡ true
        → p.get_address payload.address ≡ payload.address
        → codec.parse (codec.decode segment) ≡ some payload
        → Lacks b'.' segment
        → Lacks b'.' (codec.sign segment)
        → is_empty segment ≡ false
        → is_empty (codec.sign segment) ≡ false
        → length session_id ≡ 32
        → now / 1_000 + 900 ≤ max_safe_integer
        → parse_admin_session p codec
            (some (create_admin_session p codec address client_binding session_id now))
            other_binding
            later
          ≡ (if text_eq client_binding other_binding && ltb (later / 1_000) (now / 1_000 + 900)
              then some payload
              else none)
  unfolding parse_admin_session create_admin_session session_payload
  parse-create address client_binding other_binding session_id now later valid same parsed dots
        signed_dots filled signed long safe =
      let payload = session_payload p codec address client_binding session_id now in
      let segment = codec.encode (codec.stringify payload) in
      parts-accepted segment payload other_binding later dots signed_dots filled signed parsed
      ∙ current_payload address client_binding other_binding session_id now later valid same long
          safe
