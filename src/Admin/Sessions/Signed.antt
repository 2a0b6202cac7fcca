-- ===== src/Admin/Sessions/Signed.antt =====
-- Which tokens are accepted, and who may act by them.
pub mod Roundtrip
use xdcid.Common.{
  ℕ, ◌+◌, ◌*◌, ◌/◌, ◌≡◌, ◌≤◌, refl, sym, ap, ◌∙◌, subst, inl, inr, Bool, true, false, ◌&&◌, ◌||◌,
  not, Option, none, some, List, [], ◌∷◌, ◌++◌, length, Text, text, text_eq, text_eq_sound,
  text_eq_self, split, split-append, Lacks, Number, int, is_safe_integer, max_safe_integer, ltb,
  leb, ◌==◌, if◌then◌else◌, Bool-cases, Option-cases, arith, Platform,
}
use xdcid.Admin.{Headers, admin_client_binding}
use xdcid.Admin.Sessions.{
  SessionPayload, SessionCodec, is_empty, has_extra, cookie_value, session_payload,
  create_admin_session, is_current, accept_payload, parse_parts, parse_admin_session, expires_after,
  is_two,
}

module _ (p : Platform) (codec : SessionCodec) where
  -- A token that this server signed, of a payload that the client may use now.
  pub IsSigned : Text → Text → ℕ → SessionPayload → Type 0
  IsSigned token client_binding now session =
      (segment : Text) × (rest : List Text) × (payload : SessionPayload) × (split b'.' token
        ≡ segment ∷ codec.sign segment ∷ rest)
      × (codec.parse (codec.decode segment) ≡ some payload)
      × (is_current p codec payload client_binding now ≡ true)
      × (session ≡ (record payload { address = p.get_address payload.address }))

  accept-current :
      (o : Option SessionPayload) (client_binding : Text) (now : ℕ) (session : SessionPayload)
      → accept_payload p codec o client_binding now ≡ some session
      → (payload : SessionPayload) × (o ≡ some payload)
        × (is_current p codec payload client_binding now ≡ true)
        × (session ≡ (record payload { address = p.get_address payload.address }))
  unfolding accept_payload
  accept-current none client_binding now session e = absurd (cc e)
  accept-current (some payload) client_binding now session e =
      elim (Bool-cases (is_current p codec payload client_binding now)) [
        | inl fine ↦ (payload, refl, fine, ground (arith, fine, e))
        | inr bad ↦ absurd (ground (arith, bad, e))
      ]

  parts-IsSigned :
      (token client_binding : Text) (now : ℕ) (session : SessionPayload) (parts : List Text)
      → split b'.' token ≡ parts
      → parse_parts p codec parts client_binding now ≡ some session
      → IsSigned token client_binding now session
  unfolding parse_parts IsSigned
  parts-IsSigned token client_binding now session [] s e = absurd (cc e)
  parts-IsSigned token client_binding now session (x ∷ []) s e = absurd (cc e)
  parts-IsSigned token client_binding now session (segment ∷ signature ∷ rest) s e =
      elim (Bool-cases (text_eq (codec.sign segment) signature)) [
        | inl signed ↦
            let same = text_eq_sound (codec.sign segment) signature signed in
            let (payload, parsed, current, result) =
              accept-current (codec.parse (codec.decode segment)) client_binding now session
                (ground (arith, signed, e)) in
            (
              segment,
              rest,
              payload,
              s ∙ ap (λ x. segment ∷ x ∷ rest) (sym same),
              parsed,
              current,
              result,
            )
        | inr forged ↦ absurd (ground (arith, forged, e))
      ]

  pub parse-IsSigned :
      (token client_binding : Text) (now : ℕ) (session : SessionPayload)
      → parse_admin_session p codec (some token) client_binding now ≡ some session
      → IsSigned token client_binding now session
  unfolding parse_admin_session
  parse-IsSigned token client_binding now session e =
      parts-IsSigned token client_binding now session (split b'.' token) refl (ground (arith, e))
