-- ===== src/Admin/Sessions/Permissions/Authorized.antt =====
-- What a request shows that may act by a permission.
use xdcid.Common.{
  ℕ, ◌≡◌, refl, sym, ap, ◌∙◌, subst, inl, inr, true, none, some, Text, Option-cases, arith,
  Platform,
}
use xdcid.Admin.{Headers, admin_client_binding}
use xdcid.Admin.Sessions.{SessionPayload, SessionCodec, cookie_value, parse_admin_session}
use xdcid.Admin.Sessions.Signed.{IsSigned, parse-IsSigned}
use xdcid.Admin.Sessions.Permissions.{
  AdminPermission, AdminAuthorization, Sources, includes_permission, resolve_admin_authorization,
  with_authorization, require_authorized_admin_session, require_admin_permission,
}
use xdcid.Admin.Sessions.Permissions.Entitled.{entitles, resolve-entitles}

module _ (p : Platform) (codec : SessionCodec) (fingerprint : Text → Text) (cookie : Text) where
  with_authorization-some :
      (s : SessionPayload) (sources : Sources) (session : SessionPayload)
      (authorization : AdminAuthorization)
      → with_authorization p codec fingerprint cookie s sources ≡ some (session, authorization)
      → (s ≡ session) × (authorization ≡ resolve_admin_authorization p session.address sources)
  unfolding with_authorization
  with_authorization-some s sources session authorization e = ground (arith, e)

  parse-none :
      (client_binding : Text) (now : ℕ) → parse_admin_session p codec none client_binding now ≡ none
  unfolding parse_admin_session
  parse-none client_binding now = refl

  authorized-IsSigned :
      (headers : Headers) (now : ℕ) (sources : Sources) (session : SessionPayload)
      (authorization : AdminAuthorization)
      → require_authorized_admin_session p codec fingerprint cookie headers now sources
        ≡ some (session, authorization)
      → (token : Text) × (cookie_value headers.cookie cookie ≡ some token)
        × IsSigned p codec token (admin_client_binding fingerprint headers) now session
        × (authorization ≡ resolve_admin_authorization p session.address sources)
  unfolding require_authorized_admin_session
  authorized-IsSigned headers now sources session authorization e =
      elim (Option-cases (cookie_value headers.cookie cookie)) [
        | inl missing ↦
            absurd (
              ground (arith, missing, e, parse-none (admin_client_binding fingerprint headers) now))
        | inr (token, found) ↦
            elim (Option-cases (
              parse_admin_session p codec (some token) (admin_client_binding fingerprint headers)
                now)) [
                  | inl refused ↦ absurd (ground (arith, found, refused, e))
                  | inr (s, accepted) ↦
                      let held : with_authorization p codec fingerprint cookie s sources
                          ≡ some (session, authorization) =
                        ground (arith, found, accepted, e) in
                      let (same, resolved) =
                        with_authorization-some s sources session authorization held in
                      (
                        token,
                        found,
                        subst
                            (IsSigned p codec token (admin_client_binding fingerprint headers) now)
                            same
                            (parse-IsSigned p codec token (admin_client_binding fingerprint headers)
                              now s accepted),
                        resolved,
                      )
                ]
      ]

  -- A request that may act by a permission carries in its cookie a token that this server signed, for
  -- this client and a time that has not come; and the table gives the permission to the token's wallet.
  pub require-IsEntitled :
      (headers : Headers) (permission : AdminPermission) (now : ℕ) (sources : Sources)
      (session : SessionPayload) (authorization : AdminAuthorization)
      → require_admin_permission p codec fingerprint cookie headers permission now sources
        ≡ some (session, authorization)
      → (token : Text) × (cookie_value headers.cookie cookie ≡ some token)
        × IsSigned p codec token (admin_client_binding fingerprint headers) now session
        × (entitles p permission (p.get_address session.address) sources ≡ true)
  unfolding require_admin_permission
  require-IsEntitled headers permission now sources session authorization e =
      elim (Option-cases
        (require_authorized_admin_session p codec fingerprint cookie headers now sources)) [
          | inl refused ↦ absurd (ground (arith, refused, e))
          | inr ((s, a), found) ↦
              let (token, carried, signed, resolved) =
                authorized-IsSigned headers now sources s a found in
              let same : s ≡ session = ground (arith, found, e) in
              let included : includes_permission permission a.permissions ≡ true =
                ground (arith, found, e) in
              (
                token,
                carried,
                subst (IsSigned p codec token (admin_client_binding fingerprint headers) now) same
                    signed,
                subst (λ x. entitles p permission (p.get_address x.address) sources ≡ true) same
                    (sym (resolve-entitles p permission s.address sources)
                      ∙ ap (λ x. includes_permission permission x.permissions) (sym resolved)
                      ∙ included),
              )
        ]
