-- ===== src/Admin/Sessions/Permissions.antt =====
-- The permissions of a wallet (frontend/lib/adminAuth.ts, frontend/lib/treasuryAuthorization.ts), and the
-- table that they follow.
pub mod Entitled
pub mod Authorized
use xdcid.Common.{
  ℕ, ◌≡◌, refl, Bool, true, false, ◌&&◌, ◌||◌, not, Option, none, some, List, [], ◌∷◌, ◌++◌, any,
  arith, Text, text_eq, if◌then◌else◌, Platform,
}
use xdcid.Admin.{Headers, admin_client_binding}
use xdcid.Admin.Sessions.{SessionPayload, SessionCodec, cookie_value, parse_admin_session}

pub data AdminPermission : Type 0 where
  platform_manage archive_manage revenue_view discount_issue : AdminPermission

pub data AdminRole : Type 0 where
  platform_owner archive_administrator treasury discount_signer : AdminRole

pub record AdminAuthorization : Type 0 where
  pub roles : List AdminRole
  pub permissions : List AdminPermission

-- What is read from the chain and the database; `none` outside for a read that fails, and inside for
-- what is not set.
pub record Sources : Type 0 where
  pub owners : Option (List Text)
  pub archive_wallet : Option (Option Text)
  pub registration_treasury : Option (Option Text)
  pub archive_treasury : Option Text
  pub authorization_signer : Option Text

pub same_permission : AdminPermission → AdminPermission → Bool
same_permission platform_manage platform_manage = true
same_permission archive_manage archive_manage = true
same_permission revenue_view revenue_view = true
same_permission discount_issue discount_issue = true
same_permission _ _ = false

abbrev pub includes_permission : AdminPermission → List AdminPermission → Bool
includes_permission x xs = any (same_permission x) xs

abbrev pub includes_text : Text → List Text → Bool
includes_text x xs = any (text_eq x) xs

-- `add` of a Set.
add_permission : AdminPermission → List AdminPermission → List AdminPermission
unfolding same_permission
add_permission x xs = if includes_permission x xs then xs else xs ++ (x ∷ [])

add_text : Text → List Text → List Text
add_text x xs = if includes_text x xs then xs else xs ++ (x ∷ [])

-- Each role's block of the code, which runs when the test holds.
add_owner : Bool → AdminAuthorization → AdminAuthorization
unfolding add_permission
add_owner false a = a
add_owner true a = record {
  roles = a.roles ++ (platform_owner ∷ []);
  permissions =
      add_permission revenue_view
        (add_permission archive_manage (add_permission platform_manage a.permissions));
}

add_role : Bool → AdminRole → AdminPermission → AdminAuthorization → AdminAuthorization
unfolding add_permission
add_role false role permission a = a
add_role true role permission a = record {
  roles = a.roles ++ (role ∷ []);
  permissions = add_permission permission a.permissions;
}

module _ (p : Platform) where
  -- `candidate && isAddress(candidate)`, then added by its checksum form.
  add_treasury : Option Text → List Text → List Text
  unfolding add_text
  add_treasury none treasuries = treasuries
  add_treasury (some candidate) treasuries =
      if p.is_address candidate then add_text (p.get_address candidate) treasuries else treasuries

  unfoldable pub authorized_treasury_addresses : Option Text → Option Text → List Text
  unfolding add_treasury
  authorized_treasury_addresses archive_treasury registration_treasury =
      add_treasury registration_treasury (add_treasury archive_treasury [])

  settled_treasury : Option (Option Text) → Option Text
  settled_treasury none = none
  settled_treasury (some found) = found

  is_owner : Option (List Text) → Text → Bool
  is_owner none wallet = false
  is_owner (some owners) wallet = includes_text wallet owners

  -- `isArchiveAccessAdministratorWallet`
  is_archive_administrator : Option (Option Text) → Text → Bool
  is_archive_administrator (some (some administrator)) wallet =
      p.is_address wallet
      && p.is_address administrator
      && text_eq (p.get_address wallet) (p.get_address administrator)
  is_archive_administrator _ wallet = false

  is_signer : Option Text → Text → Bool
  is_signer none wallet = false
  is_signer (some signer) wallet = text_eq signer wallet

  is_treasury : Sources → Text → Bool
  unfolding settled_treasury
  is_treasury sources wallet = includes_text wallet (
      authorized_treasury_addresses sources.archive_treasury
        (settled_treasury sources.registration_treasury))

  unfoldable pub resolve_admin_authorization : Text → Sources → AdminAuthorization
  unfolding is_owner is_archive_administrator is_treasury is_signer add_owner add_role
  resolve_admin_authorization address sources =
      let normalized = p.get_address address in
      add_role (is_signer sources.authorization_signer normalized) discount_signer discount_issue (
        add_role (is_treasury sources normalized) treasury revenue_view (
          add_role (is_archive_administrator sources.archive_wallet normalized)
            archive_administrator archive_manage
            (add_owner (is_owner sources.owners normalized)
              (record { roles = []; permissions = [] }))))

module _ (p : Platform) (codec : SessionCodec) (fingerprint : Text → Text) (cookie : Text) where
  with_authorization : SessionPayload → Sources → Option (SessionPayload × AdminAuthorization)
  with_authorization session sources =
      let authorization = resolve_admin_authorization p session.address sources in
      elim authorization.permissions [ [] ↦ none | x ∷ xs ↦ some (session, authorization) ]

  unfoldable pub require_authorized_admin_session :
      Headers → ℕ → Sources → Option (SessionPayload × AdminAuthorization)
  unfolding with_authorization
  require_authorized_admin_session headers now sources =
      elim (parse_admin_session p codec (cookie_value headers.cookie cookie)
        (admin_client_binding fingerprint headers) now) [
          | none ↦ none
          | some session ↦ with_authorization session sources
        ]

  unfoldable pub require_admin_permission :
      Headers → AdminPermission → ℕ → Sources → Option (SessionPayload × AdminAuthorization)
  require_admin_permission headers permission now sources =
      elim (require_authorized_admin_session headers now sources) [
        | none ↦ none
        | some session ↦
            if includes_permission permission session.1.permissions then some session else none
      ]

  pub require_admin_session : Headers → ℕ → Sources → Option (SessionPayload × AdminAuthorization)
  require_admin_session headers now sources =
      require_admin_permission headers platform_manage now sources
