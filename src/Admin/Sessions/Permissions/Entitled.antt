-- ===== src/Admin/Sessions/Permissions/Entitled.antt =====
-- Which roles give which permissions.
use xdcid.Common.{◌≡◌, Bool, ◌||◌, [], Text, arith, Platform}
use xdcid.Admin.Sessions.Permissions.{
  AdminPermission, platform_manage, archive_manage, revenue_view, discount_issue,
  archive_administrator, treasury, discount_signer, includes_permission, add_owner, add_role,
  add_permission, same_permission, Sources, is_owner, is_archive_administrator, is_treasury,
  is_signer, resolve_admin_authorization,
}

-- The permissions of an owner, an archive administrator, a treasury and a discount signer.
pub table : AdminPermission → Bool → Bool → Bool → Bool → Bool
table platform_manage owner archive holds_treasury signer = owner
table archive_manage owner archive holds_treasury signer = owner || archive
table revenue_view owner archive holds_treasury signer = owner || holds_treasury
table discount_issue owner archive holds_treasury signer = signer

granted :
    (permission : AdminPermission) (owner archive holds_treasury signer : Bool)
    → includes_permission permission
        (add_role signer discount_signer discount_issue (
          add_role holds_treasury treasury revenue_view (
            add_role archive archive_administrator archive_manage
              (add_owner owner (record { roles = []; permissions = [] }))))).permissions
      ≡ table permission owner archive holds_treasury signer
unfolding add_role add_owner add_permission same_permission table
granted platform_manage a b c d = ground arith
granted archive_manage a b c d = ground arith
granted revenue_view a b c d = ground arith
granted discount_issue a b c d = ground arith

module _ (p : Platform) where
  -- Who has which permission.
  pub entitles : AdminPermission → Text → Sources → Bool
  entitles permission wallet sources =
      table permission (is_owner p sources.owners wallet)
        (is_archive_administrator p sources.archive_wallet wallet) (is_treasury p sources wallet)
        (is_signer p sources.authorization_signer wallet)

  -- A wallet has exactly the permissions that the table gives its roles: an owner all but discounts,
  -- the archive administrator the archive, a treasury the revenue, and the signer the discounts.
  pub resolve-entitles :
      (permission : AdminPermission) (address : Text) (sources : Sources)
      → includes_permission permission (resolve_admin_authorization p address sources).permissions
        ≡ entitles permission (p.get_address address) sources
  unfolding resolve_admin_authorization entitles
  resolve-entitles permission address sources =
      granted permission (is_owner p sources.owners (p.get_address address))
        (is_archive_administrator p sources.archive_wallet (p.get_address address))
        (is_treasury p sources (p.get_address address))
        (is_signer p sources.authorization_signer (p.get_address address))
