-- ===== src/Authorization/Duties.antt =====
-- The separation of duties in internal/app/authorization.go.
use kopdes.Base.{arith, true, false, ◌||◌, ◌≡◌, refl, ◌⊎◌, inl, inr}
use kopdes.Approval.{Role, super_admin, admin, ketua_i, member, other_role}
use kopdes.Authorization.Permissions.{
  Permission, has, has_permission, permission_set, settings_manage, transactions_approve,
  journals_approve, coa_approve, requests_override, settings_manage, is_officer_role,
}

super_admin_set :
    (p : Permission) → has p (permission_set super_admin) ≡ has_permission super_admin p
unfolding permission_set
super_admin_set settings_manage = refl
super_admin_set _ = refl

-- The set handed to a page agrees with the test on every role and permission.
pub has-permission_set : (r : Role) (p : Permission) → has p (permission_set r) ≡ has_permission r p
unfolding permission_set
has-permission_set super_admin p = super_admin_set p
has-permission_set admin p = refl
has-permission_set _ p = refl

-- Who may approve, override and configure, and who may do nothing.
pub record IsSeparated (r : Role) : Type 0 where
  pub approves :
      ((has_permission r transactions_approve
          || has_permission r journals_approve
          || has_permission r coa_approve)
        ≡ false)
      ⊎ (r ≡ super_admin)
      ⊎ (r ≡ ketua_i)
  pub overrides : (has_permission r requests_override ≡ false) ⊎ (r ≡ super_admin)
  pub configures : (has_permission r settings_manage ≡ false) ⊎ (r ≡ admin)
  pub excluded :
      (is_officer_role r ≡ true)
      ⊎ (r ≡ super_admin)
      ⊎ ((p : Permission) → has_permission r p ≡ false)

outsider : (r : Role) → ((p : Permission) → has_permission r p ≡ false) → IsSeparated r
outsider r nothing = record {
  approves =
      inl (
        ground
          (nothing transactions_approve, nothing journals_approve, nothing coa_approve, arith));
  overrides = inl (nothing requests_override);
  configures = inl (nothing settings_manage);
  excluded = inr (inr nothing);
}

-- In every role the duties are separated: approvals of transactions, journals and accounts are
-- Ketua I's and the super admin's, overrides the super admin's, the settings the admin's, and a role
-- outside the officers and the super admin has no permission.
pub has_permission-IsSeparated : (r : Role) → IsSeparated r
unfolding has_permission is_officer_role
has_permission-IsSeparated super_admin = record {
  approves = inr (inl refl);
  overrides = inr refl;
  configures = inl refl;
  excluded = inr (inl refl);
}
has_permission-IsSeparated admin = record {
  approves = inl refl;
  overrides = inl refl;
  configures = inr refl;
  excluded = inl refl;
}
has_permission-IsSeparated ketua_i = record {
  approves = inr (inr refl);
  overrides = inl refl;
  configures = inl refl;
  excluded = inl refl;
}
has_permission-IsSeparated member = outsider member (λ p. refl)
has_permission-IsSeparated (other_role t) = outsider (other_role t) (λ p. refl)
has_permission-IsSeparated _ = record {
  approves = inl refl;
  overrides = inl refl;
  configures = inl refl;
  excluded = inl refl;
}
