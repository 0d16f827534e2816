-- ===== src/Authorization/Permissions.antt =====
-- The permissions and which role holds which (internal/app/authorization.go).
use kopdes.Base.{
  ℕ, Bool, true, false, not, ◌||◌, ◌==◌, if◌then◌else◌, Option, none, some, List, [], ◌∷◌, ◌++◌,
  keep,
}
use kopdes.Approval.{Role, super_admin, admin, manager, bendahara, ketua_i, ketua_ii, ketua_utama}

-- The texts of the constants, with the dot as `_`.
pub data Permission : Type 0 where
  dashboard_view reports_view members_view members_manage : Permission
  member_accounts_manage savings_view savings_record requests_view : Permission
  requests_manage requests_create_on_behalf withdrawal_requests_manage requests_decide : Permission
  requests_override loans_view loans_manage loan_reports_generate : Permission
  repayments_view repayments_record transactions_view transactions_record : Permission
  transactions_approve journals_view journals_manage journals_approve : Permission
  transaction_source_edit transaction_categories_manage coa_view coa_manage : Permission
  coa_accounts_manage coa_approve accounting_mappings_manage accounting_coa_override : Permission
  officers_manage tagihan_view tagihan_manage settings_manage : Permission
  notifications_view : Permission

-- The position of a constant in the source, by which permissions are compared.
abbrev pub index : Permission → ℕ
index dashboard_view = 0
index reports_view = 1
index members_view = 2
index members_manage = 3
index member_accounts_manage = 4
index savings_view = 5
index savings_record = 6
index requests_view = 7
index requests_manage = 8
index requests_create_on_behalf = 9
index withdrawal_requests_manage = 10
index requests_decide = 11
index requests_override = 12
index loans_view = 13
index loans_manage = 14
index loan_reports_generate = 15
index repayments_view = 16
index repayments_record = 17
index transactions_view = 18
index transactions_record = 19
index transactions_approve = 20
index journals_view = 21
index journals_manage = 22
index journals_approve = 23
index transaction_source_edit = 24
index transaction_categories_manage = 25
index coa_view = 26
index coa_manage = 27
index coa_accounts_manage = 28
index coa_approve = 29
index accounting_mappings_manage = 30
index accounting_coa_override = 31
index officers_manage = 32
index tagihan_view = 33
index tagihan_manage = 34
index settings_manage = 35
index notifications_view = 36

abbrev pub same : Permission → Permission → Bool
same p q = index p == index q

abbrev pub has : Permission → List Permission → Bool
has p [] = false
has p (q ∷ rest) = same p q || has p rest

-- `officerOversightPermissions`
abbrev pub officer_oversight_permissions : List Permission
officer_oversight_permissions =
    dashboard_view ∷ reports_view ∷ members_view ∷ savings_view ∷ tagihan_view ∷ requests_view
    ∷ requests_decide ∷ loans_view ∷ repayments_view ∷ transactions_view ∷ journals_view ∷ coa_view
    ∷ notifications_view ∷ []

abbrev pub admin_permissions : List Permission
admin_permissions =
    dashboard_view ∷ reports_view ∷ members_view ∷ members_manage ∷ member_accounts_manage
    ∷ savings_view ∷ savings_record ∷ requests_view ∷ requests_manage ∷ withdrawal_requests_manage
    ∷ requests_decide ∷ requests_create_on_behalf ∷ loans_view ∷ loans_manage
    ∷ loan_reports_generate ∷ repayments_view ∷ repayments_record ∷ officers_manage
    ∷ transactions_view ∷ accounting_mappings_manage ∷ accounting_coa_override ∷ tagihan_view
    ∷ tagihan_manage ∷ settings_manage ∷ notifications_view ∷ []

abbrev pub manager_permissions : List Permission
manager_permissions =
    dashboard_view ∷ reports_view ∷ members_view ∷ members_manage ∷ savings_view ∷ savings_record
    ∷ requests_view ∷ requests_manage ∷ withdrawal_requests_manage ∷ requests_decide ∷ loans_view
    ∷ loans_manage ∷ loan_reports_generate ∷ repayments_view ∷ repayments_record
    ∷ notifications_view ∷ transactions_view ∷ transactions_record ∷ journals_view ∷ coa_view
    ∷ tagihan_view ∷ tagihan_manage ∷ accounting_coa_override ∷ transaction_categories_manage ∷ []

abbrev pub bendahara_permissions : List Permission
bendahara_permissions =
    savings_view ∷ savings_record ∷ requests_view ∷ withdrawal_requests_manage ∷ loans_view
    ∷ loans_manage ∷ loan_reports_generate ∷ repayments_view ∷ repayments_record ∷ transactions_view
    ∷ transactions_record ∷ transaction_source_edit ∷ journals_view ∷ journals_manage ∷ coa_view
    ∷ coa_manage ∷ []

abbrev pub ketua_i_permissions : List Permission
ketua_i_permissions =
    officer_oversight_permissions
    ++ (transactions_record ∷ transactions_approve ∷ journals_manage ∷ journals_approve ∷ coa_manage
        ∷ coa_accounts_manage ∷ coa_approve ∷ [])

abbrev pub ketua_utama_permissions : List Permission
ketua_utama_permissions =
    officer_oversight_permissions ++ (member_accounts_manage ∷ officers_manage ∷ [])

-- `officerPermissions`, by role; a role that the map lacks has none.
unfoldable pub officer_permissions : Role → Option (List Permission)
officer_permissions admin = some admin_permissions
officer_permissions manager = some manager_permissions
officer_permissions bendahara = some bendahara_permissions
officer_permissions ketua_i = some ketua_i_permissions
officer_permissions ketua_ii = some officer_oversight_permissions
officer_permissions ketua_utama = some ketua_utama_permissions
officer_permissions _ = none

-- `allPermissions`
abbrev pub all_permissions : List Permission
all_permissions =
    dashboard_view ∷ reports_view ∷ members_view ∷ members_manage ∷ member_accounts_manage
    ∷ savings_view ∷ savings_record ∷ requests_view ∷ requests_manage ∷ requests_create_on_behalf
    ∷ withdrawal_requests_manage ∷ requests_decide ∷ requests_override ∷ loans_view ∷ loans_manage
    ∷ loan_reports_generate ∷ repayments_view ∷ repayments_record ∷ transactions_view
    ∷ transactions_record ∷ transactions_approve ∷ journals_view ∷ journals_manage
    ∷ journals_approve ∷ transaction_source_edit ∷ transaction_categories_manage ∷ coa_view
    ∷ coa_manage ∷ coa_accounts_manage ∷ coa_approve ∷ accounting_mappings_manage
    ∷ accounting_coa_override ∷ officers_manage ∷ tagihan_view ∷ tagihan_manage ∷ settings_manage
    ∷ notifications_view ∷ []

abbrev pub listed : Option (List Permission) → List Permission
listed none = []
listed (some ps) = ps

-- `isOfficerRole`
unfoldable pub is_officer_role : Role → Bool
unfolding officer_permissions
is_officer_role r = elim (officer_permissions r) [ none ↦ false | some _ ↦ true ]

-- `hasPermission`
unfoldable pub has_permission : Role → Permission → Bool
unfolding officer_permissions
has_permission super_admin p = not (same p settings_manage)
has_permission r p = has p (listed (officer_permissions r))

-- `permissionSet`
unfoldable pub permission_set : Role → List Permission
unfolding has_permission officer_permissions
permission_set super_admin = keep (has_permission super_admin) all_permissions
permission_set r = listed (officer_permissions r)

-- How `requirePermission` answers an authenticated user.
pub data Access : Type 0 where
  password_change_required forbidden granted : Access

unfoldable pub require_permission : Bool → Role → Permission → Access
require_permission must_change_password role permission =
    if must_change_password
    then password_change_required
    else (if has_permission role permission then granted else forbidden)
