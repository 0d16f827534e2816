-- ===== src/Approval/Requests.antt =====
-- What loan requests and withdrawal requests share: their status, the decisions on them, the
-- officers' notices (internal/app/approvals.go). Requests of the two kinds have different
-- identifiers, and each kind keeps its own rows.
use kopdes.Base.{
  ◌≡◌, refl, Bool, true, false, not, ◌&&◌, if◌then◌else◌, Option, none, some, List, [], ◌∷◌, ◌++◌,
  map,
}
use kopdes.Base.Text.{Text, text_eq}
use kopdes.Approval.{Role, super_admin, Stage}

pub data RequestStatus : Type 0 where
  pending approved rejected cancelled : RequestStatus

-- A row of `withdrawal_request_approvals`, `loan_request_approvals` or of `super_admin_overrides`.
pub record Decision : Type 0 where
  pub request_id : Text
  pub stage : Option Stage
  pub officer_id : Text
  pub is_approval : Bool
  pub is_override : Bool

-- A notification event, for all its receivers.
pub data Notice : Type 0 where
  stage_ready : Stage → Notice
  outcome_approved outcome_rejected disbursement_ready approval_ready terms_changed
        created_by_admin :
      Notice

pub record NoticeRow : Type 0 where
  pub request_id : Text
  pub notice : Notice
  pub resolved : Bool

-- The officer or administrator that acts; `has_member` tells a login that belongs to a member.
pub record User : Type 0 where
  pub id : Text
  pub role : Role
  pub has_member : Bool

abbrev pub role_is_super_admin : Role → Bool
role_is_super_admin super_admin = true
role_is_super_admin _ = false

-- `isSuperAdmin`
abbrev pub is_super_admin : User → Bool
is_super_admin u = role_is_super_admin u.role && not u.has_member

abbrev pub is_pending : RequestStatus → Bool
is_pending pending = true
is_pending _ = false

pub is_pending→eq : (s : RequestStatus) → is_pending s ≡ true → s ≡ pending
is_pending→eq pending h = refl
is_pending→eq _ h = cc

abbrev pub is_approved : RequestStatus → Bool
is_approved approved = true
is_approved _ = false

abbrev pub is_some {ℓ} : {A : Type ℓ} → Option A → Bool
is_some none = false
is_some (some _) = true

-- `resolveRequestNotifications`
abbrev pub resolve : Text → List NoticeRow → List NoticeRow
resolve request_id =
    map (λ (n : NoticeRow).
      if text_eq n.request_id request_id then record n { resolved = true } else n)

abbrev pub notify : Text → Notice → List NoticeRow → List NoticeRow
notify request_id notice rows =
    rows ++ record { request_id = request_id; notice = notice; resolved = false } ∷ []
