-- ===== src/Groups/Schema.antt =====
-- The tables of `prisma/schema.prisma` that the project-group handlers read and write. Identifiers
-- are numbers, and a date is its number of milliseconds. `name`, `objectives` and `technologies` of
-- a group, and the names and avatar of a user, are only copied into answers and are left out.
use academia_backend_api.Base.{ℕ, String, Bool, true, false, Option, List}
use academia_backend_api.Accounts.{User}

pub data GroupLeaderRequestStatus : Type 0 where
  pending approved rejected : GroupLeaderRequestStatus

pub data GroupStatus : Type 0 where
  draft submitted approved rejected : GroupStatus

pub data InvitationStatus : Type 0 where
  pending accepted rejected expired revoked : InvitationStatus

pub data JoinRequestStatus : Type 0 where
  pending approved rejected revoked cancelled : JoinRequestStatus

pub record GroupLeaderRequest : Type 0 where
  pub id : ℕ
  pub tenant_id : ℕ
  pub department_id : ℕ
  pub student_user_id : ℕ
  pub message : Option String
  pub status : GroupLeaderRequestStatus
  pub reviewed_by_user_id : Option ℕ
  pub reviewed_at : Option ℕ
  pub rejection_reason : Option String

pub record SizeSetting : Type 0 where
  pub department_id : ℕ
  pub min_group_size : ℕ
  pub max_group_size : ℕ

pub record ProjectGroup : Type 0 where
  pub id : ℕ
  pub tenant_id : ℕ
  pub department_id : ℕ
  pub leader_user_id : ℕ
  pub status : GroupStatus
  pub submitted_at : Option ℕ
  pub reviewed_by_user_id : Option ℕ
  pub reviewed_at : Option ℕ
  pub rejection_reason : Option String

pub record GroupMember : Type 0 where
  pub project_group_id : ℕ
  pub user_id : ℕ

pub record GroupInvitation : Type 0 where
  pub id : ℕ
  pub tenant_id : ℕ
  pub department_id : ℕ
  pub project_group_id : ℕ
  pub leader_user_id : ℕ
  pub invited_user_id : ℕ
  pub invited_email : String
  pub token : String
  pub status : InvitationStatus
  pub expires_at : ℕ
  pub decided_at : Option ℕ

pub record JoinRequest : Type 0 where
  pub id : ℕ
  pub tenant_id : ℕ
  pub department_id : ℕ
  pub project_group_id : ℕ
  pub leader_user_id : ℕ
  pub requested_by_user_id : ℕ
  pub message : Option String
  pub status : JoinRequestStatus
  pub decided_at : Option ℕ
  pub decided_by_user_id : Option ℕ
  pub rejection_reason : Option String

pub record Db : Type 0 where
  pub users : List User
  pub leader_requests : List GroupLeaderRequest
  pub size_settings : List SizeSetting
  pub groups : List ProjectGroup
  pub members : List GroupMember
  pub invitations : List GroupInvitation
  pub join_requests : List JoinRequest

abbrev pub is_draft : GroupStatus → Bool
is_draft draft = true
is_draft _ = false

abbrev pub is_submitted : GroupStatus → Bool
is_submitted submitted = true
is_submitted _ = false

abbrev pub is_rejected : GroupStatus → Bool
is_rejected rejected = true
is_rejected _ = false

abbrev pub invitation_pending : InvitationStatus → Bool
invitation_pending pending = true
invitation_pending _ = false

abbrev pub request_pending : JoinRequestStatus → Bool
request_pending pending = true
request_pending _ = false

abbrev pub leader_pending : GroupLeaderRequestStatus → Bool
leader_pending pending = true
leader_pending _ = false

abbrev pub leader_approved : GroupLeaderRequestStatus → Bool
leader_approved approved = true
leader_approved _ = false

-- `status.toLowerCase()`
abbrev pub group_status_text : GroupStatus → String
group_status_text draft = "draft"
group_status_text submitted = "submitted"
group_status_text approved = "approved"
group_status_text rejected = "rejected"

abbrev pub invitation_status_text : InvitationStatus → String
invitation_status_text pending = "pending"
invitation_status_text accepted = "accepted"
invitation_status_text rejected = "rejected"
invitation_status_text expired = "expired"
invitation_status_text revoked = "revoked"

abbrev pub request_status_text : JoinRequestStatus → String
request_status_text pending = "pending"
request_status_text approved = "approved"
request_status_text rejected = "rejected"
request_status_text revoked = "revoked"
request_status_text cancelled = "cancelled"
