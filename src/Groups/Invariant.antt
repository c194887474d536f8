-- ===== src/Groups/Invariant.antt =====
-- What holds of the project-group tables between two requests.
pub mod Rows
pub mod Tables
pub mod Members
pub mod Joins
pub mod Offers
pub mod Reviews
pub mod Reachable
use academia_backend_api.Base.{
  ℕ, ◌+◌, ◌≤◌, ◌<◌, ◌&&◌, Bool, true, false, Option, none, some, List, ◌≡◌, find, count, exists,
  All,
}
use academia_backend_api.Groups.Schema.{
  Db, ProjectGroup, GroupStatus, GroupMember, GroupInvitation, InvitationStatus, JoinRequest,
  JoinRequestStatus, SizeSetting, is_draft, request_pending,
}
use academia_backend_api.Groups.Queries.{
  department_min_group_size, department_max_group_size, has_id, led_by, is_user, is_in_group,
  is_request, is_invitation,
}
use academia_backend_api.Groups.JoinRequests.{is_approved}
use academia_backend_api.Groups.Invitations.{is_accepted}

-- A group whose size has been checked and cannot change any more.
abbrev pub is_settled : GroupStatus → Bool
is_settled GroupStatus.submitted = true
is_settled GroupStatus.approved = true
is_settled _ = false

-- The leader is counted with the members.
abbrev pub size_of : List GroupMember → ProjectGroup → ℕ
size_of members g = 1 + count (is_in_group g.id) members

abbrev pub SizeOk : List SizeSetting → List GroupMember → ProjectGroup → Type 0
SizeOk settings members g =
    (1 < size_of members g → size_of members g ≤ department_max_group_size settings g.department_id)
    × (is_settled g.status ≡ true
        → (department_min_group_size settings g.department_id ≤ size_of members g)
          × (size_of members g ≤ department_max_group_size settings g.department_id))

abbrev draft_row : Option ProjectGroup → Bool
draft_row none = false
draft_row (some g) = is_draft g.status

unfoldable pub is_draft_group : List ProjectGroup → ℕ → Bool
is_draft_group groups id = draft_row (find (has_id id) groups)

abbrev pub OpenOk : List ProjectGroup → JoinRequest → Type 0
OpenOk groups r = request_pending r.status ≡ true → is_draft_group groups r.project_group_id ≡ true

unfoldable pub is_member : List GroupMember → ℕ → ℕ → Bool
is_member members group_id user_id =
    exists (λ m. is_in_group group_id m && is_user user_id m) members

abbrev pub RequestJoined : List GroupMember → JoinRequest → Type 0
RequestJoined members r =
    is_approved r.status ≡ true → is_member members r.project_group_id r.requested_by_user_id ≡ true

abbrev pub InvitationJoined : List GroupMember → GroupInvitation → Type 0
InvitationJoined members i =
    is_accepted i.status ≡ true → is_member members i.project_group_id i.invited_user_id ≡ true

unfoldable pub is_group : List ProjectGroup → ℕ → Bool
is_group groups id = exists (has_id id) groups

abbrev pub Placed : List ProjectGroup → GroupMember → Type 0
Placed groups m = is_group groups m.project_group_id ≡ true

pub record Inv (db : Db) : Type 0 where
  pub one_membership : (user_id : ℕ) → count (is_user user_id) db.members ≤ 1
  pub one_group_led : (user_id : ℕ) → count (led_by user_id) db.groups ≤ 1
  pub one_group_row : (id : ℕ) → count (has_id id) db.groups ≤ 1
  pub one_request_row : (id : ℕ) → count (is_request id) db.join_requests ≤ 1
  pub one_invitation_row : (id : ℕ) → count (is_invitation id) db.invitations ≤ 1
  pub members_placed : All (Placed db.groups) db.members
  pub sizes : All (SizeOk db.size_settings db.members) db.groups
  pub requests_open : All (OpenOk db.groups) db.join_requests
  pub requests_joined : All (RequestJoined db.members) db.join_requests
  pub invitations_joined : All (InvitationJoined db.members) db.invitations
