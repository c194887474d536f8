-- ===== src/Groups/Queries.antt =====
-- project-group.repository.ts, `getDepartmentGroupSizeSetting` of the service, and the updates that
-- several handlers share. A `where` clause is a condition on a row, a `data` clause the new row.
use academia_backend_api.Base.{
  given, ℕ, Bool, not, ◌&&◌, Option, none, some, List, ◌∷◌, ◌==◌, ltb, if◌then◌else◌,
  database_error, find, count, exists, update, M, ◌>>◌, throw_when, write,
}
use academia_backend_api.Groups.Schema.{
  Db, ProjectGroup, GroupMember, GroupInvitation, InvitationStatus, JoinRequest, JoinRequestStatus,
  SizeSetting, invitation_pending, request_pending,
}

abbrev pub default_min_group_size : ℕ
default_min_group_size = 3

abbrev pub default_max_group_size : ℕ
default_max_group_size = 5

abbrev pub setting_of : ℕ → List SizeSetting → Option SizeSetting
setting_of department_id settings = find (λ s. s.department_id == department_id) settings

abbrev min_of_setting : Option SizeSetting → ℕ
min_of_setting none = default_min_group_size
min_of_setting (some s) = s.min_group_size

abbrev max_of_setting : Option SizeSetting → ℕ
max_of_setting none = default_max_group_size
max_of_setting (some s) = s.max_group_size

-- `getDepartmentGroupSizeSetting` and `getDepartmentMaxGroupSize`
unfoldable pub department_min_group_size : List SizeSetting → ℕ → ℕ
department_min_group_size settings department_id =
    min_of_setting (setting_of department_id settings)

unfoldable pub department_max_group_size : List SizeSetting → ℕ → ℕ
department_max_group_size settings department_id =
    max_of_setting (setting_of department_id settings)

abbrev pub has_id : ℕ → ProjectGroup → Bool
has_id id g = g.id == id

abbrev pub led_by : ℕ → ProjectGroup → Bool
led_by user_id g = g.leader_user_id == user_id

-- `findByLeaderUserId` and `findMyGroupForLeader`, which select other columns of the same row
abbrev pub find_by_leader_user_id : ℕ → Db → Option ProjectGroup
find_by_leader_user_id user_id db = find (led_by user_id) db.groups

-- The relation `projectGroup` of an invitation or a join request.
abbrev pub find_group : ℕ → Db → Option ProjectGroup
find_group id db = find (has_id id) db.groups

abbrev pub in_department : ℕ → ℕ → ℕ → ProjectGroup → Bool
in_department id tenant_id department_id g =
    g.id == id && (g.tenant_id == tenant_id && g.department_id == department_id)

-- `findGroupForReview`
unfoldable pub find_group_for_review : ℕ → ℕ → ℕ → Db → Option ProjectGroup
find_group_for_review tenant_id department_id id db =
    find (in_department id tenant_id department_id) db.groups

-- `findGroupForJoinRequest`
unfoldable pub find_group_for_join_request : ℕ → ℕ → ℕ → Db → Option ProjectGroup
find_group_for_join_request tenant_id department_id id db =
    find (in_department id tenant_id department_id) db.groups

abbrev pub is_user : ℕ → GroupMember → Bool
is_user user_id m = m.user_id == user_id

abbrev pub is_in_group : ℕ → GroupMember → Bool
is_in_group group_id m = m.project_group_id == group_id

-- `userIsMemberOfAnyGroup`
abbrev pub user_is_member_of_any_group : ℕ → Db → Bool
user_is_member_of_any_group user_id db = exists (is_user user_id) db.members

-- `countGroupMembers`
abbrev pub count_group_members : ℕ → Db → ℕ
count_group_members group_id db = count (is_in_group group_id) db.members

-- `addMember`; the schema makes `userId` unique
unfoldable pub add_member : ℕ → ℕ → M Db (Unit {0})
add_member group_id user_id = do
  throw_when (user_is_member_of_any_group user_id) database_error
  write λ db. record db {
    members = record { project_group_id = group_id; user_id = user_id } ∷ db.members;
  }

-- `create`; the schema makes `id` and `leaderUserId` unique
unfoldable pub create_group_row : ProjectGroup → M Db (Unit {0})
create_group_row g = do
  throw_when (λ db. exists (has_id g.id) db.groups) database_error
  throw_when (λ db. exists (led_by g.leader_user_id) db.groups) database_error
  write λ db. record db { groups = g ∷ db.groups }

abbrev pub is_active_pending : ℕ → GroupInvitation → Bool
is_active_pending now i = invitation_pending i.status && ltb now i.expires_at

abbrev pub is_invitation : ℕ → GroupInvitation → Bool
is_invitation id i = i.id == id

abbrev pub active_for_group : ℕ → ℕ → GroupInvitation → Bool
active_for_group now group_id i = i.project_group_id == group_id && is_active_pending now i

-- `countActivePendingInvites`
abbrev pub count_active_pending_invites : ℕ → ℕ → Db → ℕ
count_active_pending_invites now group_id db = count (active_for_group now group_id) db.invitations

-- `findActivePendingInviteForUser`
unfoldable pub find_active_pending_invite_for_user : ℕ → ℕ → ℕ → Db → Option GroupInvitation
find_active_pending_invite_for_user now group_id user_id db =
    find (λ i. i.invited_user_id == user_id && active_for_group now group_id i) db.invitations

abbrev pub decide_invitation : InvitationStatus → ℕ → GroupInvitation → GroupInvitation
decide_invitation status now i = record i { status = status; decided_at = some now }

-- `updateInvitationStatus`
unfoldable pub update_invitation_status : ℕ → InvitationStatus → ℕ → Db → Db
update_invitation_status id status now db = record db {
  invitations = update (is_invitation id) (decide_invitation status now) db.invitations;
}

-- The `updateMany` of the review handlers: the invitations to the group that are still open.
unfoldable pub revoke_group_invitations : ℕ → ℕ → Db → Db
revoke_group_invitations now group_id db = record db {
  invitations =
      update (active_for_group now group_id) (decide_invitation InvitationStatus.revoked now)
        db.invitations;
}

-- The `updateMany` of the joins: the open invitations of a user, but for one.
unfoldable pub revoke_user_invitations : ℕ → ℕ → (GroupInvitation → Bool) → Db → Db
revoke_user_invitations now user_id except db = record db {
  invitations =
      update (λ i. (i.invited_user_id == user_id && is_active_pending now i) && not (except i))
        (decide_invitation InvitationStatus.revoked now) db.invitations;
}

abbrev pub is_request : ℕ → JoinRequest → Bool
is_request id r = r.id == id

abbrev pub pending_for_group : ℕ → JoinRequest → Bool
pending_for_group group_id r = r.project_group_id == group_id && request_pending r.status

abbrev pub decide_request : JoinRequestStatus → ℕ → ℕ → JoinRequest → JoinRequest
decide_request status now by r = record r {
  status = status;
  decided_at = some now;
  decided_by_user_id = some by;
}

unfoldable pub update_join_request : ℕ → (JoinRequest → JoinRequest) → Db → Db
update_join_request id f db = record db {
  join_requests = update (is_request id) f db.join_requests;
}

-- The `updateMany` of the review handlers: the pending requests for the group.
unfoldable pub revoke_group_requests : ℕ → ℕ → ℕ → Db → Db
revoke_group_requests now by group_id db = record db {
  join_requests =
      update (pending_for_group group_id) (decide_request JoinRequestStatus.revoked now by)
        db.join_requests;
}

-- The `updateMany` of the approval: the user's pending requests, but for the one that is approved.
unfoldable pub revoke_user_requests : ℕ → ℕ → ℕ → ℕ → Db → Db
revoke_user_requests now by user_id except db = record db {
  join_requests =
      update
        (λ r.
          (r.requested_by_user_id == user_id && request_pending r.status) && not (r.id == except))
        (decide_request JoinRequestStatus.revoked now by) db.join_requests;
}

abbrev pub joins : ℕ → ℕ → JoinRequest → Bool
joins group_id user_id r = r.project_group_id == group_id && r.requested_by_user_id == user_id

-- `findPendingJoinRequest`
unfoldable pub find_pending_join_request : ℕ → ℕ → Db → Option JoinRequest
find_pending_join_request group_id user_id db =
    find (λ r. joins group_id user_id r && request_pending r.status) db.join_requests

abbrev pub resend : JoinRequest → JoinRequest → JoinRequest
resend new r = record r {
  leader_user_id = new.leader_user_id;
  message = given new.message r.message;
  status = JoinRequestStatus.pending;
  decided_at = none;
  decided_by_user_id = none;
  rejection_reason = none;
}

-- `createJoinRequest`, an upsert on the pair of group and student
unfoldable pub upsert_join_request : JoinRequest → Db → Db
upsert_join_request new db = record db {
  join_requests =
      if exists (joins new.project_group_id new.requested_by_user_id) db.join_requests
      then update (joins new.project_group_id new.requested_by_user_id) (resend new)
          db.join_requests
      else new ∷ db.join_requests;
}

-- `projectGroup.update`
unfoldable pub update_group : ℕ → (ProjectGroup → ProjectGroup) → Db → Db
update_group id f db = record db { groups = update (has_id id) f db.groups }
