-- ===== src/Groups/Contracts/Undone.antt =====
-- Writes that an exception undoes.
use academia_backend_api.Base.{
  ℕ, ◌≤◌, String, true, false, some, ◌≡◌, arith, ok, err, bad_request, effects,
}
use text.Mathlib.Text.{◌==◌ as str_eq}
use academia_backend_api.Accounts.{Principal}
use academia_backend_api.Groups.Schema.{
  Db, ProjectGroup, GroupInvitation, JoinRequest, is_draft, request_pending, invitation_pending,
}
use academia_backend_api.Groups.Access.{Actor, require_approved_group_leader}
use academia_backend_api.Groups.Queries.{find_group, user_is_member_of_any_group}
use academia_backend_api.Groups.JoinRequests.{
  find_request, approve_pending, approve_in_transaction, approve_join_request,
}
use academia_backend_api.Groups.Invitations.{
  require_token, find_invitation_by_token, accept_pending, accept_in_transaction, accept_invitation,
}

-- A pending invitation that is found too late stays as it is: the exception undoes the write that
-- marks it as expired.
pub accept_expired :
    (trim : String → String) (now : ℕ) (raw : String) (db : Db) (i : GroupInvitation)
    (g : ProjectGroup)
    → str_eq (trim raw) "" ≡ false
    → find_invitation_by_token (trim raw) db ≡ some i
    → find_group i.project_group_id db ≡ some g
    → is_draft g.status ≡ true
    → invitation_pending i.status ≡ true
    → i.expires_at ≤ now
    → accept_invitation trim now (some raw) db ≡ err (bad_request "Invitation has expired") db
unfolding effects accept_invitation require_token accept_in_transaction accept_pending
accept_expired trim now raw db i g blank found group_found draft pending late = ground arith

-- The leader cannot get rid of a pending request of a student who has joined a group meanwhile by
-- approving it: the exception undoes the write that revokes it.
pub approve_placed :
    (now : ℕ) (user : Principal) (id : ℕ) (db : Db) (actor : Actor) (req : JoinRequest)
    (g : ProjectGroup)
    → require_approved_group_leader user db ≡ ok actor db
    → find_request id db ≡ some req
    → find_group req.project_group_id db ≡ some g
    → req.tenant_id ≡ actor.tenant_id
    → req.department_id ≡ actor.department_id
    → req.leader_user_id ≡ actor.id
    → g.leader_user_id ≡ actor.id
    → request_pending req.status ≡ true
    → is_draft g.status ≡ true
    → user_is_member_of_any_group req.requested_by_user_id db ≡ true
    → approve_join_request now user id db
      ≡ err (bad_request "Student has already joined a group") db
unfolding effects approve_join_request approve_in_transaction approve_pending
approve_placed now user id db actor req g authorized found group_found tenant department owner
      leader pending draft placed =
    ground arith
