-- ===== src/Groups/Review.antt =====
-- `createGroup`, `submitMyGroupForReview`, `reopenMyRejectedGroup`, `approveSubmittedGroup` and
-- `rejectSubmittedGroup` of project-group.service.ts. The notification that follows an approval
-- changes none of these tables, and its failure is caught.
use academia_backend_api.Base.{
  given, ℕ, ◌+◌, String, not, Option, none, some, ltb, bad_request, bad_request_of,
  bad_request_with, count, M, ◌>>=◌, ◌>>◌, pure, return_if, require_row, throw_if, throw_when, read,
  write, transaction,
}
use academia_backend_api.Accounts.{Principal}
use academia_backend_api.Groups.Schema.{
  Db, ProjectGroup, GroupStatus, is_draft, is_submitted, is_rejected, group_status_text,
}
use academia_backend_api.Groups.Access.{
  Actor, require_approved_group_leader, require_department_reviewer,
}
use academia_backend_api.Groups.Queries.{
  find_by_leader_user_id, find_group_for_review, count_group_members, department_min_group_size,
  department_max_group_size, create_group_row, active_for_group, pending_for_group,
  revoke_group_invitations, revoke_group_requests, update_group,
}
use academia_backend_api.Groups.JoinRequests.{is_some}

abbrev pub new_group : ℕ → Actor → ProjectGroup
new_group fresh actor = record {
  id = fresh;
  tenant_id = actor.tenant_id;
  department_id = actor.department_id;
  leader_user_id = actor.id;
  status = GroupStatus.draft;
  submitted_at = none;
  reviewed_by_user_id = none;
  reviewed_at = none;
  rejection_reason = none;
}

unfoldable pub create_group : ℕ → Principal → M Db (Unit {0})
create_group fresh user = do
  actor ← require_approved_group_leader user
  throw_when (λ db. is_some (find_by_leader_user_id actor.id db))
      (bad_request "Group leader has already created a group")
  create_group_row (new_group fresh actor)

-- The answer's `revokedInvitationsCount` and `revokedJoinRequestsCount`; both are missing where the
-- group had been submitted before.
pub record SubmitAnswer : Type 0 where
  pub revoked_invitations : Option ℕ
  pub revoked_join_requests : Option ℕ

abbrev pub current_size : ℕ → Db → ℕ
current_size group_id db = 1 + count_group_members group_id db

-- The two size checks, against the limits of a department.
abbrev pub check_size : ℕ → ℕ → M Db (Unit {0})
check_size group_id department_id = do
  least ← read (λ db. department_min_group_size db.size_settings department_id)
  most ← read (λ db. department_max_group_size db.size_settings department_id)
  throw_when (λ db. ltb (current_size group_id db) least)
      (bad_request_of "Group size must be at least" least)
  throw_when (λ db. ltb most (current_size group_id db))
      (bad_request_of "Group size must be at most" most)

unfoldable pub close_group : ℕ → Actor → ℕ → (ProjectGroup → ProjectGroup) → M Db (Unit {0})
close_group now actor group_id f = do
  write (revoke_group_invitations now group_id)
  write (revoke_group_requests now actor.id group_id)
  write (update_group group_id f)

abbrev pub submitted_group : ℕ → ProjectGroup → ProjectGroup
submitted_group now g = record g {
  status = GroupStatus.submitted;
  submitted_at = some now;
  reviewed_at = none;
  reviewed_by_user_id = none;
  rejection_reason = none;
}

unfoldable pub submit_group : ℕ → Principal → M Db SubmitAnswer
submit_group now user = do
  actor ← require_approved_group_leader user
  g ←
      require_row (find_by_leader_user_id actor.id)
        (bad_request "Group not found for this group leader")
  return_if (is_submitted g.status)
      (pure (record { revoked_invitations = none; revoked_join_requests = none }))
      do
        throw_if (not (is_draft g.status)) (bad_request "Only draft groups can be submitted")
        check_size g.id g.department_id
        invitations ← read (λ db. count (active_for_group now g.id) db.invitations)
        requests ← read (λ db. count (pending_for_group g.id) db.join_requests)
        transaction (close_group now actor g.id (submitted_group now))
        pure (record {
          revoked_invitations = some invitations;
          revoked_join_requests = some requests;
        })

abbrev pub reopened_group : ProjectGroup → ProjectGroup
reopened_group g = record g {
  status = GroupStatus.draft;
  submitted_at = none;
  reviewed_at = none;
  reviewed_by_user_id = none;
  rejection_reason = none;
}

unfoldable pub reopen_group : Principal → M Db (Unit {0})
reopen_group user = do
  actor ← require_approved_group_leader user
  g ←
      require_row (find_by_leader_user_id actor.id)
        (bad_request "Group not found for this group leader")
  throw_if (not (is_rejected g.status)) (bad_request "Only rejected groups can be reopened")
  write (update_group g.id reopened_group)

abbrev pub approved_group : ℕ → ℕ → ProjectGroup → ProjectGroup
approved_group now reviewer_id g = record g {
  status = GroupStatus.approved;
  reviewed_at = some now;
  reviewed_by_user_id = some reviewer_id;
  rejection_reason = none;
}

abbrev pub rejected_group : ℕ → ℕ → Option String → ProjectGroup → ProjectGroup
rejected_group now reviewer_id reason g = record g {
  status = GroupStatus.rejected;
  reviewed_at = some now;
  reviewed_by_user_id = some reviewer_id;
  rejection_reason = given reason g.rejection_reason;
}

-- The group that a reviewer may decide on.
unfoldable pub require_submitted_group : Actor → ℕ → M Db ProjectGroup
require_submitted_group reviewer group_id = do
  g ←
      require_row (find_group_for_review reviewer.tenant_id reviewer.department_id group_id)
        (bad_request "Group not found")
  throw_if (not (is_submitted g.status)) (bad_request_with "Group is" (group_status_text g.status))
  pure g

unfoldable pub approve_group : ℕ → Principal → ℕ → M Db (Unit {0})
approve_group now user group_id = do
  reviewer ← require_department_reviewer user
  g ← require_submitted_group reviewer group_id
  transaction do
    check_size g.id reviewer.department_id
    close_group now reviewer g.id (approved_group now reviewer.id)

unfoldable pub reject_group : ℕ → Principal → ℕ → Option String → M Db (Unit {0})
reject_group now user group_id reason = do
  reviewer ← require_department_reviewer user
  g ← require_submitted_group reviewer group_id
  transaction (close_group now reviewer g.id (rejected_group now reviewer.id reason))
