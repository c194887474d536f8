-- ===== src/Groups/Leaders.antt =====
-- group-leader-request.service.ts and its repository: `apply`, `approve` and `reject`. The
-- notifications and e-mails are best effort and change none of these tables.
use academia_backend_api.Base.{
  ℕ, String, Bool, not, ◌&&◌, ◌||◌, Option, none, some, List, ◌∷◌, ◌==◌, bad_request, not_found,
  insufficient_permissions, database_error, find, exists, update, M, ◌>>=◌, ◌>>◌, require,
  require_row, throw_if, throw_when, write,
}
use academia_backend_api.Accounts.{Principal, student, department_head, coordinator, includes}
use academia_backend_api.Groups.Schema.{
  Db, ProjectGroup, GroupMember, GroupLeaderRequest, GroupLeaderRequestStatus, leader_pending,
}
use academia_backend_api.Groups.Access.{Actor, require_db_user}
use academia_backend_api.Groups.Queries.{is_in_group, is_user}

-- The `where` of `apply`: a group of the department that the student leads or is a member of.
abbrev pub takes_part : Actor → List GroupMember → ProjectGroup → Bool
takes_part actor members g =
    (g.tenant_id == actor.tenant_id && g.department_id == actor.department_id)
    && (g.leader_user_id == actor.id
        || exists (λ m. is_in_group g.id m && is_user actor.id m) members)

abbrev pub applied_by : ℕ → GroupLeaderRequest → Bool
applied_by user_id r = r.student_user_id == user_id

abbrev pub is_application : ℕ → GroupLeaderRequest → Bool
is_application id r = r.id == id

abbrev pub new_application : ℕ → Actor → Option String → GroupLeaderRequest
new_application fresh actor message = record {
  id = fresh;
  tenant_id = actor.tenant_id;
  department_id = actor.department_id;
  student_user_id = actor.id;
  message = message;
  status = GroupLeaderRequestStatus.pending;
  reviewed_by_user_id = none;
  reviewed_at = none;
  rejection_reason = none;
}

-- `message` is the handler's `dto.message ?? dto.reason`.
unfoldable pub apply : ℕ → Principal → Option String → M Db (Unit {0})
apply fresh user message = do
  db_user ← require_db_user user
  throw_if (not (includes student user.roles)) (insufficient_permissions "Only students can apply")
  department_id ←
      require db_user.department_id (bad_request "Student is not assigned to a department")
  let actor : Actor = record {
    id = db_user.id;
    tenant_id = db_user.tenant_id;
    department_id = department_id;
  }
  throw_when (λ db. exists (takes_part actor db.members) db.groups)
      (bad_request "Student already has a group")
  throw_when (λ db. exists (applied_by actor.id) db.leader_requests)
      (bad_request "Student has already applied")
  throw_when (λ db. exists (is_application fresh) db.leader_requests) database_error
  write (λ db. record db {
    leader_requests = new_application fresh actor message ∷ db.leader_requests;
  })

abbrev pub review_application :
    GroupLeaderRequestStatus → ℕ → ℕ → Option String → GroupLeaderRequest → GroupLeaderRequest
review_application status now reviewer_id reason r = record r {
  status = status;
  reviewed_by_user_id = some reviewer_id;
  reviewed_at = some now;
  rejection_reason = reason;
}

-- `approveRequest` and `rejectRequest` of the repository
unfoldable pub update_application : ℕ → (GroupLeaderRequest → GroupLeaderRequest) → Db → Db
update_application id f db = record db {
  leader_requests = update (is_application id) f db.leader_requests;
}

-- What `approve` and `reject` have in common; `refusal` is the message for a request that is not
-- pending.
unfoldable pub review :
    GroupLeaderRequestStatus → String → ℕ → Principal → ℕ → Option String → M Db (Unit {0})
review status refusal now user id reason = do
  db_user ← require_db_user user
  throw_if (not (includes department_head user.roles) && not (includes coordinator user.roles))
      (insufficient_permissions "Only department heads and coordinators can review requests")
  department_id ← require db_user.department_id (bad_request "User is not assigned to a department")
  existing ←
      require_row (λ db. find (is_application id) db.leader_requests)
        (not_found "Request not found")
  throw_if
      (not (existing.tenant_id == db_user.tenant_id && existing.department_id == department_id))
      (insufficient_permissions "Request is not accessible")
  throw_if (not (leader_pending existing.status)) (bad_request refusal)
  write (update_application id (review_application status now db_user.id reason))

unfoldable pub approve_application : ℕ → Principal → ℕ → M Db (Unit {0})
unfolding review
approve_application now user id =
    review GroupLeaderRequestStatus.approved "Only pending requests can be approved" now user id
      none

unfoldable pub reject_application : ℕ → Principal → ℕ → Option String → M Db (Unit {0})
unfolding review
reject_application now user id reason =
    review GroupLeaderRequestStatus.rejected "Only pending requests can be rejected" now user id
      reason
