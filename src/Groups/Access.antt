-- ===== src/Groups/Access.antt =====
-- Who may call: `requireDbUser`, `requireStudentInDepartment`, `requireApprovedGroupLeader` and
-- `requireDepartmentReviewer` of project-group.service.ts.
use academia_backend_api.Base.{
  ℕ, Bool, true, not, ◌&&◌, Option, none, some, ◌==◌, unauthorized_access, insufficient_permissions,
  bad_request, find, M, ◌>>=◌, ◌>>◌, pure, require, require_row, throw_if, throw_when,
}
use academia_backend_api.Accounts.{
  Principal, User, student, department_head, coordinator, includes, claim_differs,
}
use academia_backend_api.Groups.Schema.{Db, GroupLeaderRequest, leader_approved}

-- `{ ...dbUser, departmentId }`: a user whose department is known.
pub record Actor : Type 0 where
  pub id : ℕ
  pub tenant_id : ℕ
  pub department_id : ℕ

-- `authRepository.findUserById`
abbrev pub find_user_by_id : ℕ → Db → Option User
find_user_by_id id db = find (λ u. u.id == id) db.users

unfoldable pub require_db_user : Principal → M Db User
unfolding find
require_db_user user = do
  sub ← require user.sub unauthorized_access
  db_user ← require_row (find_user_by_id sub) unauthorized_access
  throw_if (claim_differs user.tenant_id db_user.tenant_id) unauthorized_access
  pure db_user

unfoldable pub require_student_in_department : Principal → M Db Actor
require_student_in_department user = do
  db_user ← require_db_user user
  throw_if (not (includes student user.roles))
      (insufficient_permissions "Only students can perform this action")
  department_id ←
      require db_user.department_id (bad_request "Student is not assigned to a department")
  pure (record { id = db_user.id; tenant_id = db_user.tenant_id; department_id = department_id })

-- `!glr || glr.status !== APPROVED`
abbrev not_approved : Option GroupLeaderRequest → Bool
not_approved none = true
not_approved (some r) = not (leader_approved r.status)

unfoldable pub approved_leader : ℕ → Db → Bool
approved_leader user_id db =
    not (not_approved (find (λ r. r.student_user_id == user_id) db.leader_requests))

unfoldable pub require_approved_group_leader : Principal → M Db Actor
unfolding approved_leader
require_approved_group_leader user = do
  actor ← require_student_in_department user
  throw_when (λ db. not (approved_leader actor.id db))
      (insufficient_permissions "Only approved group leaders can perform this action")
  pure actor

unfoldable pub require_department_reviewer : Principal → M Db Actor
require_department_reviewer user = do
  db_user ← require_db_user user
  throw_if (not (includes department_head user.roles) && not (includes coordinator user.roles))
      (insufficient_permissions "Only department head or coordinator can perform this action")
  department_id ← require db_user.department_id (bad_request "User is not assigned to a department")
  pure (record { id = db_user.id; tenant_id = db_user.tenant_id; department_id = department_id })
