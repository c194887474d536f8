-- ===== src/Groups/JoinRequests.antt =====
-- `createJoinRequest`, `cancelMyJoinRequest`, `approveJoinRequestForMyGroup` and
-- `rejectJoinRequestForMyGroup` of project-group.service.ts. `fresh` is the identifier that the
-- database would draw, and `now` is `new Date()`.
use academia_backend_api.Base.{
  given, ℕ, ◌+◌, String, Bool, true, false, not, ◌&&◌, Option, none, some, ◌==◌, leb, bad_request,
  bad_request_with, database_error, find, exists, M, ◌>>=◌, ◌>>◌, pure, when_then_throw, return_if,
  require_row, throw_if, throw_when, read, write, transaction,
}
use academia_backend_api.Accounts.{Principal}
use academia_backend_api.Groups.Schema.{
  Db, ProjectGroup, JoinRequest, JoinRequestStatus, is_draft, request_pending, request_status_text,
}
use academia_backend_api.Groups.Access.{
  Actor, require_student_in_department, require_approved_group_leader,
}
use academia_backend_api.Groups.Queries.{
  find_group, find_by_leader_user_id, find_group_for_join_request, user_is_member_of_any_group,
  count_group_members, department_max_group_size, add_member, find_pending_join_request,
  upsert_join_request, update_join_request, revoke_user_requests, revoke_user_invitations,
  is_request, decide_request, joins,
}

-- The answer's `request`, and whether it comes with the message 'Join request already sent'.
pub record JoinAnswer : Type 0 where
  pub id : ℕ
  pub status : JoinRequestStatus
  pub already_sent : Bool

abbrev pub is_some {ℓ} : {A : Type ℓ} → Option A → Bool
is_some none = false
is_some (some _) = true

-- `1 + memberCount >= maxGroupSize`
abbrev pub is_full : ProjectGroup → Db → Bool
is_full g db =
    leb (department_max_group_size db.size_settings g.department_id)
      (1 + count_group_members g.id db)

-- The checks that `createJoinRequest` and the two joins make of the student.
abbrev pub reject_placed : ℕ → M Db (Unit {0})
reject_placed user_id = do
  throw_when (user_is_member_of_any_group user_id)
      (bad_request "Student has already joined a group")
  throw_when (λ db. is_some (find_by_leader_user_id user_id db))
      (bad_request "Student is already a group leader")

abbrev pub new_join_request : ℕ → Actor → ProjectGroup → Option String → JoinRequest
new_join_request fresh actor g message = record {
  id = fresh;
  tenant_id = actor.tenant_id;
  department_id = actor.department_id;
  project_group_id = g.id;
  leader_user_id = g.leader_user_id;
  requested_by_user_id = actor.id;
  message = message;
  status = JoinRequestStatus.pending;
  decided_at = none;
  decided_by_user_id = none;
  rejection_reason = none;
}

-- The end of `createJoinRequest`: answer with the pending request, or send one.
unfoldable pub send_join_request :
    ℕ → Actor → ProjectGroup → Option String → Option JoinRequest → M Db JoinAnswer
send_join_request fresh actor g message (some r) =
    pure (record { id = r.id; status = r.status; already_sent = true })
send_join_request fresh actor g message none = do
  throw_when
      (λ db.
        not (exists (joins g.id actor.id) db.join_requests)
        && exists (is_request fresh) db.join_requests)
      database_error
  write (upsert_join_request (new_join_request fresh actor g message))
  created ← require_row (find_pending_join_request g.id actor.id) database_error
  pure (record { id = created.id; status = created.status; already_sent = false })

unfoldable pub create_join_request : ℕ → Principal → ℕ → Option String → M Db JoinAnswer
unfolding send_join_request
create_join_request fresh user group_id message = do
  actor ← require_student_in_department user
  reject_placed actor.id
  g ←
      require_row (find_group_for_join_request actor.tenant_id actor.department_id group_id)
        (bad_request "Group not found")
  throw_if (not (is_draft g.status)) (bad_request "Group is not accepting join requests")
  throw_when (is_full g) (bad_request "Group is full")
  pending ← read (find_pending_join_request g.id actor.id)
  send_join_request fresh actor g message pending

-- `findUnique({ where: { id } })`
abbrev pub find_request : ℕ → Db → Option JoinRequest
find_request id db = find (is_request id) db.join_requests

abbrev pub requested_by : ℕ → Actor → JoinRequest → Bool
requested_by id actor r =
    (r.id == id && r.requested_by_user_id == actor.id)
    && (r.tenant_id == actor.tenant_id && r.department_id == actor.department_id)

unfoldable pub cancel_my_join_request : ℕ → Principal → ℕ → M Db (Unit {0})
cancel_my_join_request now user id = do
  actor ← require_student_in_department user
  existing ←
      require_row (λ db. find (requested_by id actor) db.join_requests)
        (bad_request "Join request not found")
  throw_if (not (request_pending existing.status))
      (bad_request_with "Join request is" (request_status_text existing.status))
  write (update_join_request existing.id (decide_request JoinRequestStatus.cancelled now actor.id))

-- The answer `{ approved, requestId, memberAdded }`, `approved` being always true.
pub record ApprovalAnswer : Type 0 where
  pub request_id : ℕ
  pub member_added : Bool

abbrev pub is_approved : JoinRequestStatus → Bool
is_approved JoinRequestStatus.approved = true
is_approved _ = false

abbrev pub is_rejected_request : JoinRequestStatus → Bool
is_rejected_request JoinRequestStatus.rejected = true
is_rejected_request _ = false

-- The part of the transaction that runs for a pending request.
unfoldable pub approve_pending : ℕ → Actor → JoinRequest → ProjectGroup → M Db ApprovalAnswer
approve_pending now actor req g = do
  throw_if (not (is_draft g.status)) (bad_request "Group is not accepting join requests")
  when_then_throw (user_is_member_of_any_group req.requested_by_user_id)
      (update_join_request req.id (decide_request JoinRequestStatus.revoked now actor.id))
      (bad_request "Student has already joined a group")
  when_then_throw (λ db. is_some (find_by_leader_user_id req.requested_by_user_id db))
      (update_join_request req.id (decide_request JoinRequestStatus.revoked now actor.id))
      (bad_request "Student is already a group leader")
  throw_when (is_full g) (bad_request "Group is full")
  add_member req.project_group_id req.requested_by_user_id
  write (update_join_request req.id (decide_request JoinRequestStatus.approved now actor.id))
  write (revoke_user_requests now actor.id req.requested_by_user_id req.id)
  write (revoke_user_invitations now req.requested_by_user_id (λ i. false))
  pure (record { request_id = req.id; member_added = true })

unfoldable pub approve_in_transaction : ℕ → Actor → ℕ → M Db ApprovalAnswer
approve_in_transaction now actor id = do
  req ← require_row (find_request id) (bad_request "Join request not found")
  g ← require_row (find_group req.project_group_id) database_error
  throw_if (not (req.tenant_id == actor.tenant_id && req.department_id == actor.department_id))
      (bad_request "Join request not found")
  throw_if (not (req.leader_user_id == actor.id && g.leader_user_id == actor.id))
      (bad_request "Join request not found")
  return_if (is_approved req.status) (pure (record { request_id = req.id; member_added = false }))
      do
        throw_if (not (request_pending req.status))
            (bad_request_with "Join request is" (request_status_text req.status))
        approve_pending now actor req g

unfoldable pub approve_join_request : ℕ → Principal → ℕ → M Db ApprovalAnswer
approve_join_request now user id = do
  actor ← require_approved_group_leader user
  transaction (approve_in_transaction now actor id)

abbrev pub rejected_row : ℕ → ℕ → Option String → JoinRequest → JoinRequest
rejected_row now by reason r = record r {
  status = JoinRequestStatus.rejected;
  decided_at = some now;
  decided_by_user_id = some by;
  rejection_reason = given reason r.rejection_reason;
}

unfoldable pub reject_join_request : ℕ → Principal → ℕ → Option String → M Db JoinRequestStatus
reject_join_request now user id reason = do
  actor ← require_approved_group_leader user
  req ← require_row (find_request id) (bad_request "Join request not found")
  throw_if (not (req.tenant_id == actor.tenant_id && req.department_id == actor.department_id))
      (bad_request "Join request not found")
  throw_if (not (req.leader_user_id == actor.id)) (bad_request "Join request not found")
  return_if (is_rejected_request req.status) (pure JoinRequestStatus.rejected) do
    throw_if (not (request_pending req.status))
        (bad_request_with "Join request is" (request_status_text req.status))
    write (update_join_request req.id (rejected_row now actor.id reason))
    pure JoinRequestStatus.rejected
