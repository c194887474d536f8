-- ===== src/Groups/Tests.antt =====
-- A department with one group, followed from the application of its leader to the approval of the
-- group, and the theorems at points of that story.
use academia_backend_api.Base.{
  ℕ, String, true, none, some, List, [], ◌∷◌, ◌≡◌, refl, arith, err, after, bad_request, effects,
  find, count, update, Post,
}
use academia_backend_api.Accounts.{
  Role, student, department_head, Principal, tenant, User, includes,
}
use academia_backend_api.Groups.Schema.{
  Db, ProjectGroup, GroupStatus, GroupInvitation, InvitationStatus, JoinRequest, JoinRequestStatus,
}
use academia_backend_api.Groups.Access.{
  Actor, require_approved_group_leader, require_department_reviewer, require_student_in_department,
  require_db_user,
}
use academia_backend_api.Groups.Queries.{
  find_group_for_review, department_min_group_size, department_max_group_size, add_member,
  create_group_row, upsert_join_request, update_join_request, revoke_user_requests,
  revoke_user_invitations, revoke_group_invitations, revoke_group_requests, update_group,
  find_group_for_join_request, find_pending_join_request, update_invitation_status,
  find_active_pending_invite_for_user,
}
use academia_backend_api.Groups.JoinRequests.{
  create_join_request, approve_join_request, approve_pending, approve_in_transaction,
}
use academia_backend_api.Groups.Invitations.{
  require_token, require_invitable, create_invitation, invite_student, accept_invitation,
  accept_in_transaction, accept_pending,
}
use academia_backend_api.Groups.Review.{
  reject_group, create_group, submit_group, close_group, require_submitted_group, approve_group,
}
use academia_backend_api.Groups.Leaders.{apply, review, update_application, approve_application}
use academia_backend_api.Groups.System.{
  Request, apply_as_leader, approve_leader, create, ask_to_join, approve_request, invite, submit,
  approve, reopen, accept_invite, handle, handle_all,
}
use academia_backend_api.Groups.Invariant.{Inv, is_member}
use academia_backend_api.Groups.Invariant.Reachable.{handle_all-Inv}
use academia_backend_api.Groups.Lifecycle.Steps.{Evolution, handle-Evolution}
use academia_backend_api.Groups.Lifecycle.Final.{IsFinal, handle_all-IsFinal}
use academia_backend_api.Groups.Contracts.Review.{
  Submission, GroupApproval, submit_group_lem, approve_group_lem,
}
use academia_backend_api.Groups.Contracts.Reject.{GroupRejection, reject_group_lem}
use academia_backend_api.Groups.Contracts.Undone.{accept_expired, approve_placed}

-- Names all that a run calls.
runs : Unit {0}
unfolding effects require_db_user find count update handle_all handle includes apply review
    update_application approve_application create_group create_join_request approve_join_request
    approve_pending approve_in_transaction require_token require_invitable create_invitation
    invite_student accept_invitation accept_in_transaction accept_pending submit_group close_group
    require_submitted_group approve_group require_approved_group_leader require_department_reviewer
    require_student_in_department department_min_group_size department_max_group_size add_member
    create_group_row upsert_join_request update_join_request revoke_user_requests
    revoke_user_invitations revoke_group_invitations revoke_group_requests update_group
    find_group_for_join_request find_group_for_review find_pending_join_request
    update_invitation_status find_active_pending_invite_for_user
runs = tt

abbrev person : ℕ → Role → User
person id role = record {
  id = id;
  tenant_id = 5;
  department_id = some 10;
  email = "x@y";
  deleted_at = none;
  roles = role ∷ [];
}

abbrev caller : ℕ → Role → Principal
caller id role = record { sub = some id; tenant_id = tenant 5; roles = role ∷ [] }

abbrev start : Db
start = record {
  users = person 1 student ∷ person 2 student ∷ person 3 student ∷ person 9 department_head ∷ [];
  leader_requests = [];
  size_settings = [];
  groups = [];
  members = [];
  invitations = [];
  join_requests = [];
}

abbrev founding : List Request
founding =
    apply_as_leader 50 (caller 1 student) none
    ∷ approve_leader 10 (caller 9 department_head) 50
    ∷ create 100 (caller 1 student)
    ∷ ask_to_join 200 (caller 2 student) 100 none
    ∷ invite 300 15 15 "tok" (caller 1 student) 3
    ∷ []

abbrev growing : List Request
growing =
    approve_request 20 (caller 1 student) 200
    ∷ ask_to_join 201 (caller 3 student) 100 none
    ∷ approve_request 21 (caller 1 student) 201
    ∷ []

abbrev deciding : List Request
deciding = submit 30 (caller 1 student) ∷ approve 40 (caller 9 department_head) 100 ∷ []

abbrev same_text : String → String
same_text s = s

founded : Db
founded = handle_all same_text same_text founding start

grown : Db
grown = handle_all same_text same_text growing founded

decided : Db
decided = handle_all same_text same_text deciding grown

founding_test : count (λ g. true) founded.groups ≡ 1
unfolding runs founded
founding_test = refl

growing_test : is_member grown.members 100 3 ≡ true
unfolding runs founded grown is_member
growing_test = refl

start-Inv : Inv start
unfolding count
start-Inv = record {
  one_membership = λ u. omega arith;
  one_group_led = λ u. omega arith;
  one_group_row = λ u. omega arith;
  one_request_row = λ u. omega arith;
  one_invitation_row = λ u. omega arith;
  members_placed = tt;
  sizes = tt;
  requests_open = tt;
  requests_joined = tt;
  invitations_joined = tt;
}

founded-Inv : Inv founded
unfolding founded
founded-Inv = handle_all-Inv same_text same_text founding start start-Inv

decided-Inv : Inv decided
unfolding decided grown
decided-Inv =
    handle_all-Inv same_text same_text deciding _
      (handle_all-Inv same_text same_text growing _ founded-Inv)

handle_all-Inv_example : Inv (handle_all same_text same_text (founding) start)
handle_all-Inv_example = handle_all-Inv same_text same_text founding start start-Inv

abbrev approved_row : ProjectGroup
approved_row = record {
  id = 100;
  tenant_id = 5;
  department_id = 10;
  leader_user_id = 1;
  status = GroupStatus.approved;
  submitted_at = some 30;
  reviewed_by_user_id = some 9;
  reviewed_at = some 40;
  rejection_reason = none;
}

handle_all-IsFinal_example : IsFinal decided 100 (
    handle_all same_text same_text
      (reopen (caller 1 student) ∷ accept_invite 41 (some "tok") ∷ [])
      decided)
unfolding runs founded grown decided
handle_all-IsFinal_example =
    handle_all-IsFinal same_text same_text
      (reopen (caller 1 student) ∷ accept_invite 41 (some "tok") ∷ []) decided 100 approved_row
      decided-Inv refl refl

handle-Evolution_example :
    Evolution founded
      (handle same_text same_text (approve_request 20 (caller 1 student) 200) founded)
handle-Evolution_example =
    handle-Evolution same_text same_text (approve_request 20 (caller 1 student) 200) founded
      founded-Inv

submit_group_lem_example :
    Post
      (Submission 30 (caller 1 student) grown)
      (λ s. s ≡ grown)
      (submit_group 30 (caller 1 student) grown)
submit_group_lem_example = submit_group_lem 30 (caller 1 student) grown

submitted : Db
submitted = handle_all same_text same_text (submit 30 (caller 1 student) ∷ []) grown

approve_group_lem_example :
    Post
      (λ a s. GroupApproval 40 (caller 9 department_head) 100 submitted s)
      (λ s. s ≡ submitted)
      (approve_group 40 (caller 9 department_head) 100 submitted)
approve_group_lem_example = approve_group_lem 40 (caller 9 department_head) 100 submitted

abbrev leader : Actor
leader = record { id = 1; tenant_id = 5; department_id = 10 }

abbrev draft_row : ProjectGroup
draft_row = record {
  id = 100;
  tenant_id = 5;
  department_id = 10;
  leader_user_id = 1;
  status = GroupStatus.draft;
  submitted_at = none;
  reviewed_by_user_id = none;
  reviewed_at = none;
  rejection_reason = none;
}

abbrev asked_row : JoinRequest
asked_row = record {
  id = 200;
  tenant_id = 5;
  department_id = 10;
  project_group_id = 100;
  leader_user_id = 1;
  requested_by_user_id = 2;
  message = none;
  status = JoinRequestStatus.pending;
  decided_at = none;
  decided_by_user_id = none;
  rejection_reason = none;
}

abbrev invited_row : GroupInvitation
invited_row = record {
  id = 300;
  tenant_id = 5;
  department_id = 10;
  project_group_id = 100;
  leader_user_id = 1;
  invited_user_id = 3;
  invited_email = "x@y";
  token = "tok";
  status = InvitationStatus.pending;
  expires_at = 259200015;
  decided_at = none;
}

accept_expired_example :
    accept_invitation same_text 259200015 (some "tok") founded
    ≡ err (bad_request "Invitation has expired") founded
unfolding runs founded
accept_expired_example =
    accept_expired same_text 259200015 "tok" founded invited_row draft_row refl refl refl refl refl
      (omega arith)

-- The student of the pending request has accepted an invitation meanwhile.
abbrev overtaken : Db
overtaken = record founded { members = record { project_group_id = 100; user_id = 2 } ∷ [] }

approve_placed_example :
    approve_join_request 20 (caller 1 student) 200 overtaken
    ≡ err (bad_request "Student has already joined a group") overtaken
unfolding runs founded
approve_placed_example =
    approve_placed 20 (caller 1 student) 200 overtaken leader asked_row draft_row refl refl refl
      refl refl refl refl refl refl refl

reject_group_lem_example :
    Post
      (λ a s. GroupRejection 40 (caller 9 department_head) 100 (some "scope") submitted s)
      (λ s. s ≡ submitted)
      (reject_group 40 (caller 9 department_head) 100 (some "scope") submitted)
reject_group_lem_example =
    reject_group_lem 40 (caller 9 department_head) 100 (some "scope") submitted

turned_down : Db
turned_down = after (reject_group 40 (caller 9 department_head) 100 (some "scope") submitted)
