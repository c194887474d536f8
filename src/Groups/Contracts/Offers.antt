-- ===== src/Groups/Contracts/Offers.antt =====
-- `createJoinRequest`, `cancelMyJoinRequest`, `rejectJoinRequestForMyGroup`,
-- `inviteStudentToMyGroup` and the handlers of group-leader-request.service.ts. Each lemma says: a
-- property of the tables holds after the handler, whether it returns or throws, if it holds before
-- and after the one write that the handler makes, which may be assumed to be well founded.
use academia_backend_api.Base.{
  ℕ, ◌+◌, ◌&&◌, not, String, true, false, Option, none, some, ◌∷◌, ◌≡◌, arith, find, exists, ok,
  after, effects, Post, Post-pure, Post-guard, Post-guard_then, Post-read, Post-require,
  Post-require_row, Post-throw_if, Post-throw_when, Post-write, Post-write_last, Post-then,
  Post-return_if,
}
use academia_backend_api.Accounts.{Principal, User}
use academia_backend_api.Groups.Schema.{
  Db, ProjectGroup, GroupInvitation, GroupLeaderRequest, GroupLeaderRequestStatus, JoinRequest,
  JoinRequestStatus, is_draft, request_pending, leader_pending,
}
use academia_backend_api.Groups.Access.{
  Actor, require_student_in_department, require_approved_group_leader,
}
use academia_backend_api.Groups.Queries.{
  is_request, is_invitation, joins, decide_request, find_by_leader_user_id,
  find_group_for_join_request, upsert_join_request, update_join_request,
}
use academia_backend_api.Groups.JoinRequests.{
  is_full, reject_placed, new_join_request, send_join_request, create_join_request, requested_by,
  cancel_my_join_request, find_request, rejected_row, reject_join_request,
}
use academia_backend_api.Groups.Invitations.{
  require_invitable, create_invitation, new_invitation, is_reserved, invitation_lifetime,
  send_invitation, invite_student,
}
use academia_backend_api.Groups.Leaders.{
  apply, applied_by, is_application, new_application, review, review_application,
  update_application,
}
use academia_backend_api.Groups.Guards.{
  after-require_db_user, after-require_student, after-require_leader,
}
use academia_backend_api.Groups.Contracts.Approve.{not-false}

after-reject_placed : (user_id : ℕ) (db : Db) → after (reject_placed user_id db) ≡ db
unfolding effects
after-reject_placed user_id db = ground arith

after-require_invitable :
    (actor : Actor) (user_id : ℕ) (db : Db) → after (require_invitable actor user_id db) ≡ db
unfolding effects require_invitable
after-require_invitable actor user_id db = ground arith

module _ (P : Db → Type 0) (db : Db) (before : P db) where
  pub cancel_my_join_request_lem :
      (now : ℕ) (user : Principal) (id : ℕ)
      → ((actor : Actor) (r : JoinRequest)
          → require_student_in_department user db ≡ ok actor db
          → find (requested_by id actor) db.join_requests ≡ some r
          → request_pending r.status ≡ true
          → P (
              update_join_request r.id
                (decide_request JoinRequestStatus.cancelled now actor.id)
                db))
      → Post (λ a. P) P (cancel_my_join_request now user id db)
  unfolding cancel_my_join_request
  cancel_my_join_request_lem now user id k =
      Post-guard _ _ (after-require_student user db) before λ actor e.
        Post-require_row _ _ _ before λ r found.
          Post-throw_if _ _ before
            λ pending. Post-write_last _ _ (k actor r e found (not-false _ pending))

  pub reject_join_request_lem :
      (now : ℕ) (user : Principal) (id : ℕ) (reason : Option String)
      → ((actor : Actor) (r : JoinRequest)
          → require_approved_group_leader user db ≡ ok actor db
          → find_request id db ≡ some r
          → r.leader_user_id ≡ actor.id
          → request_pending r.status ≡ true
          → P (update_join_request r.id (rejected_row now actor.id reason) db))
      → Post (λ a. P) P (reject_join_request now user id reason db)
  unfolding reject_join_request
  reject_join_request_lem now user id reason k =
      Post-guard _ _ (after-require_leader user db) before λ actor e.
        Post-require_row _ _ _ before λ r found. Post-throw_if _ _ before λ tenant.
          Post-throw_if _ _ before λ owner.
            Post-return_if _ _ _ _ (λ done. Post-pure _ _ before)
              λ fresh. Post-throw_if _ _ before λ pending.
                Post-write _ _ _
                  (Post-pure _ _ (k actor r e found (ground arith) (not-false _ pending)))

  module _ (fresh : ℕ) where
    send_join_request_lem :
        (actor : Actor) (g : ProjectGroup) (message : Option String) (pending : Option JoinRequest)
        → ((not (exists (joins g.id actor.id) db.join_requests)
                && exists (is_request fresh) db.join_requests)
              ≡ false
            → P (upsert_join_request (new_join_request fresh actor g message) db))
        → Post (λ a. P) P (send_join_request fresh actor g message pending db)
    unfolding send_join_request
    send_join_request_lem actor g message (some r) k = Post-pure _ _ before
    send_join_request_lem actor g message none k = Post-throw_when _ _ _ before λ free.
        Post-write _ _ _ (Post-require_row _ _ _ (k free) λ created found. Post-pure _ _ (k free))

    pub create_join_request_lem :
        (user : Principal) (group_id : ℕ) (message : Option String)
        → ((actor : Actor) (g : ProjectGroup)
            → require_student_in_department user db ≡ ok actor db
            → find_group_for_join_request actor.tenant_id actor.department_id group_id db ≡ some g
            → is_draft g.status ≡ true
            → is_full g db ≡ false
            → (not (exists (joins g.id actor.id) db.join_requests)
                && exists (is_request fresh) db.join_requests)
              ≡ false
            → P (upsert_join_request (new_join_request fresh actor g message) db))
        → Post (λ a. P) P (create_join_request fresh user group_id message db)
    unfolding create_join_request
    create_join_request_lem user group_id message k =
        Post-guard _ _ (after-require_student user db) before λ actor e.
          Post-guard_then _ _ (after-reject_placed actor.id db) before λ placed.
            Post-require_row _ _ _ before λ g found. Post-throw_if _ _ before λ draft.
              Post-throw_when _ _ _ before λ room. Post-read _ _ _ (
                send_join_request_lem actor g message _
                  (k actor g e found (not-false _ draft) room))

    create_invitation_lem :
        (i : GroupInvitation)
        → (exists (is_invitation i.id) db.invitations ≡ false
            → P (record db { invitations = i ∷ db.invitations }))
        → Post (λ a. P) P (create_invitation i db)
    unfolding create_invitation
    create_invitation_lem i k =
        Post-throw_when _ _ _ before
          λ free. Post-throw_when _ _ _ before λ token. Post-write_last _ _ (k free)

    module _ (lower : String → String) (now sent : ℕ) (token : String) where
      send_invitation_lem :
          (g : ProjectGroup) (invited : User) (pending : Option GroupInvitation)
          → (is_reserved now g db ≡ false
              → exists (is_invitation fresh) db.invitations ≡ false
              → P (record db {
                invitations =
                    new_invitation fresh g invited.id
                      (lower invited.email)
                      token
                      (sent + invitation_lifetime)
                    ∷ db.invitations;
              }))
          → Post (λ a. P) P (send_invitation lower fresh now sent token g invited pending db)
      unfolding send_invitation
      send_invitation_lem g invited (some i) k = Post-pure _ _ before
      send_invitation_lem g invited none k = Post-throw_when _ _ _ before λ room.
          Post-then _ _ _ (create_invitation_lem _ (k room))
            λ s after_write. Post-pure _ _ after_write

      pub invite_student_lem :
          (user : Principal) (user_id : ℕ)
          → ((actor : Actor) (g : ProjectGroup) (invited : User)
              → require_approved_group_leader user db ≡ ok actor db
              → find_by_leader_user_id actor.id db ≡ some g
              → is_draft g.status ≡ true
              → require_invitable actor user_id db ≡ ok invited db
              → is_reserved now g db ≡ false
              → exists (is_invitation fresh) db.invitations ≡ false
              → P (record db {
                invitations =
                    new_invitation fresh g invited.id
                      (lower invited.email)
                      token
                      (sent + invitation_lifetime)
                    ∷ db.invitations;
              }))
          → Post (λ a. P) P (invite_student lower fresh now sent token user user_id db)
      unfolding invite_student
      invite_student_lem user user_id k =
          Post-guard _ _ (after-require_leader user db) before λ actor e.
            Post-throw_if _ _ before λ self. Post-require_row _ _ _ before λ g found.
              Post-throw_if _ _ before λ draft.
                Post-guard _ _ (after-require_invitable actor user_id db) before λ invited fit.
                  Post-read _ _ _ (
                    send_invitation_lem g invited _
                      (k actor g invited e found (not-false _ draft) fit))

    pub apply_lem :
        (user : Principal) (message : Option String)
        → ((actor : Actor)
            → exists (applied_by actor.id) db.leader_requests ≡ false
            → P (record db {
              leader_requests = new_application fresh actor message ∷ db.leader_requests;
            }))
        → Post (λ a. P) P (apply fresh user message db)
    unfolding apply
    apply_lem user message k = Post-guard _ _ (after-require_db_user user db) before λ db_user e.
        Post-throw_if _ _ before λ role. Post-require _ _ before λ department_id d.
          Post-throw_when _ _ _ before λ grouped.
            Post-throw_when _ _ _ before
              λ applied. Post-throw_when _ _ _ before λ free. Post-write_last _ _ (k _ applied)

  pub review_lem :
      (status : GroupLeaderRequestStatus) (refusal : String) (now : ℕ) (user : Principal) (id : ℕ)
      (reason : Option String)
      → ((reviewer_id : ℕ) (r : GroupLeaderRequest)
          → find (is_application id) db.leader_requests ≡ some r
          → leader_pending r.status ≡ true
          → P (update_application id (review_application status now reviewer_id reason) db))
      → Post (λ a. P) P (review status refusal now user id reason db)
  unfolding review
  review_lem status refusal now user id reason k =
      Post-guard _ _ (after-require_db_user user db) before λ db_user e.
        Post-throw_if _ _ before λ role. Post-require _ _ before λ department_id d.
          Post-require_row _ _ _ before λ existing found. Post-throw_if _ _ before λ tenant.
            Post-throw_if _ _ before
              λ pending. Post-write_last _ _ (k _ existing found (not-false _ pending))
