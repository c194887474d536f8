-- ===== src/Groups/Contracts/Approve.antt =====
-- `approveJoinRequestForMyGroup`.
use academia_backend_api.Base.{
  ℕ, not, Bool, true, false, some, ◌∷◌, ◌≡◌, ◌⊎◌, inl, inr, refl, arith, ok, effects, Post,
  Post-pure, Post-guard, Post-require_row, Post-throw_if, Post-throw_when, Post-when_then_throw,
  Post-return_if, Post-write, Post-then_ok, Post-transaction, Post-map,
}
use academia_backend_api.Accounts.{Principal}
use academia_backend_api.Groups.Schema.{
  Db, ProjectGroup, JoinRequest, JoinRequestStatus, is_draft, request_pending,
}
use academia_backend_api.Groups.Access.{Actor, require_approved_group_leader}
use academia_backend_api.Groups.Queries.{
  find_group, find_by_leader_user_id, user_is_member_of_any_group, add_member, update_join_request,
  revoke_user_requests, revoke_user_invitations, decide_request,
}
use academia_backend_api.Groups.JoinRequests.{
  ApprovalAnswer, find_request, is_full, is_some, is_approved, approve_pending,
  approve_in_transaction, approve_join_request,
}
use academia_backend_api.Groups.Guards.{after-require_leader}

-- The student can join the group.
pub record Joinable (db : Db) (g : ProjectGroup) (user_id : ℕ) : Type 0 where
  pub open_ : is_draft g.status ≡ true
  pub unplaced : user_is_member_of_any_group user_id db ≡ false
  pub leads_none : is_some (find_by_leader_user_id user_id db) ≡ false
  pub room : is_full g db ≡ false

abbrev pub with_member : ℕ → ℕ → Db → Db
with_member group_id user_id db = record db {
  members = record { project_group_id = group_id; user_id = user_id } ∷ db.members;
}

-- The writes of a successful approval, in their order.
abbrev pub approved_state : ℕ → ℕ → JoinRequest → Db → Db
approved_state now by req db =
    revoke_user_invitations now req.requested_by_user_id (λ i. false)
      (revoke_user_requests now by req.requested_by_user_id req.id (
        update_join_request req.id (decide_request JoinRequestStatus.approved now by)
          (with_member req.project_group_id req.requested_by_user_id db)))

pub record Approval (now : ℕ) (user : Principal) (id : ℕ) (db : Db) (a : ApprovalAnswer) (s : Db)
    : Type 0 where
  pub actor : Actor
  pub req : JoinRequest
  pub g : ProjectGroup
  pub authorized : require_approved_group_leader user db ≡ ok actor db
  pub found : find_request id db ≡ some req
  pub group_found : find_group req.project_group_id db ≡ some g
  pub owns_request : req.leader_user_id ≡ actor.id
  pub owns_group : g.leader_user_id ≡ actor.id
  pub answered : a.request_id ≡ req.id
  pub effect :
      ((is_approved req.status ≡ true) × (a.member_added ≡ false) × (s ≡ db))
      ⊎ ((request_pending req.status ≡ true)
          × (a.member_added ≡ true)
          × Joinable db g req.requested_by_user_id
          × (s ≡ approved_state now actor.id req db))

pub add_member-ok :
    (group_id user_id : ℕ) (db : Db)
    → user_is_member_of_any_group user_id db ≡ false
    → add_member group_id user_id db ≡ ok tt (with_member group_id user_id db)
unfolding effects add_member
add_member-ok group_id user_id db h = rw h

pub not-false : (b : Bool) → not b ≡ false → b ≡ true
not-false b h = ground arith

approve_pending_lem :
    (now : ℕ) (actor : Actor) (req : JoinRequest) (g : ProjectGroup) (db : Db)
    → Post
        (λ a s.
          (a.request_id ≡ req.id)
          × (a.member_added ≡ true)
          × Joinable db g req.requested_by_user_id
          × (s ≡ approved_state now actor.id req db))
        (λ s. Unit {0})
        (approve_pending now actor req g db)
unfolding approve_pending
approve_pending_lem now actor req g db = Post-throw_if _ _ tt λ draft.
    Post-when_then_throw _ _ _ _ _ (λ t. tt)
      λ unplaced.
        Post-when_then_throw _ _ _ _ _ (λ t. tt)
          λ leads. Post-throw_when _ _ _ tt λ room.
            Post-then_ok _ _ (add_member-ok _ _ db unplaced) (
              Post-write _ _ _ (
                Post-write _ _ _ (
                  Post-write _ _ _ (
                    Post-pure _ _ (
                      refl,
                      refl,
                      record {
                        open_ = not-false _ draft;
                        unplaced = unplaced;
                        leads_none = leads;
                        room = room;
                      },
                      refl,
                    )))))

pub approve_join_request_lem :
    (now : ℕ) (user : Principal) (id : ℕ) (db : Db)
    → Post (Approval now user id db) (λ s. s ≡ db) (approve_join_request now user id db)
unfolding approve_join_request approve_in_transaction
approve_join_request_lem now user id db =
    Post-guard _ _ (after-require_leader user db) refl λ actor authorized.
      Post-transaction (λ s. Unit {0}) _ refl
        (Post-require_row _ _ _ tt λ req found. Post-require_row _ _ _ tt λ g group_found.
          Post-throw_if _ _ tt λ tenant. Post-throw_if _ _ tt λ owner.
            Post-return_if _ _ _ _
              (λ before. Post-pure _ _ (record {
                actor = actor;
                req = req;
                g = g;
                authorized = authorized;
                found = found;
                group_found = group_found;
                owns_request = ground arith;
                owns_group = ground arith;
                answered = refl;
                effect = inl (before, refl, refl);
              }))
              (λ fresh. Post-throw_if _ _ tt λ pending.
                Post-map (approve_pending_lem now actor req g db)
                  (λ a s c. record {
                    actor = actor;
                    req = req;
                    g = g;
                    authorized = authorized;
                    found = found;
                    group_found = group_found;
                    owns_request = ground arith;
                    owns_group = ground arith;
                    answered = c.0;
                    effect = inr (not-false _ pending, c.1, c.2, c.3);
                  })
                  (λ s h. tt)))
