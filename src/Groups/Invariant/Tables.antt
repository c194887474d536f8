-- ===== src/Groups/Invariant/Tables.antt =====
-- The invariant under a change of one table.
use academia_backend_api.Base.{
  ℕ, ◌≤◌, Bool, false, List, ◌≡◌, refl, arith, count, update, All, All-update, count-update,
}
use academia_backend_api.Groups.Schema.{
  Db, GroupLeaderRequest, GroupInvitation, InvitationStatus, JoinRequest, request_pending,
}
use academia_backend_api.Groups.Queries.{
  is_request, is_invitation, decide_invitation, update_invitation_status, revoke_group_invitations,
  revoke_user_invitations, update_join_request, revoke_group_requests, revoke_user_requests,
}
use academia_backend_api.Groups.JoinRequests.{is_approved}
use academia_backend_api.Groups.Invitations.{is_accepted}
use academia_backend_api.Groups.Invariant.{Inv, OpenOk, RequestJoined, InvitationJoined}

-- The applications of group leaders bear on nothing.
pub Inv-leader_requests :
    (db : Db) (xs : List GroupLeaderRequest) → Inv db → Inv (record db { leader_requests = xs })
Inv-leader_requests db xs v = ground arith

pub Inv-invitations :
    (db : Db) (xs : List GroupInvitation)
    → Inv db
    → ((id : ℕ) → count (is_invitation id) xs ≤ 1)
    → All (InvitationJoined db.members) xs
    → Inv (record db { invitations = xs })
Inv-invitations db xs v one joined = record {
  one_membership = v.one_membership;
  one_group_led = v.one_group_led;
  one_group_row = v.one_group_row;
  one_request_row = v.one_request_row;
  one_invitation_row = one;
  members_placed = v.members_placed;
  sizes = v.sizes;
  requests_open = v.requests_open;
  requests_joined = v.requests_joined;
  invitations_joined = joined;
}

pub Inv-join_requests :
    (db : Db) (xs : List JoinRequest)
    → Inv db
    → ((id : ℕ) → count (is_request id) xs ≤ 1)
    → All (OpenOk db.groups) xs
    → All (RequestJoined db.members) xs
    → Inv (record db { join_requests = xs })
Inv-join_requests db xs v one open_ joined = record {
  one_membership = v.one_membership;
  one_group_led = v.one_group_led;
  one_group_row = v.one_group_row;
  one_request_row = one;
  one_invitation_row = v.one_invitation_row;
  members_placed = v.members_placed;
  sizes = v.sizes;
  requests_open = open_;
  requests_joined = joined;
  invitations_joined = v.invitations_joined;
}

-- A decision that is no acceptance, on whatever invitations.
decide-Inv :
    (db : Db) (p : GroupInvitation → Bool) (status : InvitationStatus) (now : ℕ)
    → is_accepted status ≡ false
    → Inv db
    → Inv (record db { invitations = update p (decide_invitation status now) db.invitations })
decide-Inv db p status now plain v =
    Inv-invitations db _ v
      (λ id. omega (
        arith,
        count-update (is_invitation id) p (decide_invitation status now) (λ x. refl) db.invitations,
        v.one_invitation_row id,
      ))
      (All-update (InvitationJoined db.members) (InvitationJoined db.members) p
        (decide_invitation status now) (λ x k t a. cc) (λ x k t. k) _ v.invitations_joined)

pub revoke_group_invitations-Inv :
    (now group_id : ℕ) (db : Db) → Inv db → Inv (revoke_group_invitations now group_id db)
unfolding revoke_group_invitations
revoke_group_invitations-Inv now group_id db = decide-Inv db _ InvitationStatus.revoked now refl

pub revoke_user_invitations-Inv :
    (now user_id : ℕ) (except : GroupInvitation → Bool) (db : Db)
    → Inv db
    → Inv (revoke_user_invitations now user_id except db)
unfolding revoke_user_invitations
revoke_user_invitations-Inv now user_id except db =
    decide-Inv db _ InvitationStatus.revoked now refl

pub update_invitation_status-Inv :
    (id : ℕ) (status : InvitationStatus) (now : ℕ) (db : Db)
    → is_accepted status ≡ false
    → Inv db
    → Inv (update_invitation_status id status now db)
unfolding update_invitation_status
update_invitation_status-Inv id status now db plain = decide-Inv db _ status now plain

-- An update of requests to a status that is neither pending nor approved.
abbrev Settles : (JoinRequest → JoinRequest) → Type 0
Settles f =
    (r : JoinRequest)
    → ((f r).id ≡ r.id)
      × (request_pending (f r).status ≡ false)
      × (is_approved (f r).status ≡ false)

settle-Inv :
    (db : Db) (p : JoinRequest → Bool) (f : JoinRequest → JoinRequest)
    → Settles f
    → Inv db
    → Inv (record db { join_requests = update p f db.join_requests })
settle-Inv db p f plain v =
    Inv-join_requests db _ v
      (λ id. omega (
        arith,
        count-update (is_request id) p f (λ x. ground (arith, plain x)) db.join_requests,
        v.one_request_row id,
      ))
      (All-update (OpenOk db.groups) (OpenOk db.groups) p f (λ x k t a. ground (arith, plain x))
        (λ x k t. k) _ v.requests_open)
      (All-update (RequestJoined db.members) (RequestJoined db.members) p f
        (λ x k t a. ground (arith, plain x)) (λ x k t. k) _ v.requests_joined)

pub update_join_request-Inv :
    (id : ℕ) (f : JoinRequest → JoinRequest) (db : Db)
    → Settles f
    → Inv db
    → Inv (update_join_request id f db)
unfolding update_join_request
update_join_request-Inv id f db plain = settle-Inv db _ f plain

pub revoke_group_requests-Inv :
    (now by group_id : ℕ) (db : Db) → Inv db → Inv (revoke_group_requests now by group_id db)
unfolding revoke_group_requests
revoke_group_requests-Inv now by group_id db = settle-Inv db _ _ (λ r. (refl, refl, refl))

pub revoke_user_requests-Inv :
    (now by user_id except : ℕ) (db : Db)
    → Inv db
    → Inv (revoke_user_requests now by user_id except db)
unfolding revoke_user_requests
revoke_user_requests-Inv now by user_id except db = settle-Inv db _ _ (λ r. (refl, refl, refl))
