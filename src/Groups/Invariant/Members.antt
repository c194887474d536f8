-- ===== src/Groups/Invariant/Members.antt =====
-- The invariant when a student joins, and when the request or invitation that led to it is marked.
use academia_backend_api.Base.{
  ℕ, ◌≤◌, Bool, true, false, none, some, List, ◌∷◌, ◌≡◌, refl, subst, arith, ◌==◌, find, count,
  All-map, All-zip, All-update, count-update, count-find-none, find_unique, find_of_unique, ==→eq,
  eq→==, Bool-cases, inl, inr,
}
use academia_backend_api.Groups.Schema.{
  Db, ProjectGroup, GroupMember, GroupInvitation, InvitationStatus, JoinRequest, JoinRequestStatus,
}
use academia_backend_api.Groups.Queries.{
  has_id, is_user, is_request, is_invitation, find_group, user_is_member_of_any_group,
  decide_request, decide_invitation, update_join_request, update_invitation_status,
}
use academia_backend_api.Groups.JoinRequests.{find_request}
use academia_backend_api.Groups.Contracts.Approve.{Joinable, with_member}
use academia_backend_api.Groups.Invariant.{
  Inv, OpenOk, RequestJoined, InvitationJoined, is_member, is_group,
}
use academia_backend_api.Groups.Invariant.Rows.{row, sizes-add_member, is_member-cons}
use academia_backend_api.Groups.Invariant.Tables.{Inv-invitations, Inv-join_requests}

find-none :
    (user_id : ℕ) (db : Db)
    → user_is_member_of_any_group user_id db ≡ false
    → find (is_user user_id) db.members ≡ none
find-none user_id db h = ground arith

one_membership-cons :
    (group_id user_id : ℕ) (members : List GroupMember)
    → find (is_user user_id) members ≡ none
    → ((u : ℕ) → count (is_user u) members ≤ 1)
    → (u : ℕ) → count (is_user u) (row group_id user_id ∷ members) ≤ 1
unfolding count
one_membership-cons group_id user_id members h one u = elim (Bool-cases (user_id == u)) [
  | inl t ↦
      let absent : count (is_user u) members ≡ 0 =
        subst (λ w. count (is_user w) members ≡ 0) (==→eq user_id u t)
          (count-find-none (is_user user_id) members h) in
      rw (t, absent) (omega arith)
  | inr t ↦ rw t (one u)
]

is_group_found :
    (id : ℕ) (groups : List ProjectGroup) (g : ProjectGroup)
    → find (has_id id) groups ≡ some g
    → is_group groups id ≡ true
unfolding is_group
is_group_found id groups g found = ground arith

pub with_member-Inv :
    (group_id user_id : ℕ) (g : ProjectGroup) (db : Db)
    → find_group group_id db ≡ some g
    → Joinable db g user_id
    → Inv db
    → Inv (with_member group_id user_id db)
with_member-Inv group_id user_id g db found j v = record {
  one_membership =
      one_membership-cons group_id user_id db.members (find-none user_id db j.unplaced)
        v.one_membership;
  one_group_led = v.one_group_led;
  one_group_row = v.one_group_row;
  one_request_row = v.one_request_row;
  one_invitation_row = v.one_invitation_row;
  members_placed = (is_group_found group_id db.groups g found, v.members_placed);
  sizes =
      sizes-add_member db.size_settings db.members db.groups group_id user_id g
        (v.one_group_row group_id) found j.open_ j.room v.sizes;
  requests_open = v.requests_open;
  requests_joined =
      All-map _ _ (λ r h a. is_member-cons db.members _ _ _ (h a)) db.join_requests
        v.requests_joined;
  invitations_joined =
      All-map _ _ (λ i h a. is_member-cons db.members _ _ _ (h a)) db.invitations
        v.invitations_joined;
}

-- A request may be marked as approved once its student is a member.
pub approve_row-Inv :
    (id now by : ℕ) (req : JoinRequest) (db : Db)
    → find_request id db ≡ some req
    → is_member db.members req.project_group_id req.requested_by_user_id ≡ true
    → Inv db
    → Inv (update_join_request req.id (decide_request JoinRequestStatus.approved now by) db)
unfolding update_join_request
approve_row-Inv id now by req db found joined v =
    let f : JoinRequest → JoinRequest = decide_request JoinRequestStatus.approved now by in
    let here : find (is_request req.id) db.join_requests ≡ some req =
      find_of_unique _ _ db.join_requests (v.one_request_row req.id) found
        (eq→== req.id req.id refl) in
    Inv-join_requests db _ v
      (λ j. omega (
        arith,
        count-update (is_request j) (is_request req.id) f (λ x. refl) db.join_requests,
        v.one_request_row j,
      ))
      (All-update (OpenOk db.groups) (OpenOk db.groups) _ f (λ x k t a. cc) (λ x k t. k) _
        v.requests_open)
      (All-update (λ r. RequestJoined db.members r × (is_request req.id r ≡ true → r ≡ req))
        (RequestJoined db.members) _ f (λ r k t a. rw (k.1 t) joined) (λ r k t. k.0) _
        (All-zip _ _ _ (λ r a b. (a, b)) _ v.requests_joined
          (find_unique _ _ (v.one_request_row req.id) here)))

-- An invitation may be marked as accepted once the invited user is a member.
pub accept_row-Inv :
    (now : ℕ) (p : GroupInvitation → Bool) (i : GroupInvitation) (db : Db)
    → find p db.invitations ≡ some i
    → is_member db.members i.project_group_id i.invited_user_id ≡ true
    → Inv db
    → Inv (update_invitation_status i.id InvitationStatus.accepted now db)
unfolding update_invitation_status
accept_row-Inv now p i db found joined v =
    let f : GroupInvitation → GroupInvitation = decide_invitation InvitationStatus.accepted now in
    let here : find (is_invitation i.id) db.invitations ≡ some i =
      find_of_unique _ _ db.invitations (v.one_invitation_row i.id) found (eq→== i.id i.id refl) in
    Inv-invitations db _ v
      (λ j. omega (
        arith,
        count-update (is_invitation j) (is_invitation i.id) f (λ x. refl) db.invitations,
        v.one_invitation_row j,
      ))
      (All-update (λ r. InvitationJoined db.members r × (is_invitation i.id r ≡ true → r ≡ i))
        (InvitationJoined db.members) _ f (λ r k t a. rw (k.1 t) joined) (λ r k t. k.0) _
        (All-zip _ _ _ (λ r a b. (a, b)) _ v.invitations_joined
          (find_unique _ _ (v.one_invitation_row i.id) here)))
