-- ===== src/Groups/Invariant/Reviews.antt =====
-- The handlers of the review workflow and of the leaders' applications keep the invariant.
use academia_backend_api.Base.{
  ℕ, String, Bool, false, Option, some, List, ◌≡◌, ◌∙◌, refl, subst, sym, arith, inl, inr, find,
  count, update, All, All-map, All-zip, All-updated, count-update, find-condition, find_of_unique,
  eq→==, Post, Post-map,
}
use academia_backend_api.Accounts.{Principal}
use academia_backend_api.Groups.Schema.{Db, ProjectGroup, JoinRequest, JoinRequestStatus}
use academia_backend_api.Groups.Access.{Actor}
use academia_backend_api.Groups.Queries.{
  has_id, led_by, is_in_group, pending_for_group, find_group_for_review, revoke_group_invitations,
  revoke_group_requests, update_group, decide_request,
}
use academia_backend_api.Groups.Review.{
  SubmitAnswer, submitted_group, submit_group, reopened_group, reopen_group, approved_group,
  rejected_group, approve_group, reject_group, create_group, new_group,
}
use academia_backend_api.Groups.Contracts.Closing.{closed_state}
use academia_backend_api.Groups.Contracts.Review.{
  Sized, Submission, submit_group_lem, Reopening, reopen_group_lem, GroupApproval,
  approve_group_lem, Creation, create_group_lem,
}
use academia_backend_api.Groups.Contracts.Reject.{GroupRejection, reject_group_lem}
use academia_backend_api.Groups.Invariant.{Inv, SizeOk, OpenOk, is_group}
use academia_backend_api.Groups.Invariant.Rows.{
  sizes-settle, sizes-unsettle, is_draft_group-update_ne, is_draft_group-update_draft,
  is_draft_group-cons, is_group-update, is_group-cons, count_members_of_none,
}
use academia_backend_api.Groups.Invariant.Offers.{one-cons}
use academia_backend_api.Groups.Invariant.Tables.{
  revoke_group_invitations-Inv, revoke_group_requests-Inv,
}

-- After the revocation no request for the group is pending.
abbrev NoneFor : ℕ → JoinRequest → Type 0
NoneFor group_id r = pending_for_group group_id r ≡ false

none_pending :
    (now by group_id : ℕ) (db : Db)
    → All (NoneFor group_id) (revoke_group_requests now by group_id db).join_requests
unfolding revoke_group_requests
none_pending now by group_id db =
    All-updated (NoneFor group_id) (pending_for_group group_id)
      (decide_request JoinRequestStatus.revoked now by) (λ r t. ground arith) (λ r t. t)
      db.join_requests

-- A group with no pending requests may take any new row that keeps identifier, leader and
-- department and whose size, if the row is settled, has been checked.
update_group-Inv :
    (id : ℕ) (f : ProjectGroup → ProjectGroup) (db : Db)
    → ((y : ProjectGroup) → ((f y).id ≡ y.id) × ((f y).leader_user_id ≡ y.leader_user_id))
    → All (OpenOk (update (has_id id) f db.groups)) db.join_requests
    → All (SizeOk db.size_settings db.members) (update (has_id id) f db.groups)
    → Inv db
    → Inv (update_group id f db)
unfolding update_group
update_group-Inv id f db keeps open_ sizes v = record {
  one_membership = v.one_membership;
  one_group_led = λ u. omega (
    arith,
    count-update (led_by u) (has_id id) f (λ y. ground (arith, keeps y)) db.groups,
    v.one_group_led u,
  );
  one_group_row = λ j. omega (
    arith,
    count-update (has_id j) (has_id id) f (λ y. ground (arith, keeps y)) db.groups,
    v.one_group_row j,
  );
  one_request_row = v.one_request_row;
  one_invitation_row = v.one_invitation_row;
  members_placed =
      All-map _ _ (λ m h. is_group-update db.groups f (λ y. (keeps y).0) id m.project_group_id ∙ h)
        db.members v.members_placed;
  sizes = sizes;
  requests_open = open_;
  requests_joined = v.requests_joined;
  invitations_joined = v.invitations_joined;
}

closed_open :
    (id : ℕ) (f : ProjectGroup → ProjectGroup) (groups : List ProjectGroup)
    (requests : List JoinRequest)
    → ((y : ProjectGroup) → (f y).id ≡ y.id)
    → All (NoneFor id) requests
    → All (OpenOk groups) requests
    → All (OpenOk (update (has_id id) f groups)) requests
closed_open id f groups requests keeps =
    All-zip (NoneFor id) (OpenOk groups) (OpenOk (update (has_id id) f groups))
      (λ r h k a.
        rw (is_draft_group-update_ne groups f keeps id r.project_group_id (ground arith)) (k a))
      requests

-- Closing a group, with the sizes checked for the new row.
closed_state-Inv :
    (now by id : ℕ) (f : ProjectGroup → ProjectGroup) (db : Db)
    → ((y : ProjectGroup) → ((f y).id ≡ y.id) × ((f y).leader_user_id ≡ y.leader_user_id))
    → All (SizeOk db.size_settings db.members) (update (has_id id) f db.groups)
    → Inv db
    → Inv (closed_state now by id f db)
unfolding revoke_group_requests revoke_group_invitations
closed_state-Inv now by id f db keeps sizes v =
    let w : Inv (revoke_group_requests now by id (revoke_group_invitations now id db)) =
      revoke_group_requests-Inv now by id _ (revoke_group_invitations-Inv now id db v) in
    update_group-Inv id f _ keeps
      (closed_open id f db.groups _ (λ y. (keeps y).0)
        (none_pending now by id (revoke_group_invitations now id db)) w.requests_open)
      sizes w

module _ (db : Db) (v : Inv db) where
  unchanged : (s : Db) → s ≡ db → Inv s
  unchanged s same = subst Inv (sym same) v

  -- A settled row of the group that was measured.
  settled :
      (g : ProjectGroup) (f : ProjectGroup → ProjectGroup) (p : ProjectGroup → Bool)
      (department_id : ℕ)
      → ((y : ProjectGroup) → ((f y).id ≡ y.id) × ((f y).department_id ≡ y.department_id))
      → find p db.groups ≡ some g
      → department_id ≡ g.department_id
      → Sized db g.id department_id
      → All (SizeOk db.size_settings db.members) (update (has_id g.id) f db.groups)
  settled g f p department_id keeps found same sized =
      let s : Sized db g.id g.department_id = subst (Sized db g.id) same sized in
      sizes-settle db.size_settings db.members db.groups g f keeps (v.one_group_row g.id)
        (find_of_unique p (has_id g.id) db.groups (v.one_group_row g.id) found
          (eq→== g.id g.id refl))
        s.least s.most v.sizes

  Submission-Inv :
      (now : ℕ) (user : Principal) (a : SubmitAnswer) (s : Db) → Submission now user db a s → Inv s
  Submission-Inv now user a s c = elim c.effect [
    | inl before ↦ unchanged s before.1
    | inr new ↦ subst Inv (sym new.6) (
        closed_state-Inv now c.actor.id c.g.id (submitted_group now) db (λ y. (refl, refl))
          (settled c.g (submitted_group now) _ c.g.department_id (λ y. (refl, refl)) c.group_found
            refl new.1)
          v)
  ]

  pub submit_group-Inv :
      (now : ℕ) (user : Principal) → Post (λ a s. Inv s) Inv (submit_group now user db)
  submit_group-Inv now user =
      Post-map (submit_group_lem now user db) (Submission-Inv now user) unchanged

  Reopening-Inv : (user : Principal) (s : Db) → Reopening user db s → Inv s
  Reopening-Inv user s c = subst Inv (sym c.effect) (
      update_group-Inv c.g.id reopened_group db (λ y. (refl, refl))
        (All-map _ _
          (λ r h k.
            is_draft_group-update_draft db.groups reopened_group (λ y. (refl, refl)) c.g.id
              r.project_group_id (h k))
          db.join_requests v.requests_open)
        (sizes-unsettle db.size_settings db.members db.groups c.g.id reopened_group
          (λ y. (refl, refl, refl)) v.sizes)
        v)

  pub reopen_group-Inv : (user : Principal) → Post (λ a s. Inv s) Inv (reopen_group user db)
  reopen_group-Inv user = Post-map (reopen_group_lem user db) (λ a. Reopening-Inv user) unchanged

  -- The group under review belongs to the reviewer's department.
  same_department :
      (reviewer : Actor) (group_id : ℕ) (g : ProjectGroup)
      → find_group_for_review reviewer.tenant_id reviewer.department_id group_id db ≡ some g
      → reviewer.department_id ≡ g.department_id
  unfolding find_group_for_review
  same_department reviewer group_id g found = ground (arith, find-condition _ db.groups found)

  found_in :
      (reviewer : Actor) (group_id : ℕ) (g : ProjectGroup)
      → find_group_for_review reviewer.tenant_id reviewer.department_id group_id db ≡ some g
      → (p : ProjectGroup → Bool) × (find p db.groups ≡ some g)
  unfolding find_group_for_review
  found_in reviewer group_id g found = (_, found)

  GroupApproval-Inv :
      (now : ℕ) (user : Principal) (group_id : ℕ) (s : Db)
      → GroupApproval now user group_id db s
      → Inv s
  GroupApproval-Inv now user group_id s c =
      let (p, found) = found_in c.reviewer group_id c.g c.reviewed.group_found in
      subst Inv (sym c.effect) (
        closed_state-Inv now c.reviewer.id c.g.id (approved_group now c.reviewer.id) db
          (λ y. (refl, refl))
          (settled c.g (approved_group now c.reviewer.id) p c.reviewer.department_id
            (λ y. (refl, refl)) found
            (same_department c.reviewer group_id c.g c.reviewed.group_found) c.sized)
          v)

  pub approve_group-Inv :
      (now : ℕ) (user : Principal) (group_id : ℕ)
      → Post (λ a s. Inv s) Inv (approve_group now user group_id db)
  approve_group-Inv now user group_id =
      Post-map (approve_group_lem now user group_id db) (λ a. GroupApproval-Inv now user group_id)
        unchanged

  GroupRejection-Inv :
      (now : ℕ) (user : Principal) (group_id : ℕ) (reason : Option String) (s : Db)
      → GroupRejection now user group_id reason db s
      → Inv s
  GroupRejection-Inv now user group_id reason s c = subst Inv (sym c.effect) (
      closed_state-Inv now c.reviewer.id c.g.id (rejected_group now c.reviewer.id reason) db
        (λ y. (refl, refl))
        (sizes-unsettle db.size_settings db.members db.groups c.g.id
          (rejected_group now c.reviewer.id reason) (λ y. (refl, refl, refl)) v.sizes)
        v)

  -- A new group has no members yet, so its size is 1.
  Creation-Inv : (fresh : ℕ) (user : Principal) (s : Db) → Creation fresh user db s → Inv s
  unfolding is_group
  Creation-Inv fresh user s c =
      let g : ProjectGroup = new_group fresh c.actor in
      let empty : count (is_in_group fresh) db.members ≡ 0 =
        count_members_of_none db.groups db.members fresh c.new_id v.members_placed in
      subst Inv (sym c.effect) (record {
        one_membership = v.one_membership;
        one_group_led =
            one-cons (λ (y : ProjectGroup). y.leader_user_id) g db.groups c.led_none
              v.one_group_led;
        one_group_row = one-cons (λ (y : ProjectGroup). y.id) g db.groups c.new_id v.one_group_row;
        one_request_row = v.one_request_row;
        one_invitation_row = v.one_invitation_row;
        members_placed =
            All-map _ _ (λ m h. is_group-cons g db.groups m.project_group_id h) db.members
              v.members_placed;
        sizes = ((λ large. absurd (omega arith), λ k. cc), v.sizes);
        requests_open =
            All-map _ _ (λ r h k. is_draft_group-cons g db.groups r.project_group_id refl (h k))
              db.join_requests v.requests_open;
        requests_joined = v.requests_joined;
        invitations_joined = v.invitations_joined;
      })

  pub create_group-Inv :
      (fresh : ℕ) (user : Principal) → Post (λ a s. Inv s) Inv (create_group fresh user db)
  create_group-Inv fresh user =
      Post-map (create_group_lem fresh user db) (λ a. Creation-Inv fresh user) unchanged

  pub reject_group-Inv :
      (now : ℕ) (user : Principal) (group_id : ℕ) (reason : Option String)
      → Post (λ a s. Inv s) Inv (reject_group now user group_id reason db)
  reject_group-Inv now user group_id reason =
      Post-map (reject_group_lem now user group_id reason db)
        (λ a. GroupRejection-Inv now user group_id reason) unchanged
