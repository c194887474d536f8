-- ===== src/Groups/Invariant/Joins.antt =====
-- The handlers that decide on join requests and invitations keep the invariant.
use academia_backend_api.Base.{
  ℕ, String, false, Option, ◌≡◌, refl, subst, sym, inl, inr, Post, Post-map,
}
use academia_backend_api.Accounts.{Principal}
use academia_backend_api.Groups.Schema.{Db, InvitationStatus}
use academia_backend_api.Groups.JoinRequests.{
  ApprovalAnswer, cancel_my_join_request, approve_join_request, reject_join_request,
}
use academia_backend_api.Groups.Invitations.{accept_invitation, reject_invitation}
use academia_backend_api.Groups.Contracts.Approve.{Approval, with_member, approve_join_request_lem}
use academia_backend_api.Groups.Contracts.Accept.{
  Acceptance, Refusal, accept_invitation_lem, reject_invitation_lem,
}
use academia_backend_api.Groups.Contracts.Offers.{
  cancel_my_join_request_lem, reject_join_request_lem,
}
use academia_backend_api.Groups.Invariant.{Inv}
use academia_backend_api.Groups.Invariant.Rows.{is_member-row}
use academia_backend_api.Groups.Invariant.Tables.{
  update_join_request-Inv, update_invitation_status-Inv, revoke_user_requests-Inv,
  revoke_user_invitations-Inv,
}
use academia_backend_api.Groups.Invariant.Members.{with_member-Inv, approve_row-Inv, accept_row-Inv}

module _ (now : ℕ) (db : Db) (v : Inv db) where
  unchanged : (s : Db) → s ≡ db → Inv s
  unchanged s same = subst Inv (sym same) v

  pub cancel_my_join_request-Inv :
      (user : Principal) (id : ℕ) → Post (λ a s. Inv s) Inv (cancel_my_join_request now user id db)
  cancel_my_join_request-Inv user id =
      cancel_my_join_request_lem Inv db v now user id
        λ actor r e found pending. update_join_request-Inv _ _ _ (λ x. (refl, refl, refl)) v

  pub reject_join_request-Inv :
      (user : Principal) (id : ℕ) (reason : Option String)
      → Post (λ a s. Inv s) Inv (reject_join_request now user id reason db)
  reject_join_request-Inv user id reason =
      reject_join_request_lem Inv db v now user id reason
        λ actor r e found owner pending. update_join_request-Inv _ _ _ (λ x. (refl, refl, refl)) v

  Approval-Inv :
      (user : Principal) (id : ℕ) (a : ApprovalAnswer) (s : Db)
      → Approval now user id db a s
      → Inv s
  Approval-Inv user id a s c = elim c.effect [
    | inl before ↦ unchanged s before.2
    | inr new ↦ subst Inv (sym new.3) (
        revoke_user_invitations-Inv now c.req.requested_by_user_id (λ i. false) _
          (revoke_user_requests-Inv now c.actor.id c.req.requested_by_user_id c.req.id _ (
            approve_row-Inv id now c.actor.id c.req
              (with_member c.req.project_group_id c.req.requested_by_user_id db) c.found
              (is_member-row db.members c.req.project_group_id c.req.requested_by_user_id)
              (with_member-Inv c.req.project_group_id c.req.requested_by_user_id c.g db
                c.group_found new.2 v))))
  ]

  pub approve_join_request-Inv :
      (user : Principal) (id : ℕ) → Post (λ a s. Inv s) Inv (approve_join_request now user id db)
  approve_join_request-Inv user id =
      Post-map (approve_join_request_lem now user id db) (Approval-Inv user id) unchanged

  module _ (trim : String → String) (given : Option String) where
    Acceptance-Inv : (a : ℕ) (s : Db) → Acceptance trim now given db a s → Inv s
    Acceptance-Inv a s c = elim c.effect [
      | inl before ↦ unchanged s before.1
      | inr new ↦ subst Inv (sym new.3) (
          revoke_user_invitations-Inv now c.i.invited_user_id _ _ (
            accept_row-Inv now _ c.i (with_member c.i.project_group_id c.i.invited_user_id db)
              c.named.found (is_member-row db.members c.i.project_group_id c.i.invited_user_id)
              (with_member-Inv c.i.project_group_id c.i.invited_user_id c.g db c.named.group_found
                new.2 v)))
    ]

    pub accept_invitation-Inv : Post (λ a s. Inv s) Inv (accept_invitation trim now given db)
    accept_invitation-Inv =
        Post-map (accept_invitation_lem trim now given db) Acceptance-Inv unchanged

    Refusal-Inv : (a : ℕ) (s : Db) → Refusal trim now given db a s → Inv s
    Refusal-Inv a s c = elim c.effect [
      | inl before ↦ unchanged s before.1
      | inr new ↦
          subst Inv (sym new.2)
            (update_invitation_status-Inv c.i.id InvitationStatus.rejected now db refl v)
    ]

    pub reject_invitation-Inv : Post (λ a s. Inv s) Inv (reject_invitation trim now given db)
    reject_invitation-Inv = Post-map (reject_invitation_lem trim now given db) Refusal-Inv unchanged
