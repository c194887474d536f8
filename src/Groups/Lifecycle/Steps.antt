-- ===== src/Groups/Lifecycle/Steps.antt =====
-- Every request moves every group along the diagram.
use academia_backend_api.Base.{
  ℕ, String, Bool, true, Option, some, ◌≡◌, refl, sym, subst, inl, inr, find, update,
  find_of_unique, eq→==, Post-map, Post-after,
}
use academia_backend_api.Accounts.{Principal}
use academia_backend_api.Groups.Schema.{
  Db, ProjectGroup, GroupStatus, is_draft, is_submitted, is_rejected,
}
use academia_backend_api.Groups.Access.{Actor}
use academia_backend_api.Groups.Queries.{
  has_id, find_group_for_review, update_join_request, revoke_user_requests, revoke_user_invitations,
  update_invitation_status, upsert_join_request, update_group, revoke_group_invitations,
  revoke_group_requests,
}
use academia_backend_api.Groups.JoinRequests.{ApprovalAnswer}
use academia_backend_api.Groups.Leaders.{
  approve_application, reject_application, update_application,
}
use academia_backend_api.Groups.Review.{
  SubmitAnswer, submitted_group, reopened_group, approved_group, rejected_group, new_group,
}
use academia_backend_api.Groups.System.{
  Request, apply_as_leader, approve_leader, reject_leader, create, ask_to_join, cancel_request,
  approve_request, reject_request, invite, accept_invite, reject_invite, submit, reopen, approve,
  reject, handle,
}
use academia_backend_api.Groups.Contracts.Approve.{Approval, approve_join_request_lem}
use academia_backend_api.Groups.Contracts.Accept.{
  Acceptance, Refusal, accept_invitation_lem, reject_invitation_lem,
}
use academia_backend_api.Groups.Contracts.Closing.{closed_state}
use academia_backend_api.Groups.Contracts.Review.{
  Submission, submit_group_lem, Reopening, reopen_group_lem, GroupApproval, approve_group_lem,
  Creation, create_group_lem, Reviewed,
}
use academia_backend_api.Groups.Contracts.Reject.{GroupRejection, reject_group_lem}
use academia_backend_api.Groups.Contracts.Offers.{
  cancel_my_join_request_lem, reject_join_request_lem, create_join_request_lem, invite_student_lem,
  apply_lem, review_lem,
}
use academia_backend_api.Groups.Invariant.{Inv}
use academia_backend_api.Groups.Lifecycle.{◌⟶◌, stay, Moved, Evolves}
use academia_backend_api.Groups.Lifecycle
use academia_backend_api.Groups.Lifecycle.Rows.{
  Evolves-refl, Evolves-join, Evolves-update, Evolves-create,
}

from_draft : (s : GroupStatus) → is_draft s ≡ true → s ⟶ GroupStatus.submitted
from_draft GroupStatus.draft h = Lifecycle.submit
from_draft _ h = cc

from_rejected : (s : GroupStatus) → is_rejected s ≡ true → s ⟶ GroupStatus.draft
from_rejected GroupStatus.rejected h = Lifecycle.reopen
from_rejected _ h = cc

from_submitted :
    (s : GroupStatus)
    → is_submitted s ≡ true
    → (s ⟶ GroupStatus.approved) × (s ⟶ GroupStatus.rejected)
from_submitted GroupStatus.submitted h = (Lifecycle.approve, Lifecycle.reject)
from_submitted _ h = (cc, cc)

-- From one state of the tables to another.
abbrev pub Evolution : Db → Db → Type 0
Evolution db s = Evolves db.groups db.members s.groups s.members

module _ (db : Db) where
  still : (s : Db) → s ≡ db → Evolution db s
  still s same = subst (Evolution db) (sym same) (Evolves-refl db.groups db.members)

  approve-step :
      (now : ℕ) (user : Principal) (id : ℕ) (a : ApprovalAnswer) (s : Db)
      → Approval now user id db a s
      → Evolution db s
  unfolding update_join_request revoke_user_requests revoke_user_invitations
  approve-step now user id a s c = elim c.effect [
    | inl before ↦ still s before.2
    | inr new ↦ subst (Evolution db) (sym new.3) (
        Evolves-join db.groups db.members c.req.project_group_id c.req.requested_by_user_id c.g
          c.group_found new.2.open_)
  ]

  accept-step :
      (trim : String → String) (now : ℕ) (given : Option String) (a : ℕ) (s : Db)
      → Acceptance trim now given db a s
      → Evolution db s
  unfolding update_invitation_status revoke_user_invitations
  accept-step trim now given a s c = elim c.effect [
    | inl before ↦ still s before.1
    | inr new ↦ subst (Evolution db) (sym new.3) (
        Evolves-join db.groups db.members c.i.project_group_id c.i.invited_user_id c.g
          c.named.group_found c.named.open_)
  ]

  refuse-step :
      (trim : String → String) (now : ℕ) (given : Option String) (a : ℕ) (s : Db)
      → Refusal trim now given db a s
      → Evolution db s
  unfolding update_invitation_status
  refuse-step trim now given a s c = elim c.effect [
    | inl before ↦ still s before.1
    | inr new ↦ subst (Evolution db) (sym new.2) (Evolves-refl db.groups db.members)
  ]

  module _ (v : Inv db) where
    -- A rewriting of the row that was found by any condition.
    rewrite-step :
        (g : ProjectGroup) (f : ProjectGroup → ProjectGroup) (p : ProjectGroup → Bool)
        → ((y : ProjectGroup)
            → ((f y).id ≡ y.id)
              × ((f y).leader_user_id ≡ y.leader_user_id)
              × ((f y).department_id ≡ y.department_id))
        → find p db.groups ≡ some g
        → g.status ⟶ (f g).status
        → Evolves db.groups db.members (update (has_id g.id) f db.groups) db.members
    rewrite-step g f p keeps found = Evolves-update db.groups db.members g f keeps (
        find_of_unique p (has_id g.id) db.groups (v.one_group_row g.id) found
          (eq→== g.id g.id refl))

    submit-step :
        (now : ℕ) (user : Principal) (a : SubmitAnswer) (s : Db)
        → Submission now user db a s
        → Evolution db s
    unfolding update_group revoke_group_requests revoke_group_invitations
    submit-step now user a s c = elim c.effect [
      | inl before ↦ still s before.1
      | inr new ↦ subst (Evolution db) (sym new.6) (
          rewrite-step c.g (submitted_group now) _ (λ y. (refl, refl, refl)) c.group_found
            (from_draft c.g.status new.0))
    ]

    reopen-step : (user : Principal) (s : Db) → Reopening user db s → Evolution db s
    unfolding update_group
    reopen-step user s c = subst (Evolution db) (sym c.effect) (
        rewrite-step c.g reopened_group _ (λ y. (refl, refl, refl)) c.group_found
          (from_rejected c.g.status c.was_rejected))

    -- A reviewer's decision on a submitted group.
    review-step :
        (now : ℕ) (user : Principal) (group_id : ℕ) (reviewer : Actor) (g : ProjectGroup)
        (f : ProjectGroup → ProjectGroup) (s : Db)
        → Reviewed user group_id db reviewer g
        → ((y : ProjectGroup)
            → ((f y).id ≡ y.id)
              × ((f y).leader_user_id ≡ y.leader_user_id)
              × ((f y).department_id ≡ y.department_id))
        → g.status ⟶ (f g).status
        → s ≡ closed_state now reviewer.id g.id f db
        → Evolution db s
    unfolding update_group revoke_group_requests revoke_group_invitations find_group_for_review
    review-step now user group_id reviewer g f s reviewed keeps edge same =
        subst (Evolution db) (sym same) (rewrite-step g f _ keeps reviewed.group_found edge)

    approve_group-step :
        (now : ℕ) (user : Principal) (group_id : ℕ) (s : Db)
        → GroupApproval now user group_id db s
        → Evolution db s
    approve_group-step now user group_id s c =
        review-step now user group_id c.reviewer c.g (approved_group now c.reviewer.id) s c.reviewed
          (λ y. (refl, refl, refl)) (from_submitted c.g.status c.reviewed.was_submitted).0 c.effect

    reject_group-step :
        (now : ℕ) (user : Principal) (group_id : ℕ) (reason : Option String) (s : Db)
        → GroupRejection now user group_id reason db s
        → Evolution db s
    reject_group-step now user group_id reason s c =
        review-step now user group_id c.reviewer c.g (rejected_group now c.reviewer.id reason) s
          c.reviewed (λ y. (refl, refl, refl))
          (from_submitted c.g.status c.reviewed.was_submitted).1 c.effect

  create-step : (fresh : ℕ) (user : Principal) (s : Db) → Creation fresh user db s → Evolution db s
  create-step fresh user s c =
      subst (Evolution db) (sym c.effect)
        (Evolves-create db.groups db.members (new_group fresh c.actor) c.new_id)

module _ (trim lower : String → String) where
  -- From tables that keep the invariant, every request leaves every group where it was or moves it
  -- along one edge of the diagram, under the same leader and department, and the members of a group
  -- that is no draft are neither more nor fewer.
  pub handle-Evolution : (r : Request) (db : Db) → Inv db → Evolution db (handle trim lower r db)
  unfolding handle approve_application reject_application update_application update_join_request
      upsert_join_request
  handle-Evolution (apply_as_leader fresh user message) db v = Post-after (
      apply_lem (Evolution db) db (Evolves-refl db.groups db.members) fresh user message
        (λ actor new. Evolves-refl db.groups db.members))
  handle-Evolution (approve_leader now user id) db v = Post-after (
      review_lem (Evolution db) db (Evolves-refl db.groups db.members) _ _ now user id _
        (λ by r found pending. Evolves-refl db.groups db.members))
  handle-Evolution (reject_leader now user id reason) db v = Post-after (
      review_lem (Evolution db) db (Evolves-refl db.groups db.members) _ _ now user id reason
        (λ by r found pending. Evolves-refl db.groups db.members))
  handle-Evolution (create fresh user) db v =
      Post-after
        (Post-map (create_group_lem fresh user db) (λ a. create-step db fresh user) (still db))
  handle-Evolution (ask_to_join fresh user group_id message) db v = Post-after (
      create_join_request_lem (Evolution db) db (Evolves-refl db.groups db.members) fresh user
        group_id message (λ actor g e found draft room free. Evolves-refl db.groups db.members))
  handle-Evolution (cancel_request now user id) db v = Post-after (
      cancel_my_join_request_lem (Evolution db) db (Evolves-refl db.groups db.members) now user id
        (λ actor r e found pending. Evolves-refl db.groups db.members))
  handle-Evolution (approve_request now user id) db v =
      Post-after (
        Post-map (approve_join_request_lem now user id db) (approve-step db now user id) (still db))
  handle-Evolution (reject_request now user id reason) db v = Post-after (
      reject_join_request_lem (Evolution db) db (Evolves-refl db.groups db.members) now user id
        reason (λ actor r e found owner pending. Evolves-refl db.groups db.members))
  handle-Evolution (invite fresh now sent token user user_id) db v = Post-after (
      invite_student_lem (Evolution db) db (Evolves-refl db.groups db.members) fresh lower now sent
        token user user_id
        (λ actor g invited e found draft fit room free. Evolves-refl db.groups db.members))
  handle-Evolution (accept_invite now token) db v = Post-after (
      Post-map (accept_invitation_lem trim now token db) (accept-step db trim now token) (still db))
  handle-Evolution (reject_invite now token) db v = Post-after (
      Post-map (reject_invitation_lem trim now token db) (refuse-step db trim now token) (still db))
  handle-Evolution (submit now user) db v =
      Post-after (Post-map (submit_group_lem now user db) (submit-step db v now user) (still db))
  handle-Evolution (reopen user) db v =
      Post-after (Post-map (reopen_group_lem user db) (λ a. reopen-step db v user) (still db))
  handle-Evolution (approve now user group_id) db v = Post-after (
      Post-map (approve_group_lem now user group_id db)
        (λ a. approve_group-step db v now user group_id) (still db))
  handle-Evolution (reject now user group_id reason) db v = Post-after (
      Post-map (reject_group_lem now user group_id reason db)
        (λ a. reject_group-step db v now user group_id reason) (still db))
