-- ===== src/Groups/Invariant/Reachable.antt =====
-- The invariant holds after any requests, in any order.
use academia_backend_api.Base.{String, List, [], ◌∷◌, Post-after}
use academia_backend_api.Groups.Schema.{Db}
use academia_backend_api.Groups.Leaders.{
  update_application, approve_application, reject_application,
}
use academia_backend_api.Groups.System.{
  Request, apply_as_leader, approve_leader, reject_leader, create, ask_to_join, cancel_request,
  approve_request, reject_request, invite, accept_invite, reject_invite, submit, reopen, approve,
  reject, handle, handle_all,
}
use academia_backend_api.Groups.Contracts.Offers.{apply_lem, review_lem}
use academia_backend_api.Groups.Invariant.{Inv}
use academia_backend_api.Groups.Invariant.Tables.{Inv-leader_requests}
use academia_backend_api.Groups.Invariant.Joins.{
  cancel_my_join_request-Inv, reject_join_request-Inv, approve_join_request-Inv,
  accept_invitation-Inv, reject_invitation-Inv,
}
use academia_backend_api.Groups.Invariant.Offers.{create_join_request-Inv, invite_student-Inv}
use academia_backend_api.Groups.Invariant.Reviews.{
  submit_group-Inv, reopen_group-Inv, approve_group-Inv, reject_group-Inv, create_group-Inv,
}

module _ (trim lower : String → String) where
  -- One request keeps the invariant, whether its handler returns or throws.
  pub handle-Inv : (r : Request) (db : Db) → Inv db → Inv (handle trim lower r db)
  unfolding handle approve_application reject_application update_application
  handle-Inv (apply_as_leader fresh user message) db v =
      Post-after (apply_lem Inv db v fresh user message (λ actor new. Inv-leader_requests db _ v))
  handle-Inv (approve_leader now user id) db v =
      Post-after
        (review_lem Inv db v _ _ now user id _ (λ by r found pending. Inv-leader_requests db _ v))
  handle-Inv (reject_leader now user id reason) db v = Post-after (
      review_lem Inv db v _ _ now user id reason (λ by r found pending. Inv-leader_requests db _ v))
  handle-Inv (create fresh user) db v = Post-after (create_group-Inv db v fresh user)
  handle-Inv (ask_to_join fresh user group_id message) db v =
      Post-after (create_join_request-Inv fresh user group_id message db v)
  handle-Inv (cancel_request now user id) db v =
      Post-after (cancel_my_join_request-Inv now db v user id)
  handle-Inv (approve_request now user id) db v =
      Post-after (approve_join_request-Inv now db v user id)
  handle-Inv (reject_request now user id reason) db v =
      Post-after (reject_join_request-Inv now db v user id reason)
  handle-Inv (invite fresh now sent token user user_id) db v =
      Post-after (invite_student-Inv lower fresh now sent token db v user user_id)
  handle-Inv (accept_invite now token) db v = Post-after (accept_invitation-Inv now db v trim token)
  handle-Inv (reject_invite now token) db v = Post-after (reject_invitation-Inv now db v trim token)
  handle-Inv (submit now user) db v = Post-after (submit_group-Inv db v now user)
  handle-Inv (reopen user) db v = Post-after (reopen_group-Inv db v user)
  handle-Inv (approve now user group_id) db v =
      Post-after (approve_group-Inv db v now user group_id)
  handle-Inv (reject now user group_id reason) db v =
      Post-after (reject_group-Inv db v now user group_id reason)

  -- From tables that keep the invariant, any list of requests, whether their handlers return or
  -- throw, leads to tables that keep it: nobody is in two groups or leads two, identifiers of
  -- groups, requests and invitations are unique, members belong to groups that exist, every group of
  -- more than one is within its department's maximum, submitted and approved groups are within both
  -- limits, pending join requests are for draft groups, and whoever was let in by a request or an
  -- invitation is a member of that group.
  pub handle_all-Inv : (rs : List Request) (db : Db) → Inv db → Inv (handle_all trim lower rs db)
  unfolding handle_all
  handle_all-Inv [] db v = v
  handle_all-Inv (r ∷ rs) db v = handle_all-Inv rs (handle trim lower r db) (handle-Inv r db v)
