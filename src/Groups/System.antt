-- ===== src/Groups/System.antt =====
-- The project-group handlers as one system: a request names a handler with its arguments, and
-- requests come in any order, each handled whole before the next.
use academia_backend_api.Base.{ℕ, String, Option, List, [], ◌∷◌, after}
use academia_backend_api.Accounts.{Principal}
use academia_backend_api.Groups.Schema.{Db}
use academia_backend_api.Groups.JoinRequests.{
  create_join_request, cancel_my_join_request, approve_join_request, reject_join_request,
}
use academia_backend_api.Groups.Invitations.{invite_student, accept_invitation, reject_invitation}
use academia_backend_api.Groups.Review.{
  create_group, submit_group, reopen_group, approve_group, reject_group,
}
use academia_backend_api.Groups.Leaders.{apply, approve_application, reject_application}

pub data Request : Type 0 where
  apply_as_leader : (fresh : ℕ) → Principal → Option String → Request
  approve_leader : (now : ℕ) → Principal → (id : ℕ) → Request
  reject_leader : (now : ℕ) → Principal → (id : ℕ) → Option String → Request
  create : (fresh : ℕ) → Principal → Request
  ask_to_join : (fresh : ℕ) → Principal → (group_id : ℕ) → Option String → Request
  cancel_request : (now : ℕ) → Principal → (id : ℕ) → Request
  approve_request : (now : ℕ) → Principal → (id : ℕ) → Request
  reject_request : (now : ℕ) → Principal → (id : ℕ) → Option String → Request
  invite : (fresh now sent : ℕ) → (token : String) → Principal → (user_id : ℕ) → Request
  accept_invite : (now : ℕ) → Option String → Request
  reject_invite : (now : ℕ) → Option String → Request
  submit : (now : ℕ) → Principal → Request
  reopen : Principal → Request
  approve : (now : ℕ) → Principal → (group_id : ℕ) → Request
  reject : (now : ℕ) → Principal → (group_id : ℕ) → Option String → Request

module _ (trim lower : String → String) where
  -- The state that the handler of a request leaves, whether it returned or threw.
  unfoldable pub handle : Request → Db → Db
  handle (apply_as_leader fresh user message) db = after (apply fresh user message db)
  handle (approve_leader now user id) db = after (approve_application now user id db)
  handle (reject_leader now user id reason) db = after (reject_application now user id reason db)
  handle (create fresh user) db = after (create_group fresh user db)
  handle (ask_to_join fresh user group_id message) db =
      after (create_join_request fresh user group_id message db)
  handle (cancel_request now user id) db = after (cancel_my_join_request now user id db)
  handle (approve_request now user id) db = after (approve_join_request now user id db)
  handle (reject_request now user id reason) db = after (reject_join_request now user id reason db)
  handle (invite fresh now sent token user user_id) db =
      after (invite_student lower fresh now sent token user user_id db)
  handle (accept_invite now token) db = after (accept_invitation trim now token db)
  handle (reject_invite now token) db = after (reject_invitation trim now token db)
  handle (submit now user) db = after (submit_group now user db)
  handle (reopen user) db = after (reopen_group user db)
  handle (approve now user group_id) db = after (approve_group now user group_id db)
  handle (reject now user group_id reason) db = after (reject_group now user group_id reason db)

  unfoldable pub handle_all : List Request → Db → Db
  handle_all [] db = db
  handle_all (r ∷ rs) db = handle_all rs (handle r db)
