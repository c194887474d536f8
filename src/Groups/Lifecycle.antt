-- ===== src/Groups/Lifecycle.antt =====
-- The life of a group: the diagram of its status, and the freezing of its members.
pub mod Rows
pub mod Steps
pub mod Final
use academia_backend_api.Base.{ℕ, Bool, true, false, List, some, ◌≡◌, find}
use academia_backend_api.Groups.Schema.{ProjectGroup, GroupStatus, GroupMember, is_draft}
use academia_backend_api.Groups.Queries.{has_id}
use academia_backend_api.Groups.Invariant.{is_member}

infix 40 ◌⟶◌
pub data ◌⟶◌ : GroupStatus → GroupStatus → Type 0 where
  stay : {s : GroupStatus} → s ⟶ s
  submit : GroupStatus.draft ⟶ GroupStatus.submitted
  approve : GroupStatus.submitted ⟶ GroupStatus.approved
  reject : GroupStatus.submitted ⟶ GroupStatus.rejected
  reopen : GroupStatus.rejected ⟶ GroupStatus.draft

-- What becomes of a group.
pub record Moved (g : ProjectGroup) (id : ℕ) (after : List ProjectGroup) : Type 0 where
  pub g' : ProjectGroup
  pub found : find (has_id id) after ≡ some g'
  pub edge : g.status ⟶ g'.status
  pub same_leader : g'.leader_user_id ≡ g.leader_user_id
  pub same_department : g'.department_id ≡ g.department_id

-- From the groups and members before to those after: every group is still there and has followed
-- an edge, and a group that was no draft has the members that it had.
pub record Evolves (groups : List ProjectGroup) (members : List GroupMember)
    (groups' : List ProjectGroup) (members' : List GroupMember) : Type 0 where
  pub moves : (id : ℕ) (g : ProjectGroup) → find (has_id id) groups ≡ some g → Moved g id groups'
  pub frozen :
      (id : ℕ) (g : ProjectGroup)
      → find (has_id id) groups ≡ some g
      → is_draft g.status ≡ false
      → (user_id : ℕ) → is_member members' id user_id ≡ is_member members id user_id
