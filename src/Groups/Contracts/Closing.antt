-- ===== src/Groups/Contracts/Closing.antt =====
-- The state that `closeGroup` leaves: the offers of a group withdrawn and its row rewritten.
use academia_backend_api.Base.{
  ℕ, Bool, false, some, ◌≡◌, refl, arith, ◌∙◌, eq→==, find, find-update, All, All-updated,
}
use academia_backend_api.Groups.Schema.{Db, ProjectGroup}
use academia_backend_api.Groups.Queries.{
  find_group_for_review, in_department, has_id, update_group, revoke_group_requests,
  revoke_group_invitations, active_for_group, pending_for_group,
}

-- The group is closed to newcomers, and its row rewritten by `f`.
abbrev pub closed_state : ℕ → ℕ → ℕ → (ProjectGroup → ProjectGroup) → Db → Db
closed_state now by group_id f db =
    update_group group_id f
      (revoke_group_requests now by group_id (revoke_group_invitations now group_id db))

-- No invitation or join request of the group is open.
pub record Withdrawn (now group_id : ℕ) (s : Db) : Type 0 where
  pub invitations : All (λ i. active_for_group now group_id i ≡ false) s.invitations
  pub requests : All (λ r. pending_for_group group_id r ≡ false) s.join_requests

pub closed-Withdrawn :
    (now by group_id : ℕ) (f : ProjectGroup → ProjectGroup) (db : Db)
    → Withdrawn now group_id (closed_state now by group_id f db)
unfolding update_group revoke_group_requests revoke_group_invitations
closed-Withdrawn now by group_id f db = record {
  invitations =
      All-updated _ (active_for_group now group_id) _ (λ i e. ground arith) (λ i e. e)
        db.invitations;
  requests =
      All-updated _ (pending_for_group group_id) _ (λ r e. ground arith) (λ r e. e)
        db.join_requests;
}

-- The closed group is found as before, with its row rewritten.
pub find_closed :
    (q : ProjectGroup → Bool) (now by : ℕ) (f : ProjectGroup → ProjectGroup) (db : Db)
    {g : ProjectGroup}
    → ((x : ProjectGroup) → q (f x) ≡ q x)
    → find q db.groups ≡ some g
    → find q (closed_state now by g.id f db).groups ≡ some (f g)
unfolding update_group revoke_group_requests revoke_group_invitations
find_closed q now by f db {g} k found =
    find-update q (has_id g.id) f db.groups k found ∙ rw (eq→== g.id g.id refl) refl

pub find_reviewed :
    (now by tenant_id department_id id : ℕ) (f : ProjectGroup → ProjectGroup) (db : Db)
    {g : ProjectGroup}
    → ((x : ProjectGroup)
        → in_department id tenant_id department_id (f x)
          ≡ in_department id tenant_id department_id x)
    → find_group_for_review tenant_id department_id id db ≡ some g
    → find_group_for_review tenant_id department_id id (closed_state now by g.id f db) ≡ some (f g)
unfolding find_group_for_review
find_reviewed now by tenant_id department_id id =
    find_closed (in_department id tenant_id department_id) now by
