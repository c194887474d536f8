-- ===== src/Groups/Contracts/Reject.antt =====
-- What the rejection of a submitted group promises.
use academia_backend_api.Base.{
  ℕ, String, Option, some, ◌≡◌, refl, sym, subst, given, Post, Post-guard, Post-transaction,
  Post-map,
}
use academia_backend_api.Accounts.{Principal}
use academia_backend_api.Groups.Schema.{Db, ProjectGroup, GroupStatus}
use academia_backend_api.Groups.Access.{Actor}
use academia_backend_api.Groups.Queries.{find_group_for_review}
use academia_backend_api.Groups.Review.{rejected_group, reject_group}
use academia_backend_api.Groups.Guards.{after-require_reviewer}
use academia_backend_api.Groups.Contracts.Closing.{
  closed_state, Withdrawn, closed-Withdrawn, find_reviewed,
}
use academia_backend_api.Groups.Contracts.Review.{
  Reviewed, close_group_lem, after-require_submitted, require_submitted-ok,
}

pub record GroupRejection (now : ℕ) (user : Principal) (group_id : ℕ) (reason : Option String)
    (db s : Db) : Type 0 where
  pub reviewer : Actor
  pub g : ProjectGroup
  pub reviewed : Reviewed user group_id db reviewer g
  -- The group as its department finds it afterwards.
  pub result :
      find_group_for_review reviewer.tenant_id reviewer.department_id group_id s
      ≡ some (record g {
        status = GroupStatus.rejected;
        reviewed_at = some now;
        reviewed_by_user_id = some reviewer.id;
        rejection_reason = given reason g.rejection_reason;
      })
  pub withdrawn : Withdrawn now g.id s
  pub effect : s ≡ closed_state now reviewer.id g.id (rejected_group now reviewer.id reason) db

-- Where rejecting succeeds, the caller may review in the department, in which the group was found
-- submitted; afterwards the department finds the group rejected by the caller at this time, with the
-- reason given, else as it was, and no invitation or join request of the group is open any more. Where
-- it throws, nothing changes.
pub reject_group_lem :
    (now : ℕ) (user : Principal) (group_id : ℕ) (reason : Option String) (db : Db)
    → Post
        (λ a s. GroupRejection now user group_id reason db s)
        (λ s. s ≡ db)
        (reject_group now user group_id reason db)
unfolding reject_group
reject_group_lem now user group_id reason db =
    Post-guard _ _ (after-require_reviewer user db) refl λ reviewer authorized.
      Post-guard _ _ (after-require_submitted reviewer group_id db) refl λ g e.
        let (found, was) = require_submitted-ok reviewer group_id db e in
        Post-transaction (λ s. Unit {0}) _ refl
          (Post-map (close_group_lem now reviewer g.id (rejected_group now reviewer.id reason) db)
            (λ a s same. record {
              reviewer = reviewer;
              g = g;
              reviewed = record {
                authorized = authorized;
                group_found = found;
                was_submitted = was;
              };
              result =
                  subst
                    (λ t.
                      find_group_for_review reviewer.tenant_id reviewer.department_id group_id t
                      ≡ some (rejected_group now reviewer.id reason g))
                    (sym same)
                    (find_reviewed now reviewer.id reviewer.tenant_id reviewer.department_id
                      group_id (rejected_group now reviewer.id reason) db (λ x. refl) found);
              withdrawn = subst (Withdrawn now g.id) (sym same) (
                  closed-Withdrawn now reviewer.id g.id (rejected_group now reviewer.id reason) db);
              effect = same;
            })
            (λ s h. tt))
