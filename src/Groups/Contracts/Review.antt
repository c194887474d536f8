-- ===== src/Groups/Contracts/Review.antt =====
-- `submitMyGroupForReview`, `reopenMyRejectedGroup`, `approveSubmittedGroup` and `createGroup`.
use academia_backend_api.Base.{none, sym, subst}
use academia_backend_api.Base.{
  ℕ, ◌≤◌, true, false, some, ◌∷◌, ◌≡◌, ◌⊎◌, inl, inr, refl, arith, count, exists, ok, after,
  effects, Post, Post-pure, Post-guard, Post-guard_then, Post-require_row, Post-throw_if,
  Post-throw_when, Post-return_if, Post-read, Post-write, Post-write_last, Post-then_ok,
  Post-transaction, Post-map, transaction,
}
use academia_backend_api.Accounts.{Principal}
use academia_backend_api.Groups.Schema.{
  Db, ProjectGroup, GroupStatus, is_draft, is_submitted, is_rejected,
}
use academia_backend_api.Groups.Access.{
  Actor, require_approved_group_leader, require_department_reviewer,
}
use academia_backend_api.Groups.Queries.{
  find_by_leader_user_id, find_group_for_review, department_min_group_size,
  department_max_group_size, update_group, active_for_group, pending_for_group, has_id, led_by,
  create_group_row,
}
use academia_backend_api.Groups.Review.{
  SubmitAnswer, current_size, check_size, close_group, submitted_group, submit_group,
  reopened_group, reopen_group, approved_group, require_submitted_group, approve_group,
  create_group, new_group,
}
use academia_backend_api.Groups.Contracts.Closing.{
  closed_state, Withdrawn, closed-Withdrawn, find_closed, find_reviewed,
}
use academia_backend_api.Groups.Guards.{after-require_leader, after-require_reviewer}
use academia_backend_api.Groups.Contracts.Approve.{not-false}

-- The group's size is within the limits of the department.
pub record Sized (db : Db) (group_id department_id : ℕ) : Type 0 where
  pub least : department_min_group_size db.size_settings department_id ≤ current_size group_id db
  pub most : current_size group_id db ≤ department_max_group_size db.size_settings department_id

after-check_size :
    (group_id department_id : ℕ) (db : Db) → after (check_size group_id department_id db) ≡ db
unfolding effects
after-check_size group_id department_id db = ground arith

check_size-Sized :
    (group_id department_id : ℕ) (db : Db)
    → check_size group_id department_id db ≡ ok tt db
    → Sized db group_id department_id
unfolding effects
check_size-Sized group_id department_id db h = ground arith

close_group-ok :
    (now : ℕ) (actor : Actor) (group_id : ℕ) (f : ProjectGroup → ProjectGroup) (db : Db)
    → close_group now actor group_id f db ≡ ok tt (closed_state now actor.id group_id f db)
unfolding effects close_group
close_group-ok now actor group_id f db = refl

pub close_group_lem :
    (now : ℕ) (actor : Actor) (group_id : ℕ) (f : ProjectGroup → ProjectGroup) (db : Db)
    → Post
        (λ a s. s ≡ closed_state now actor.id group_id f db)
        (λ s. Unit {0})
        (close_group now actor group_id f db)
unfolding close_group
close_group_lem now actor group_id f db =
    Post-write _ _ _ (Post-write _ _ _ (Post-write_last _ _ refl))

pub record Submission (now : ℕ) (user : Principal) (db : Db) (a : SubmitAnswer) (s : Db)
    : Type 0 where
  pub actor : Actor
  pub g : ProjectGroup
  pub authorized : require_approved_group_leader user db ≡ ok actor db
  pub group_found : find_by_leader_user_id actor.id db ≡ some g
  pub effect :
      ((is_submitted g.status ≡ true) × (s ≡ db))
      ⊎ ((is_draft g.status ≡ true)
          × Sized db g.id g.department_id
          × (a.revoked_invitations ≡ some (count (active_for_group now g.id) db.invitations))
          × (a.revoked_join_requests ≡ some (count (pending_for_group g.id) db.join_requests))
          × (find_by_leader_user_id actor.id s
              ≡ some (record g {
                status = GroupStatus.submitted;
                submitted_at = some now;
                reviewed_at = none;
                reviewed_by_user_id = none;
                rejection_reason = none;
              }))
          × Withdrawn now g.id s
          × (s ≡ closed_state now actor.id g.id (submitted_group now) db))

transaction_ok-then :
    (now : ℕ) (actor : Actor) (group_id : ℕ) (f : ProjectGroup → ProjectGroup) (db : Db)
    → (transaction (close_group now actor group_id f)) db
      ≡ ok tt (closed_state now actor.id group_id f db)
unfolding effects close_group
transaction_ok-then now actor group_id f db = refl

-- On success the group of the caller was submitted before, where nothing changes, or is a draft of
-- permitted size: then the answer counts its open invitations and pending join requests, the leader finds
-- the group submitted at this time with no earlier review, and no invitation or join request of it is
-- open any more. Where the handler throws, nothing changes.
pub submit_group_lem :
    (now : ℕ) (user : Principal) (db : Db)
    → Post (Submission now user db) (λ s. s ≡ db) (submit_group now user db)
unfolding submit_group
submit_group_lem now user db =
    Post-guard _ _ (after-require_leader user db) refl λ actor authorized.
      Post-require_row _ _ _ refl λ g group_found.
        Post-return_if _ _ _ _
          (λ before. Post-pure _ _ (record {
            actor = actor;
            g = g;
            authorized = authorized;
            group_found = group_found;
            effect = inl (before, refl);
          }))
          (λ fresh. Post-throw_if _ _ refl λ draft.
            Post-guard_then _ _ (after-check_size g.id g.department_id db) refl λ sized.
              Post-read _ _ _ (
                Post-read _ _ _ (
                  Post-then_ok _ _ (transaction_ok-then now actor g.id (submitted_group now) db) (
                    Post-pure _ _ (record {
                      actor = actor;
                      g = g;
                      authorized = authorized;
                      group_found = group_found;
                      effect = inr (
                        not-false _ draft,
                        check_size-Sized _ _ db sized,
                        refl,
                        refl,
                        find_closed (led_by actor.id) now actor.id (submitted_group now) db
                            (λ x. refl) group_found,
                        closed-Withdrawn now actor.id g.id (submitted_group now) db,
                        refl,
                      );
                    })))))

pub record Reopening (user : Principal) (db s : Db) : Type 0 where
  pub actor : Actor
  pub g : ProjectGroup
  pub authorized : require_approved_group_leader user db ≡ ok actor db
  pub group_found : find_by_leader_user_id actor.id db ≡ some g
  pub was_rejected : is_rejected g.status ≡ true
  pub effect : s ≡ update_group g.id reopened_group db

-- Where reopening succeeds, the caller is an approved leader whose group was rejected, and that group
-- becomes a draft again with its review removed. Where it throws, nothing changes.
pub reopen_group_lem :
    (user : Principal) (db : Db)
    → Post (λ a s. Reopening user db s) (λ s. s ≡ db) (reopen_group user db)
unfolding reopen_group
reopen_group_lem user db = Post-guard _ _ (after-require_leader user db) refl λ actor authorized.
    Post-require_row _ _ _ refl λ g group_found. Post-throw_if _ _ refl λ was.
      Post-write_last _ _ (record {
        actor = actor;
        g = g;
        authorized = authorized;
        group_found = group_found;
        was_rejected = not-false _ was;
        effect = refl;
      })

-- The reviewer and the submitted group of the reviewer's department.
pub record Reviewed (user : Principal) (group_id : ℕ) (db : Db) (reviewer : Actor)
    (g : ProjectGroup) : Type 0 where
  pub authorized : require_department_reviewer user db ≡ ok reviewer db
  pub group_found :
      find_group_for_review reviewer.tenant_id reviewer.department_id group_id db ≡ some g
  pub was_submitted : is_submitted g.status ≡ true

pub after-require_submitted :
    (reviewer : Actor) (group_id : ℕ) (db : Db)
    → after (require_submitted_group reviewer group_id db) ≡ db
unfolding effects require_submitted_group
after-require_submitted reviewer group_id db = ground arith

pub require_submitted-ok :
    (reviewer : Actor) (group_id : ℕ) (db : Db) {g : ProjectGroup}
    → require_submitted_group reviewer group_id db ≡ ok g db
    → (find_group_for_review reviewer.tenant_id reviewer.department_id group_id db ≡ some g)
      × (is_submitted g.status ≡ true)
unfolding effects require_submitted_group
require_submitted-ok reviewer group_id db h = ground arith

pub record GroupApproval (now : ℕ) (user : Principal) (group_id : ℕ) (db s : Db) : Type 0 where
  pub reviewer : Actor
  pub g : ProjectGroup
  pub reviewed : Reviewed user group_id db reviewer g
  pub sized : Sized db g.id reviewer.department_id
  -- The group as its department finds it afterwards.
  pub result :
      find_group_for_review reviewer.tenant_id reviewer.department_id group_id s
      ≡ some (record g {
        status = GroupStatus.approved;
        reviewed_at = some now;
        reviewed_by_user_id = some reviewer.id;
        rejection_reason = none;
      })
  pub withdrawn : Withdrawn now g.id s
  pub effect : s ≡ closed_state now reviewer.id g.id (approved_group now reviewer.id) db

-- An approval needs a reviewer of the group's department and a submitted group of permitted size; afterwards
-- the department finds the group approved by the caller at this time, and no invitation or join request of
-- the group is open any more. Where the handler throws, nothing changes.
pub approve_group_lem :
    (now : ℕ) (user : Principal) (group_id : ℕ) (db : Db)
    → Post
        (λ a s. GroupApproval now user group_id db s)
        (λ s. s ≡ db)
        (approve_group now user group_id db)
unfolding approve_group
approve_group_lem now user group_id db =
    Post-guard _ _ (after-require_reviewer user db) refl λ reviewer authorized.
      Post-guard _ _ (after-require_submitted reviewer group_id db) refl λ g e.
        let (found, was) = require_submitted-ok reviewer group_id db e in
        Post-transaction (λ s. Unit {0}) _ refl
          (Post-guard_then _ _ (after-check_size g.id reviewer.department_id db) tt λ sized.
            Post-map (close_group_lem now reviewer g.id (approved_group now reviewer.id) db)
              (λ a s same. record {
                reviewer = reviewer;
                g = g;
                reviewed = record {
                  authorized = authorized;
                  group_found = found;
                  was_submitted = was;
                };
                sized = check_size-Sized _ _ db sized;
                result =
                    subst
                      (λ t.
                        find_group_for_review reviewer.tenant_id reviewer.department_id group_id t
                        ≡ some (approved_group now reviewer.id g))
                      (sym same)
                      (find_reviewed now reviewer.id reviewer.tenant_id reviewer.department_id
                        group_id (approved_group now reviewer.id) db (λ x. refl) found);
                withdrawn =
                    subst (Withdrawn now g.id) (sym same)
                      (closed-Withdrawn now reviewer.id g.id (approved_group now reviewer.id) db);
                effect = same;
              })
              (λ s h. tt))

pub record Creation (fresh : ℕ) (user : Principal) (db s : Db) : Type 0 where
  pub actor : Actor
  pub authorized : require_approved_group_leader user db ≡ ok actor db
  pub new_id : exists (has_id fresh) db.groups ≡ false
  pub led_none : exists (led_by actor.id) db.groups ≡ false
  pub effect : s ≡ record db { groups = new_group fresh actor ∷ db.groups }

pub create_group_lem :
    (fresh : ℕ) (user : Principal) (db : Db)
    → Post (λ a s. Creation fresh user db s) (λ s. s ≡ db) (create_group fresh user db)
unfolding create_group create_group_row
create_group_lem fresh user db =
    Post-guard _ _ (after-require_leader user db) refl λ actor authorized.
      Post-throw_when _ _ _ refl λ none_led. Post-throw_when _ _ _ refl λ new_id.
        Post-throw_when _ _ _ refl λ led. Post-write_last _ _ (record {
          actor = actor;
          authorized = authorized;
          new_id = new_id;
          led_none = led;
          effect = refl;
        })
