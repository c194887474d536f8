-- ===== src/Groups/Guards.antt =====
-- The guards of `Access` read only, and what they establish.
use academia_backend_api.Base.{true, ◌≡◌, arith, ok, after, effects}
use academia_backend_api.Accounts.{Principal}
use academia_backend_api.Groups.Schema.{Db}
use academia_backend_api.Groups.Access.{
  Actor, require_db_user, require_student_in_department, require_approved_group_leader,
  require_department_reviewer, approved_leader,
}

pub after-require_db_user : (user : Principal) (db : Db) → after (require_db_user user db) ≡ db
unfolding effects require_db_user
after-require_db_user user db = ground arith

pub after-require_student :
    (user : Principal) (db : Db) → after (require_student_in_department user db) ≡ db
unfolding effects require_student_in_department require_db_user
after-require_student user db = ground arith

pub after-require_leader :
    (user : Principal) (db : Db) → after (require_approved_group_leader user db) ≡ db
unfolding effects require_approved_group_leader require_student_in_department require_db_user
after-require_leader user db = ground arith

pub after-require_reviewer :
    (user : Principal) (db : Db) → after (require_department_reviewer user db) ≡ db
unfolding effects require_department_reviewer require_db_user
after-require_reviewer user db = ground arith

-- The guard of the leaders' handlers passes only a caller with an approved application.
pub leader-approved :
    (user : Principal) (db : Db) {actor : Actor}
    → require_approved_group_leader user db ≡ ok actor db
    → approved_leader actor.id db ≡ true
unfolding effects require_approved_group_leader
leader-approved user db h = ground arith
