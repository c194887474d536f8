-- ===== src/Evaluation/Guards.antt =====
-- The first parts of the evaluation handlers only read.
use academia_backend_api.Base.{
  ℕ, String, some, List, [], ◌∷◌, ◌≡◌, refl, arith, ok, after, effects, Post, Post-ok, Post-guard,
  Post-require, Post-require_row, Post-read, Post-pure, Post-after, Post-map,
}
use academia_backend_api.Accounts.{Principal}
use academia_backend_api.Evaluation.Schema.{Db, Student, EvaluationStage, Score}
use academia_backend_api.Evaluation.Queries.{
  resolve_context, resolve_coordinator, resolve_department_head, find_weight, find_result,
  find_department_project,
}
use academia_backend_api.Evaluation.Advising.{require_supervision}
use academia_backend_api.Evaluation.Scoring.{require_assignment, check_draft}
use academia_backend_api.Evaluation.Finalization.{DetailState, build_state}

after-resolve_context :
    (a b : String) (user : Principal) (db : Db) → after (resolve_context a b user db) ≡ db
unfolding effects resolve_context
after-resolve_context a b user db = ground arith

pub after-resolve_coordinator :
    (user : Principal) (db : Db) → after (resolve_coordinator user db) ≡ db
unfolding resolve_coordinator
after-resolve_coordinator user db = after-resolve_context _ _ user db

pub after-resolve_department_head :
    (user : Principal) (db : Db) → after (resolve_department_head user db) ≡ db
unfolding resolve_department_head
after-resolve_department_head user db = after-resolve_context _ _ user db

pub after-require_assignment :
    (user : Principal) (project_id : ℕ) (db : Db)
    → after (require_assignment user project_id db) ≡ db
unfolding effects require_assignment
after-require_assignment user project_id db = ground arith

pub after-require_supervision :
    (user : Principal) (project_id : ℕ) (db : Db)
    → after (require_supervision user project_id db) ≡ db
unfolding effects require_supervision
after-require_supervision user project_id db = ground arith

pub after-check_draft :
    (students : List Student) (seen : List ℕ) (scores : List Score) (db : Db)
    → after (check_draft students seen scores db) ≡ db
unfolding effects check_draft
after-check_draft students seen [] db = refl
after-check_draft students seen (s ∷ rest) db =
    ground (arith, after-check_draft students (s.student_user_id ∷ seen) rest db)

-- Where the state of a project comes from.
pub record Read (project_id : ℕ) (stage : EvaluationStage) (db : Db) (st : DetailState)
    : Type 0 where
  pub department_id : ℕ
  pub weight : st.weight ≡ find_weight department_id stage db
  pub project : find_department_project department_id project_id db ≡ some st.project
  pub result : st.result ≡ find_result st.project.id stage db

build_state-Post :
    (user : Principal) (project_id : ℕ) (stage : EvaluationStage) (db : Db)
    → Post
        (λ st s. (s ≡ db) × Read project_id stage db st)
        (λ s. s ≡ db)
        (build_state user project_id stage db)
unfolding build_state
build_state-Post user project_id stage db =
    Post-guard _ _ (after-resolve_coordinator user db) refl λ actor authorized. Post-read _ _ _ (
      Post-require_row _ _ _ refl λ project found. Post-require _ _ refl λ group grouped.
        Post-read _ _ _ (
          Post-read _ _ _ (
            Post-read _ _ _ (
              Post-pure _ _ (
                refl,
                record {
                  department_id = actor.department_id;
                  weight = refl;
                  project = found;
                  result = refl;
                },
              )))))

pub build_state_lem :
    (user : Principal) (project_id : ℕ) (stage : EvaluationStage) (db : Db) (st : DetailState)
    → build_state user project_id stage db ≡ ok st db
    → Read project_id stage db st
build_state_lem user project_id stage db st h =
    (Post-ok (build_state-Post user project_id stage db) h).1

pub after-build_state :
    (user : Principal) (project_id : ℕ) (stage : EvaluationStage) (db : Db)
    → after (build_state user project_id stage db) ≡ db
unfolding effects build_state
after-build_state user project_id stage db =
    Post-after (Post-map (build_state-Post user project_id stage db) (λ a s (e, h). e) (λ s e. e))
