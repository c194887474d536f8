-- ===== src/Evaluation/Advising.antt =====
-- `saveAdvisorProjectDraft` and `submitAdvisorProjectEvaluation` of advisor-project-evaluation.service.ts
-- with their repository methods.
use academia_backend_api.Base.{
  ℕ, String, not, ◌&&◌, Option, some, List, [], ◌==◌, same_option, bad_request, bad_request_list,
  forbidden, not_found, find, update, M, ◌>>=◌, ◌>>◌, pure, require, require_row, throw_if,
  throw_when, return_if, read, write, transaction,
}
use academia_backend_api.Accounts.{Principal}
use academia_backend_api.Evaluation.Schema.{
  Db, Student, Project, EvaluationStage, is_submitted, Evaluation, Score,
}
use academia_backend_api.Evaluation.Queries.{evaluates, normalize_students}
use academia_backend_api.Evaluation.Scoring.{
  check_draft, is_locked, put_draft, scores_of, missing_students, is_empty, handed_in,
}

-- `findAdvisorByUserId`
abbrev pub find_advisor : ℕ → Db → Option ℕ
find_advisor user_id db = find (λ a. a == user_id) db.advisors

-- The project of `findAdvisorProjectDetail`.
abbrev pub find_advisor_project : ℕ → ℕ → Db → Option Project
find_advisor_project advisor project_id db =
    find (λ p. p.id == project_id && same_option p.advisor_id (some advisor)) db.projects

-- The evaluation of this advisor.
abbrev pub find_own_evaluation : ℕ → ℕ → EvaluationStage → Db → Option Evaluation
find_own_evaluation project_id author stage db =
    find (evaluates project_id author stage) db.advisor_evaluations

-- What both handlers read of the project before they write.
pub record Supervision : Type 0 where
  pub advisor : ℕ
  pub students : List Student

unfoldable pub require_supervision : Principal → ℕ → M Db Supervision
require_supervision user project_id = do
  sub ← require user.sub (forbidden "Missing user context")
  advisor ← require_row (find_advisor sub) (not_found "Advisor profile not found")
  project ←
      require_row (find_advisor_project advisor project_id)
        (not_found "Project not found for this advisor")
  group ← require project.group (bad_request "Project group not found for this project")
  pure (record { advisor = advisor; students = normalize_students group })

module _ (trim : String → String) where
  -- `saveAdvisorProjectEvaluationDraft`
  unfoldable pub save_advisor_evaluation : ℕ → ℕ → EvaluationStage → List Score → M Db (Unit {0})
  save_advisor_evaluation project_id author stage students = do
    throw_when (λ db. is_locked (find_own_evaluation project_id author stage db))
        (bad_request "Submitted advisor evaluation cannot be edited")
    write (λ db. record db {
      advisor_evaluations = put_draft trim project_id author stage students db.advisor_evaluations;
    })

  unfoldable pub save_advisor_draft : Principal → ℕ → EvaluationStage → List Score → M Db (Unit {0})
  save_advisor_draft user project_id stage students = do
    supervision ← require_supervision user project_id
    check_draft supervision.students [] students
    transaction (save_advisor_evaluation project_id supervision.advisor stage students)

-- `submitAdvisorProjectEvaluation` of the repository; what is submitted already is answered as it is
unfoldable pub hand_in_advisor_evaluation : ℕ → ℕ → EvaluationStage → M Db (Unit {0})
hand_in_advisor_evaluation project_id author stage = do
  e ←
      require_row (find_own_evaluation project_id author stage)
        (not_found "Advisor evaluation draft not found")
  return_if (is_submitted e.status) (pure tt) (
      write (λ db. record db {
        advisor_evaluations =
            update (evaluates project_id author stage) handed_in db.advisor_evaluations;
      }))

unfoldable pub submit_advisor_evaluation : Principal → ℕ → EvaluationStage → M Db (Unit {0})
submit_advisor_evaluation user project_id stage = do
  supervision ← require_supervision user project_id
  throw_if (is_empty supervision.students) (bad_request "No students found for this project group")
  saved ← read (find_own_evaluation project_id supervision.advisor stage)
  throw_if (not (is_empty (missing_students supervision.students (scores_of saved)))) (
      bad_request_list "All students must be evaluated before submit"
        (missing_students supervision.students (scores_of saved)))
  transaction (hand_in_advisor_evaluation project_id supervision.advisor stage)
