-- ===== src/Evaluation/Scoring.antt =====
-- `saveEvaluatorProjectDraft` and `submitEvaluatorProjectEvaluation` of
-- evaluator-project-evaluation.service.ts with their repository methods. The errors that the
-- repository throws are given as the exceptions that the service makes of them.
use academia_backend_api.Base.{
  database_error, ◌&&◌, member, ℕ, String, Bool, true, false, not, Option, none, some, List, [],
  ◌∷◌, ◌++◌, ◌==◌, if◌then◌else◌, bad_request, bad_request_of, bad_request_list, forbidden,
  not_found, exists, update, M, ◌>>=◌, ◌>>◌, pure, require, require_row, throw_if, throw_when, read,
  write, transaction,
}
use academia_backend_api.Accounts.{Principal, User}
use academia_backend_api.Evaluation.Schema.{
  Db, Student, EvaluationStage, EvaluationStatus, is_submitted, Evaluation, Score,
}
use academia_backend_api.Evaluation.Queries.{
  find_user, find_evaluator_project, find_evaluator_evaluation, evaluates, normalize_students,
  trimmed,
}

-- What both handlers read of the project before they write.
pub record Assignment : Type 0 where
  pub evaluator : User
  pub students : List Student

unfoldable pub require_assignment : Principal → ℕ → M Db Assignment
require_assignment user project_id = do
  sub ← require user.sub (forbidden "Missing user context")
  evaluator ← require_row (find_user sub) (not_found "Evaluator user not found")
  project ←
      require_row (find_evaluator_project evaluator.id project_id)
        (not_found "Project not found for this evaluator")
  group ← require project.group (bad_request "Project group not found for this project")
  pure (record { evaluator = evaluator; students = normalize_students group })

abbrev pub is_student : List Student → ℕ → Bool
is_student students id = exists (λ s. s.id == id) students

-- The loop over `body.students`, with `seenStudentIds`.
unfoldable pub check_draft : List Student → List ℕ → List Score → M Db (Unit {0})
check_draft students seen [] = pure tt
check_draft students seen (s ∷ rest) =
    throw_if (member s.student_user_id seen)
      (bad_request_of "Duplicate studentUserId provided" s.student_user_id)
    >> (throw_if (not (is_student students s.student_user_id))
          (bad_request_of "Student does not belong to this project group" s.student_user_id)
        >> check_draft students (s.student_user_id ∷ seen) rest)

abbrev pub scored : ℕ → Score → Bool
scored student_user_id s = s.student_user_id == student_user_id

abbrev pub is_locked : Option Evaluation → Bool
is_locked none = false
is_locked (some e) = is_submitted e.status

module _ (trim : String → String) where
  abbrev pub cleaned : Score → Score
  cleaned s = record s { comment = trimmed trim s.comment }

  -- One round of the loop over `params.students`: the row of the student is updated or created.
  unfoldable pub save_score : Score → List Score → List Score
  save_score s scores =
      if exists (scored s.student_user_id) scores
      then update (scored s.student_user_id) (λ _. cleaned s) scores
      else scores ++ (cleaned s ∷ [])

  unfoldable pub save_scores : List Score → List Score → List Score
  save_scores [] scores = scores
  save_scores (s ∷ rest) scores = save_scores rest (save_score s scores)

  abbrev pub drafted : List Score → Evaluation → Evaluation
  drafted students e = record e {
    status = EvaluationStatus.in_progress;
    scores = save_scores students e.scores;
  }

  abbrev pub new_draft : ℕ → ℕ → EvaluationStage → List Score → Evaluation
  new_draft project_id author stage students = record {
    project_id = project_id;
    author = author;
    stage = stage;
    status = EvaluationStatus.in_progress;
    scores = save_scores students [];
  }

  unfoldable pub put_draft :
      ℕ → ℕ → EvaluationStage → List Score → List Evaluation → List Evaluation
  put_draft project_id author stage students es =
      if exists (evaluates project_id author stage) es
      then update (evaluates project_id author stage) (drafted students) es
      else es ++ (new_draft project_id author stage students ∷ [])

  -- `String(evaluator.departmentId ?? '')` is no department where the evaluator has none.
  abbrev pub lacks_department : Option ℕ → Bool
  lacks_department none = true
  lacks_department (some id) = false

  -- `saveEvaluatorProjectEvaluationDraft`; creating a row refers to the department.
  unfoldable pub save_draft : Option ℕ → ℕ → ℕ → EvaluationStage → List Score → M Db (Unit {0})
  save_draft department_id project_id author stage students = do
    throw_when (λ db. is_locked (find_evaluator_evaluation project_id author stage db))
        (bad_request "Submitted evaluator evaluation cannot be edited")
    throw_when
        (λ db.
          lacks_department department_id
          && not (exists (evaluates project_id author stage) db.evaluator_evaluations))
        database_error
    write (λ db. record db {
      evaluator_evaluations = put_draft project_id author stage students db.evaluator_evaluations;
    })

  unfoldable pub save_evaluator_draft :
      Principal → ℕ → EvaluationStage → List Score → M Db (Unit {0})
  save_evaluator_draft user project_id stage students = do
    assignment ← require_assignment user project_id
    check_draft assignment.students [] students
    transaction (
        save_draft assignment.evaluator.department_id project_id assignment.evaluator.id stage
          students)

-- `detail.evaluation?.scores ?? []`
abbrev pub scores_of : Option Evaluation → List Score
scores_of none = []
scores_of (some e) = e.scores

unfoldable pub missing_students : List Student → List Score → List ℕ
missing_students [] scores = []
missing_students (s ∷ students) scores =
    let rest = missing_students students scores in
    if exists (scored s.id) scores then rest else s.id ∷ rest

abbrev pub is_empty {ℓ} : {A : Type ℓ} → List A → Bool
is_empty [] = true
is_empty (x ∷ xs) = false

abbrev pub handed_in : Evaluation → Evaluation
handed_in e = record e { status = EvaluationStatus.submitted }

-- `submitEvaluatorProjectEvaluation` of the repository
unfoldable pub submit_evaluation : ℕ → ℕ → EvaluationStage → M Db (Unit {0})
submit_evaluation project_id author stage = do
  e ←
      require_row (find_evaluator_evaluation project_id author stage)
        (not_found "Evaluator evaluation draft not found")
  throw_if (is_submitted e.status) (bad_request "Evaluator evaluation has already been submitted")
  write (λ db. record db {
    evaluator_evaluations =
        update (evaluates project_id author stage) handed_in db.evaluator_evaluations;
  })

unfoldable pub submit_evaluator_evaluation : Principal → ℕ → EvaluationStage → M Db (Unit {0})
submit_evaluator_evaluation user project_id stage = do
  assignment ← require_assignment user project_id
  throw_if (is_empty assignment.students) (bad_request "No students found for this project group")
  saved ← read (find_evaluator_evaluation project_id assignment.evaluator.id stage)
  throw_if (not (is_empty (missing_students assignment.students (scores_of saved)))) (
      bad_request_list "All students must be evaluated before submit"
        (missing_students assignment.students (scores_of saved)))
  transaction (submit_evaluation project_id assignment.evaluator.id stage)
