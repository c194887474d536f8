-- ===== src/Evaluation/Finalization.antt =====
-- `buildProjectDetailState` and `finalizeProject` of coordinator-project-evaluation.service.ts and
-- `upsertProjectStageFinalResult` of its repository.
use academia_backend_api.Base.{
  filter, length, ℕ, String, Bool, true, false, not, ◌||◌, Option, none, some, List, [], ◌∷◌, map,
  ltb, bad_request, bad_request_with, not_found, find, M, ◌>>=◌, ◌>>◌, pure, require, require_row,
  throw_if, read, write, return_if, transaction,
}
use academia_backend_api.Accounts.{Principal}
use academia_backend_api.Evaluation.Schema.{
  Db, Student, Project, EvaluationStage, stage_text, is_submitted, Evaluation, Score, StageWeight,
  EvaluatorScore, FinalScore, FinalResult, FinalResultStatus, is_approved, is_pending,
}
use academia_backend_api.Evaluation.Grades.{
  calculate_evaluator_average, compute_final_grade, to_letter_grade,
}
use academia_backend_api.Evaluation.Queries.{
  Actor, resolve_coordinator, find_weight, find_department_project, find_advisor_evaluation,
  find_evaluator_evaluation, find_result, grades, update_results, insert_result, normalize_students,
  trimmed,
}
use academia_backend_api.Evaluation.Scoring.{scored, is_empty}

-- `evaluation?.status === 'SUBMITTED'`
abbrev pub is_handed_in : Option Evaluation → Bool
is_handed_in none = false
is_handed_in (some e) = is_submitted e.status

-- The score that an evaluation gives a student, if there are both.
abbrev pub score_in : Option Evaluation → ℕ → Option Score
score_in none id = none
score_in (some e) id = find (scored id) e.scores

-- What the handlers read of a project: `buildProjectDetailState`, without the texts.
pub record DetailState : Type 0 where
  pub project : Project
  pub students : List Student
  pub weight : Option StageWeight
  pub advisor_evaluation : Option Evaluation
  pub evaluations : ℕ → Option Evaluation
  pub result : Option FinalResult

unfoldable pub build_state : Principal → ℕ → EvaluationStage → M Db DetailState
build_state user project_id stage = do
  actor ← resolve_coordinator user
  weight ← read (find_weight actor.department_id stage)
  project ←
      require_row (find_department_project actor.department_id project_id)
        (not_found "Project not found for this coordinator")
  group ← require project.group (bad_request "Project group not found for this project")
  advisor_evaluation ← read (find_advisor_evaluation project.id stage)
  evaluations ← read (λ db author. find_evaluator_evaluation project.id author stage db)
  result ← read (find_result project.id stage)
  pure (record {
    project = project;
    students = normalize_students group;
    weight = weight;
    advisor_evaluation = advisor_evaluation;
    evaluations = evaluations;
    result = result;
  })

-- `assignedEvaluators.length === 0 || submittedEvaluators.length < assignedEvaluators.length`
unfoldable pub awaits_evaluators : DetailState → Bool
awaits_evaluators st =
    is_empty st.project.evaluators
    || ltb (length (filter (λ author. is_handed_in (st.evaluations author)) st.project.evaluators))
        (length st.project.evaluators)

abbrev pub result_is : (FinalResultStatus → Bool) → Option FinalResult → Bool
result_is test none = false
result_is test (some r) = test r.status

-- The scores of all evaluators for a student, if none is missing.
unfoldable pub collect_evaluator_scores :
    (ℕ → Option Evaluation) → ℕ → List ℕ → Option (List EvaluatorScore)
collect_evaluator_scores evaluations id [] = some []
collect_evaluator_scores evaluations id (author ∷ rest) =
    let others = collect_evaluator_scores evaluations id rest in
    elim (score_in (evaluations author) id) [
      | none ↦ none
      | some s ↦ elim others [
        | none ↦ none
        | some ss ↦
            some (record { evaluator_user_id = author; score = s.score; comment = s.comment } ∷ ss)
      ]
    ]

abbrev pub refinalized : FinalResult → FinalResult → FinalResult
refinalized new r = record r {
  status = FinalResultStatus.finalized_pending_department_head;
  advisor_percentage = new.advisor_percentage;
  evaluator_percentage = new.evaluator_percentage;
  finalized_by_user_id = new.finalized_by_user_id;
  finalized_at = new.finalized_at;
  finalization_note = new.finalization_note;
  approved_by_user_id = none;
  approved_at = none;
  approval_note = none;
  rejected_by_user_id = none;
  rejected_at = none;
  rejection_reason = none;
  scores = new.scores;
}

abbrev pub is_none {ℓ} : {A : Type ℓ} → Option A → Bool
is_none none = true
is_none (some a) = false

-- `upsertProjectStageFinalResult`, whose error the service turns into the exception given here.
unfoldable pub upsert_result : FinalResult → M Db (Unit {0})
upsert_result new = do
  existing ← read (find_result new.project_id new.stage)
  throw_if (result_is is_approved existing)
      (bad_request "Final grade has already been approved and cannot be re-finalized")
  return_if (is_none existing) (insert_result new)
      (write (update_results (grades new.project_id new.stage) (refinalized new)))

module _ (to_fixed : ℕ → ℕ → ℕ) (trim : String → String) where
  abbrev pub graded : StageWeight → ℕ → Score → List EvaluatorScore → ℕ → FinalScore
  graded w id s given_scores average =
      let grade =
        compute_final_grade to_fixed s.score average w.advisor_percentage w.evaluator_percentage in
      record {
        student_user_id = id;
        advisor_score = s.score;
        advisor_comment = trimmed trim s.comment;
        evaluator_average_score = average;
        evaluator_scores = given_scores;
        final_grade = grade;
        letter_grade = to_letter_grade grade;
      }

  -- The row of a student, if `isReadyForFinalCalculation`.
  unfoldable pub grade_student : DetailState → StageWeight → Student → Option FinalScore
  grade_student st w student = elim (score_in st.advisor_evaluation student.id) [
    | none ↦ none
    | some s ↦ elim (collect_evaluator_scores st.evaluations student.id st.project.evaluators) [
      | none ↦ none
      | some given_scores ↦
          elim (calculate_evaluator_average to_fixed (map (λ e. e.score) given_scores)) [
            | none ↦ none
            | some average ↦ some (graded w student.id s given_scores average)
          ]
    ]
  ]

  -- The rows of all students, if none is missing a score.
  unfoldable pub grade_students :
      DetailState → StageWeight → List Student → Option (List FinalScore)
  grade_students st w [] = some []
  grade_students st w (student ∷ students) =
      let others = grade_students st w students in
      elim (grade_student st w student) [
        | none ↦ none
        | some row ↦ elim others [ none ↦ none | some rows ↦ some (row ∷ rows) ]
      ]

  abbrev pub new_result :
      ℕ
      → ℕ
      → Actor
      → ℕ
      → EvaluationStage
      → StageWeight
      → Option String
      → List FinalScore
      → FinalResult
  new_result fresh now actor project_id stage w note rows = record {
    id = fresh;
    tenant_id = actor.tenant_id;
    department_id = actor.department_id;
    project_id = project_id;
    stage = stage;
    status = FinalResultStatus.finalized_pending_department_head;
    advisor_percentage = w.advisor_percentage;
    evaluator_percentage = w.evaluator_percentage;
    finalized_by_user_id = actor.id;
    finalized_at = now;
    finalization_note = trimmed trim note;
    approved_by_user_id = none;
    approved_at = none;
    approval_note = none;
    rejected_by_user_id = none;
    rejected_at = none;
    rejection_reason = none;
    scores = rows;
  }

  unfoldable pub finalize_project :
      ℕ → ℕ → Principal → ℕ → EvaluationStage → Option String → M Db (Unit {0})
  finalize_project fresh now user project_id stage note = do
    st ← build_state user project_id stage
    w ← require st.weight (
        bad_request_with "Grading weights are not configured in this department for"
          (stage_text stage))
    throw_if (not (is_handed_in st.advisor_evaluation))
        (bad_request "Advisor evaluation must be submitted before finalization")
    throw_if (awaits_evaluators st)
        (bad_request "All assigned evaluator evaluations must be submitted before finalization")
    throw_if (result_is is_pending st.result)
        (bad_request "Final grade has already been finalized for this project and stage")
    throw_if (result_is is_approved st.result)
        (bad_request "Final grade has already been approved and cannot be re-finalized")
    rows ←
        require (grade_students st w st.students)
          (bad_request "Some students are missing required scores for finalization")
    actor ← resolve_coordinator user
    transaction (upsert_result (new_result fresh now actor st.project.id stage w note rows))
