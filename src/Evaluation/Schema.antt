-- ===== src/Evaluation/Schema.antt =====
-- The tables of the evaluation (prisma/schema.prisma). Times are numbers of the clock and scores are
-- hundredths. Of a project the model keeps its department, its evaluators and the students of its
-- group, the leader first and then the members. Names and titles are left out, and so are the times
-- at which an evaluation was saved and submitted, which no handler of the model reads.
use academia_backend_api.Base.{ℕ, String, Bool, true, false, Option, List}
use academia_backend_api.Accounts.{User, UserStatus}
use academia_backend_api.Evaluation.Grades.{LetterGrade}

pub data EvaluationStage : Type 0 where
  capstone_i capstone_ii : EvaluationStage

abbrev pub same_stage : EvaluationStage → EvaluationStage → Bool
same_stage capstone_i capstone_i = true
same_stage capstone_ii capstone_ii = true
same_stage _ _ = false

abbrev pub stage_text : EvaluationStage → String
stage_text capstone_i = "CAPSTONE_I"
stage_text capstone_ii = "CAPSTONE_II"

-- The status of an advisor's and of an evaluator's evaluation.
pub data EvaluationStatus : Type 0 where
  not_started in_progress submitted : EvaluationStatus

abbrev pub is_submitted : EvaluationStatus → Bool
is_submitted submitted = true
is_submitted _ = false

pub data FinalResultStatus : Type 0 where
  finalized_pending_department_head approved rejected : FinalResultStatus

abbrev pub is_approved : FinalResultStatus → Bool
is_approved approved = true
is_approved _ = false

abbrev pub is_rejected : FinalResultStatus → Bool
is_rejected rejected = true
is_rejected _ = false

abbrev pub is_pending : FinalResultStatus → Bool
is_pending finalized_pending_department_head = true
is_pending _ = false

pub record Student : Type 0 where
  pub id : ℕ
  pub status : UserStatus

pub record Project : Type 0 where
  pub id : ℕ
  pub department_id : ℕ
  pub group : Option (List Student)
  pub advisor_id : Option ℕ
  pub evaluators : List ℕ

pub record StageWeight : Type 0 where
  pub tenant_id : ℕ
  pub department_id : ℕ
  pub stage : EvaluationStage
  pub advisor_percentage : ℕ
  pub evaluator_percentage : ℕ
  pub updated_by_user_id : Option ℕ

pub record Score : Type 0 where
  pub student_user_id : ℕ
  pub score : ℕ
  pub comment : Option String

-- An advisor's evaluation, or an evaluator's: `author` is `advisorUserId` or `evaluatorUserId`.
pub record Evaluation : Type 0 where
  pub project_id : ℕ
  pub author : ℕ
  pub stage : EvaluationStage
  pub status : EvaluationStatus
  pub scores : List Score

pub record EvaluatorScore : Type 0 where
  pub evaluator_user_id : ℕ
  pub score : ℕ
  pub comment : Option String

pub record FinalScore : Type 0 where
  pub student_user_id : ℕ
  pub advisor_score : ℕ
  pub advisor_comment : Option String
  pub evaluator_average_score : ℕ
  pub evaluator_scores : List EvaluatorScore
  pub final_grade : ℕ
  pub letter_grade : LetterGrade

pub record FinalResult : Type 0 where
  pub id : ℕ
  pub tenant_id : ℕ
  pub department_id : ℕ
  pub project_id : ℕ
  pub stage : EvaluationStage
  pub status : FinalResultStatus
  pub advisor_percentage : ℕ
  pub evaluator_percentage : ℕ
  pub finalized_by_user_id : ℕ
  pub finalized_at : ℕ
  pub finalization_note : Option String
  pub approved_by_user_id : Option ℕ
  pub approved_at : Option ℕ
  pub approval_note : Option String
  pub rejected_by_user_id : Option ℕ
  pub rejected_at : Option ℕ
  pub rejection_reason : Option String
  pub scores : List FinalScore

-- `advisors` holds the users that have an advisor's profile.
pub record Db : Type 0 where
  pub users : List User
  pub advisors : List ℕ
  pub projects : List Project
  pub weights : List StageWeight
  pub advisor_evaluations : List Evaluation
  pub evaluator_evaluations : List Evaluation
  pub results : List FinalResult
