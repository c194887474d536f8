-- ===== src/Evaluation/Submission.antt =====
-- The outcome of `submitEvaluatorProjectEvaluation`.
use academia_backend_api.Base.{ℕ, true, false, some, ◌≡◌, exists, All, ok}
use academia_backend_api.Accounts.{Principal}
use academia_backend_api.Evaluation.Schema.{Db, EvaluationStage, Evaluation, is_submitted}
use academia_backend_api.Evaluation.Queries.{find_evaluator_evaluation}
use academia_backend_api.Evaluation.Scoring.{Assignment, require_assignment, scored, handed_in}

pub record Submitted (user : Principal) (project_id : ℕ) (stage : EvaluationStage) (db s : Db)
    : Type 0 where
  pub assignment : Assignment
  pub e : Evaluation
  pub assigned : require_assignment user project_id db ≡ ok assignment db
  pub found : find_evaluator_evaluation project_id assignment.evaluator.id stage db ≡ some e
  pub unlocked : is_submitted e.status ≡ false
  pub complete : All (λ x. exists (scored x.id) e.scores ≡ true) assignment.students
  pub effect :
      find_evaluator_evaluation project_id assignment.evaluator.id stage s ≡ some (handed_in e)
