-- ===== src/Evaluation/System.antt =====
-- The evaluation handlers as one system: a request names a handler with its arguments, and requests
-- come in any order, each handled whole before the next.
use academia_backend_api.Base.{ℕ, String, Option, List, [], ◌∷◌, after}
use academia_backend_api.Accounts.{Principal}
use academia_backend_api.Evaluation.Schema.{Db, EvaluationStage, Score}
use academia_backend_api.Evaluation.Weights.{update_weights}
use academia_backend_api.Evaluation.Scoring.{save_evaluator_draft, submit_evaluator_evaluation}
use academia_backend_api.Evaluation.Advising.{save_advisor_draft, submit_advisor_evaluation}
use academia_backend_api.Evaluation.Finalization.{finalize_project}
use academia_backend_api.Evaluation.Decision.{approve_project, reject_project}

pub data Request : Type 0 where
  weigh : Principal → EvaluationStage → (advisor_percentage evaluator_percentage : ℕ) → Request
  save : Principal → (project_id : ℕ) → EvaluationStage → List Score → Request
  submit : Principal → (project_id : ℕ) → EvaluationStage → Request
  advise : Principal → (project_id : ℕ) → EvaluationStage → List Score → Request
  hand_in : Principal → (project_id : ℕ) → EvaluationStage → Request
  finalize :
      (fresh now : ℕ) → Principal → (project_id : ℕ) → EvaluationStage → Option String → Request
  approve : (now : ℕ) → Principal → (project_id : ℕ) → EvaluationStage → Option String → Request
  reject : (now : ℕ) → Principal → (project_id : ℕ) → EvaluationStage → String → Request

module _ (to_fixed : ℕ → ℕ → ℕ) (trim : String → String) where
  -- The state that the handler of a request leaves, whether it returned or threw.
  unfoldable pub process : Request → Db → Db
  process (weigh user stage p q) db = after (update_weights user stage p q db)
  process (save user project_id stage students) db =
      after (save_evaluator_draft trim user project_id stage students db)
  process (submit user project_id stage) db =
      after (submit_evaluator_evaluation user project_id stage db)
  process (advise user project_id stage students) db =
      after (save_advisor_draft trim user project_id stage students db)
  process (hand_in user project_id stage) db =
      after (submit_advisor_evaluation user project_id stage db)
  process (finalize fresh now user project_id stage note) db =
      after (finalize_project to_fixed trim fresh now user project_id stage note db)
  process (approve now user project_id stage note) db =
      after (approve_project now user project_id stage note db)
  process (reject now user project_id stage reason) db =
      after (reject_project trim now user project_id stage reason db)

  unfoldable pub process_all : List Request → Db → Db
  process_all [] db = db
  process_all (r ∷ rs) db = process_all rs (process r db)
