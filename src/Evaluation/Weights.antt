-- ===== src/Evaluation/Weights.antt =====
-- `updateWeights` of coordinator-evaluation-weight.service.ts and the `upsert` that it calls. The DTO
-- keeps both percentages between 1 and 99 before the handler runs.
use academia_backend_api.Base.{
  ℕ, ◌+◌, not, some, List, [], ◌∷◌, ◌++◌, ◌==◌, if◌then◌else◌, bad_request, exists, update, M,
  ◌>>=◌, ◌>>◌, throw_if, write,
}
use academia_backend_api.Accounts.{Principal}
use academia_backend_api.Evaluation.Schema.{Db, EvaluationStage, StageWeight}
use academia_backend_api.Evaluation.Queries.{resolve_coordinator, weighs}

abbrev pub reweighed : ℕ → ℕ → ℕ → StageWeight → StageWeight
reweighed advisor_percentage evaluator_percentage user_id w = record w {
  advisor_percentage = advisor_percentage;
  evaluator_percentage = evaluator_percentage;
  updated_by_user_id = some user_id;
}

-- `upsertDepartmentStageWeight`
unfoldable pub upsert_weight : StageWeight → ℕ → List StageWeight → List StageWeight
upsert_weight w user_id ws =
    if exists (weighs w.department_id w.stage) ws
    then update (weighs w.department_id w.stage)
        (reweighed w.advisor_percentage w.evaluator_percentage user_id) ws
    else ws ++ (w ∷ [])

unfoldable pub update_weights : Principal → EvaluationStage → ℕ → ℕ → M Db (Unit {0})
update_weights user stage advisor_percentage evaluator_percentage = do
  throw_if (not ((advisor_percentage + evaluator_percentage) == 100)) (
      bad_request
        "Advisor and evaluator percentages must both be greater than 0, less than 100, and sum to 100")
  actor ← resolve_coordinator user
  write (λ db. record db {
    weights =
        upsert_weight
          (record {
            tenant_id = actor.tenant_id;
            department_id = actor.department_id;
            stage = stage;
            advisor_percentage = advisor_percentage;
            evaluator_percentage = evaluator_percentage;
            updated_by_user_id = some actor.id;
          })
          actor.id db.weights;
  })
