-- ===== src/Evaluation/Invariant.antt =====
-- What holds of the evaluation's tables at all times. The children show that every request keeps it.
pub mod Grading
pub mod Steps
pub mod Finalizing
pub mod Reachable
use academia_backend_api.Base.{ℕ, ◌+◌, ◌≤◌, Option, none, some, List, map, ◌≡◌, ◌≢◌, count, All}
use academia_backend_api.Evaluation.Schema.{
  Db, StageWeight, FinalResult, FinalResultStatus, FinalScore, finalized_pending_department_head,
  approved, rejected,
}
use academia_backend_api.Evaluation.Grades.{
  calculate_evaluator_average, compute_final_grade, to_letter_grade,
}
use academia_backend_api.Evaluation.Queries.{is_result}

abbrev pub WeightTotal : StageWeight → Type 0
WeightTotal w = w.advisor_percentage + w.evaluator_percentage ≡ 100

-- The average, the grade and the letter are those of the scores that are kept beside them, for
-- these percentages.
pub record IsDerived (to_fixed : ℕ → ℕ → ℕ) (p q : ℕ) (f : FinalScore) : Type 0 where
  pub average :
      calculate_evaluator_average to_fixed (map (λ e. e.score) f.evaluator_scores)
      ≡ some f.evaluator_average_score
  pub grade :
      f.final_grade ≡ compute_final_grade to_fixed f.advisor_score f.evaluator_average_score p q
  pub letter : f.letter_grade ≡ to_letter_grade f.final_grade

-- Who decided and when are kept for the decision that the status names and for no other.
abbrev pub Decided : FinalResultStatus → FinalResult → Type 0
Decided finalized_pending_department_head r =
    (r.approved_by_user_id ≡ none)
    × (r.approved_at ≡ none)
    × (r.rejected_by_user_id ≡ none)
    × (r.rejected_at ≡ none)
    × (r.rejection_reason ≡ none)
Decided approved r =
    (r.approved_by_user_id ≢ none)
    × (r.approved_at ≢ none)
    × (r.rejected_by_user_id ≡ none)
    × (r.rejected_at ≡ none)
    × (r.rejection_reason ≡ none)
Decided rejected r =
    (r.approved_by_user_id ≡ none)
    × (r.approved_at ≡ none)
    × (r.rejected_by_user_id ≢ none)
    × (r.rejected_at ≢ none)
    × (r.rejection_reason ≢ none)

pub record Consistent (to_fixed : ℕ → ℕ → ℕ) (r : FinalResult) : Type 0 where
  pub total : r.advisor_percentage + r.evaluator_percentage ≡ 100
  pub derived : All (IsDerived to_fixed r.advisor_percentage r.evaluator_percentage) r.scores
  pub decided : Decided r.status r

pub record Inv (to_fixed : ℕ → ℕ → ℕ) (db : Db) : Type 0 where
  pub totals : All WeightTotal db.weights
  pub ids : (id : ℕ) → count (is_result id) db.results ≤ 1
  pub results : All (Consistent to_fixed) db.results
