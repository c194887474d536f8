-- ===== src/Evaluation/Invariant/Grading.antt =====
-- The rows that `finalizeProject` computes are derived from the scores.
use academia_backend_api.Base.{
  ℕ, String, some, List, [], ◌∷◌, map, ◌≡◌, inl, inr, refl, subst, arith, All, Option-cases,
}
use academia_backend_api.Evaluation.Schema.{Student, Score, StageWeight, EvaluatorScore, FinalScore}
use academia_backend_api.Evaluation.Grades.{calculate_evaluator_average}
use academia_backend_api.Evaluation.Finalization.{
  DetailState, score_in, collect_evaluator_scores, graded, grade_student, grade_students,
}
use academia_backend_api.Evaluation.Invariant.{IsDerived}

module _ (to_fixed : ℕ → ℕ → ℕ) (trim : String → String) (st : DetailState) (w : StageWeight) where
  graded-IsDerived :
      (id : ℕ) (s : Score) (given_scores : List EvaluatorScore) (average : ℕ)
      → calculate_evaluator_average to_fixed (map (λ e. e.score) given_scores) ≡ some average
      → IsDerived to_fixed w.advisor_percentage w.evaluator_percentage
          (graded to_fixed trim w id s given_scores average)
  graded-IsDerived id s given_scores average e = record { average = e; grade = refl; letter = refl }

  grade_student-IsDerived :
      (student : Student) (row : FinalScore)
      → grade_student to_fixed trim st w student ≡ some row
      → IsDerived to_fixed w.advisor_percentage w.evaluator_percentage row
  unfolding grade_student
  grade_student-IsDerived student row h =
      elim (Option-cases (score_in st.advisor_evaluation student.id)) [
        | inl e ↦ absurd (ground arith)
        | inr (s, e) ↦
            elim (Option-cases
              (collect_evaluator_scores st.evaluations student.id st.project.evaluators)) [
                | inl k ↦ absurd (ground arith)
                | inr (ss, k) ↦
                    elim (Option-cases
                      (calculate_evaluator_average to_fixed (map (λ e. e.score) ss))) [
                        | inl l ↦ absurd (ground arith)
                        | inr (average, l) ↦
                            let made : graded to_fixed trim w student.id s ss average ≡ row =
                              ground arith in
                            subst (IsDerived to_fixed w.advisor_percentage w.evaluator_percentage)
                              made (graded-IsDerived student.id s ss average l)
                      ]
              ]
      ]

  pub grade_students-IsDerived :
      (students : List Student) (rows : List FinalScore)
      → grade_students to_fixed trim st w students ≡ some rows
      → All (IsDerived to_fixed w.advisor_percentage w.evaluator_percentage) rows
  unfolding grade_students
  grade_students-IsDerived [] rows h =
      let made : [] ≡ rows = ground arith in
      subst (All (IsDerived to_fixed w.advisor_percentage w.evaluator_percentage)) made tt
  grade_students-IsDerived (s ∷ students) rows h =
      elim (Option-cases (grade_student to_fixed trim st w s)) [
        | inl e ↦ absurd (ground arith)
        | inr (row, e) ↦ elim (Option-cases (grade_students to_fixed trim st w students)) [
          | inl k ↦ absurd (ground arith)
          | inr (rest, k) ↦
              let made : row ∷ rest ≡ rows = ground arith in
              subst (All (IsDerived to_fixed w.advisor_percentage w.evaluator_percentage)) made
                (grade_student-IsDerived s row e, grade_students-IsDerived students rest k)
        ]
      ]
