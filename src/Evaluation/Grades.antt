-- ===== src/Evaluation/Grades.antt =====
-- `calculateEvaluatorAverage`, `toLetterGrade`, `GRADE_SCALE` and the computation of `finalGrade` in
-- modules/evaluation/coordinator-project-evaluation.service.ts. Scores and grades are counted in
-- hundredths, the precision that the DTO allows a score and that `toFixed(2)` leaves a grade.
-- `Number((n / d).toFixed(2))` is a parameter, of `n` in hundredths and `d`: the rounding of
-- JavaScript's floating-point numbers is not code of the repository. The two shares of a final grade
-- stand over their common divisor of 100.
use academia_backend_api.Base.{
  length, ℕ, ◌+◌, ◌*◌, ◌≤◌, ◌<◌, Option, none, some, List, [], ◌∷◌, leb, if◌then◌else◌,
}

pub data LetterGrade : Type 0 where
  grade_a_plus grade_a grade_a_minus grade_b_plus grade_b grade_b_minus grade_c_plus grade_c
        grade_c_minus grade_d grade_f :
      LetterGrade

unfoldable pub to_letter_grade : ℕ → LetterGrade
to_letter_grade grade =
    if leb 9000 grade
    then grade_a_plus
    else if leb 8500 grade
    then grade_a
    else if leb 8000 grade
    then grade_a_minus
    else if leb 7500 grade
    then grade_b_plus
    else if leb 7000 grade
    then grade_b
    else if leb 6500 grade
    then grade_b_minus
    else if leb 6000 grade
    then grade_c_plus
    else if leb 5000 grade
    then grade_c
    else if leb 4500 grade
    then grade_c_minus
    else if leb 4000 grade
    then grade_d
    else grade_f

-- `GRADE_SCALE`: the least and the greatest grade of a letter.
unfoldable pub scale_min : LetterGrade → ℕ
scale_min grade_a_plus = 9000
scale_min grade_a = 8500
scale_min grade_a_minus = 8000
scale_min grade_b_plus = 7500
scale_min grade_b = 7000
scale_min grade_b_minus = 6500
scale_min grade_c_plus = 6000
scale_min grade_c = 5000
scale_min grade_c_minus = 4500
scale_min grade_d = 4000
scale_min grade_f = 0

unfoldable pub scale_max : LetterGrade → ℕ
scale_max grade_a_plus = 10000
scale_max grade_a = 8999
scale_max grade_a_minus = 8499
scale_max grade_b_plus = 7999
scale_max grade_b = 7499
scale_max grade_b_minus = 6999
scale_max grade_c_plus = 6499
scale_max grade_c = 5999
scale_max grade_c_minus = 4999
scale_max grade_d = 4499
scale_max grade_f = 3999

-- `scores.reduce((sum, score) => sum + score, 0)`
unfoldable pub sum : List ℕ → ℕ
sum [] = 0
sum (x ∷ xs) = x + sum xs

module _ (to_fixed : ℕ → ℕ → ℕ) where
  unfoldable pub calculate_evaluator_average : List ℕ → Option ℕ
  unfolding length sum
  calculate_evaluator_average [] = none
  calculate_evaluator_average (x ∷ xs) = some (to_fixed (sum (x ∷ xs)) (length (x ∷ xs)))

  -- The advisor's score, the evaluators' average, and the two percentages.
  unfoldable pub compute_final_grade : ℕ → ℕ → ℕ → ℕ → ℕ
  compute_final_grade advisor_score average advisor_percentage evaluator_percentage =
      to_fixed (advisor_score * advisor_percentage + average * evaluator_percentage) 100

-- What `toFixed` promises: the quotient is taken to a nearest number of hundredths, so a number of
-- hundredths that bounds the quotient bounds the result.
pub record RoundsToNearest (to_fixed : ℕ → ℕ → ℕ) : Type 0 where
  pub least : (n d k : ℕ) → 0 < d → k * d ≤ n → k ≤ to_fixed n d
  pub most : (n d k : ℕ) → 0 < d → n ≤ k * d → to_fixed n d ≤ k
