-- ===== src/Evaluation/Bounds.antt =====
-- How grades relate to the scores that they are made from and to the grade scale.
use native.Mathlib.Nat.{mul-add, mul-le-mul_right}
use academia_backend_api.Base.{
  length, ℕ, ◌+◌, ◌*◌, ◌≤◌, some, List, [], ◌∷◌, ◌≡◌, ◌↔◌, sym, ap, subst, ◌∙◌, arith, All,
}
use academia_backend_api.Evaluation.Grades.{
  LetterGrade, grade_a_plus, grade_a, grade_a_minus, grade_b_plus, grade_b, grade_b_minus,
  grade_c_plus, grade_c, grade_c_minus, grade_d, grade_f, to_letter_grade, scale_min, scale_max,
  sum, calculate_evaluator_average, compute_final_grade, RoundsToNearest,
}

scale-to_letter :
    (l : LetterGrade) (g : ℕ)
    → g ≤ 10000
    → to_letter_grade g ≡ l
    → (scale_min l ≤ g) × (g ≤ scale_max l)
unfolding to_letter_grade scale_min scale_max
scale-to_letter l g h e = ground arith

to_letter-scale :
    (l : LetterGrade) (g : ℕ) → scale_min l ≤ g → g ≤ scale_max l → to_letter_grade g ≡ l
unfolding to_letter_grade scale_min scale_max
to_letter-scale grade_a_plus g h k = ground arith
to_letter-scale grade_a g h k = ground arith
to_letter-scale grade_a_minus g h k = ground arith
to_letter-scale grade_b_plus g h k = ground arith
to_letter-scale grade_b g h k = ground arith
to_letter-scale grade_b_minus g h k = ground arith
to_letter-scale grade_c_plus g h k = ground arith
to_letter-scale grade_c g h k = ground arith
to_letter-scale grade_c_minus g h k = ground arith
to_letter-scale grade_d g h k = ground arith
to_letter-scale grade_f g h k = ground arith

weighted_least : (lo s t p q : ℕ) → lo ≤ s → lo ≤ t → p + q ≡ 100 → lo * 100 ≤ s * p + t * q
weighted_least lo s t p q h k total =
    let left : lo * p ≤ s * p = mul-le-mul_right p h in
    let right : lo * q ≤ t * q = mul-le-mul_right q k in
    let split : lo * 100 ≡ lo * p + lo * q = ap (λ n. lo * n) (sym total) ∙ mul-add lo p q in
    omega arith

weighted_most : (hi s t p q : ℕ) → s ≤ hi → t ≤ hi → p + q ≡ 100 → s * p + t * q ≤ hi * 100
weighted_most hi s t p q h k total =
    let left : s * p ≤ hi * p = mul-le-mul_right p h in
    let right : t * q ≤ hi * q = mul-le-mul_right q k in
    let split : hi * 100 ≡ hi * p + hi * q = ap (λ n. hi * n) (sym total) ∙ mul-add hi p q in
    omega arith

abbrev pub Within : ℕ → ℕ → ℕ → Type 0
Within lo hi x = (lo ≤ x) × (x ≤ hi)

sum-Within :
    (lo hi : ℕ) (xs : List ℕ)
    → All (Within lo hi) xs
    → Within (lo * length xs) (hi * length xs) (sum xs)
unfolding sum length
sum-Within lo hi [] h = (omega arith, omega arith)
sum-Within lo hi (x ∷ xs) ((l, m), h) =
    let (p, q) = sum-Within lo hi xs h in (omega arith, omega arith)

-- A grade up to 100 gets a letter exactly where it lies between the bounds that the published scale
-- gives that letter. So every such grade lies in the interval of one letter only.
pub to_letter_grade-in_scale :
    (g : ℕ) (l : LetterGrade)
    → g ≤ 10000
    → (to_letter_grade g ≡ l) ↔ ((scale_min l ≤ g) × (g ≤ scale_max l))
to_letter_grade-in_scale g l h = (scale-to_letter l g h, λ (p, q). to_letter-scale l g p q)

-- A higher grade never gets a letter of a lower interval.
pub to_letter_grade-monotone :
    (g h : ℕ) → g ≤ h → scale_min (to_letter_grade g) ≤ scale_min (to_letter_grade h)
unfolding to_letter_grade scale_min
to_letter_grade-monotone g h k = ground arith

module _ (to_fixed : ℕ → ℕ → ℕ) (rounds : RoundsToNearest to_fixed) (lo hi : ℕ) where
  average-Within :
      (x : ℕ) (xs : List ℕ)
      → All (Within lo hi) (x ∷ xs)
      → Within lo hi (to_fixed (sum (x ∷ xs)) (length (x ∷ xs)))
  unfolding length
  average-Within x xs h =
      let (p, q) = sum-Within lo hi (x ∷ xs) h in
      (rounds.least _ _ lo (omega arith) p, rounds.most _ _ hi (omega arith) q)

  -- The average that a student gets of the evaluators, who gave at least one score, lies between
  -- any two bounds of these scores, also after the rounding.
  pub calculate_evaluator_average-bounds :
      (scores : List ℕ) (average : ℕ)
      → All (Within lo hi) scores
      → calculate_evaluator_average to_fixed scores ≡ some average
      → Within lo hi average
  unfolding calculate_evaluator_average
  calculate_evaluator_average-bounds [] average h e = cc
  calculate_evaluator_average-bounds (x ∷ xs) average h e =
      subst (Within lo hi) (cc) (average-Within x xs h)

  -- Where the percentages sum to 100, the final grade lies between any two bounds of the advisor's
  -- score and of the evaluators' scores, also after both roundings. So it is at most 100, and a
  -- grade that all of them support is not lost.
  pub compute_final_grade-bounds :
      (advisor_score : ℕ) (scores : List ℕ) (average advisor_percentage evaluator_percentage : ℕ)
      → Within lo hi advisor_score
      → All (Within lo hi) scores
      → calculate_evaluator_average to_fixed scores ≡ some average
      → advisor_percentage + evaluator_percentage ≡ 100
      → Within lo hi (
          compute_final_grade to_fixed advisor_score average advisor_percentage
            evaluator_percentage)
  unfolding compute_final_grade
  compute_final_grade-bounds s scores average p q (sl, sh) h e total =
      let (al, ah) = calculate_evaluator_average-bounds scores average h e in
      (
        rounds.least _ _ lo (omega arith) (weighted_least lo s average p q sl al total),
        rounds.most _ _ hi (omega arith) (weighted_most hi s average p q sh ah total),
      )
