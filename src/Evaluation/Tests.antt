-- ===== src/Evaluation/Tests.antt =====
-- One project of a department, from the percentages to the approved grades, and the theorems at
-- points of that story.
use native.Mathlib.Nat.{le-div_iff_mul-le, div-lt_iff_lt-mul}
use academia_backend_api.Base.{
  filter, length, ok, ℕ, ◌+◌, ◌/◌, ◌≤◌, ◌<◌, suc, String, none, some, List, [], ◌∷◌, map, ◌≡◌, ◌↔◌,
  refl, Option, arith, effects, find, count, update, Post,
}
use academia_backend_api.Accounts.{
  UserStatus, Role, coordinator, department_head, advisor, Principal, tenant, User,
}
use academia_backend_api.Evaluation.Schema.{
  Project, Db, capstone_i, Score, FinalResult, FinalResultStatus,
}
use academia_backend_api.Evaluation.Grades.{
  LetterGrade, grade_a, grade_a_minus, to_letter_grade, scale_min, scale_max, sum,
  calculate_evaluator_average, compute_final_grade, RoundsToNearest,
}
use academia_backend_api.Evaluation.Bounds.{
  Within, to_letter_grade-in_scale, compute_final_grade-bounds,
}
use academia_backend_api.Evaluation.Queries.{
  resolve_context, resolve_coordinator, resolve_department_head, update_results, insert_result,
  set_student, set_students, normalize_students, trimmed, find_result,
}
use academia_backend_api.Evaluation.Weights.{upsert_weight, update_weights}
use academia_backend_api.Evaluation.Scoring.{
  require_assignment, check_draft, save_score, save_scores, put_draft, save_draft,
  save_evaluator_draft, missing_students, submit_evaluation, submit_evaluator_evaluation,
}
use academia_backend_api.Evaluation.Advising.{
  require_supervision, save_advisor_evaluation, save_advisor_draft, hand_in_advisor_evaluation,
  submit_advisor_evaluation,
}
use academia_backend_api.Evaluation.Finalization.{
  build_state, awaits_evaluators, collect_evaluator_scores, grade_student, grade_students,
  upsert_result, finalize_project,
}
use academia_backend_api.Evaluation.Decision.{approve_project, reject_project}
use academia_backend_api.Evaluation.System.{
  Request, weigh, save, submit, advise, hand_in, finalize, approve, reject, process, process_all,
}
use academia_backend_api.Evaluation.Invariant.{Inv}
use academia_backend_api.Evaluation.Invariant.Reachable.{process_all-Inv}
use academia_backend_api.Evaluation.Locking.{Locked}
use academia_backend_api.Evaluation.Locking.Reachable.{process_all-Locked}
use academia_backend_api.Evaluation.Contracts.{
  Finalized, Approved, finalize_project_lem, approve_project_lem,
}

runs : Unit {0}
unfolding effects find count update length sum calculate_evaluator_average compute_final_grade
    to_letter_grade resolve_context resolve_coordinator resolve_department_head update_results
    insert_result set_student set_students filter normalize_students trimmed upsert_weight
    update_weights require_assignment check_draft save_score save_scores put_draft save_draft
    save_evaluator_draft missing_students submit_evaluation submit_evaluator_evaluation build_state
    awaits_evaluators collect_evaluator_scores grade_student grade_students upsert_result
    finalize_project approve_project reject_project require_supervision save_advisor_evaluation
    save_advisor_draft hand_in_advisor_evaluation submit_advisor_evaluation process process_all
runs = tt

-- Rounding to a nearest number, upwards from the middle.
abbrev half_up : ℕ → ℕ → ℕ
half_up n d = (n + d / 2) / d

half_up-RoundsToNearest : RoundsToNearest half_up
half_up-RoundsToNearest = record {
  least = λ n d k pos h. (le-div_iff_mul-le pos).1 (omega arith);
  most = λ n d k pos h.
      let below : half_up n d < suc k = (div-lt_iff_lt-mul pos).1 (omega arith) in omega arith;
}

abbrev person : ℕ → Role → User
person id role = record {
  id = id;
  tenant_id = 5;
  department_id = some 10;
  email = "x@y";
  deleted_at = none;
  roles = role ∷ [];
}

abbrev caller : ℕ → Role → Principal
caller id role = record { sub = some id; tenant_id = tenant 5; roles = role ∷ [] }

abbrev score : ℕ → ℕ → Score
score id n = record { student_user_id = id; score = n; comment = none }

abbrev project_row : Project
project_row = record {
  id = 100;
  department_id = 10;
  group = some (
      record { id = 1; status = UserStatus.active }
      ∷ record { id = 2; status = UserStatus.pending }
      ∷ record { id = 3; status = UserStatus.suspended }
      ∷ []);
  advisor_id = some 20;
  evaluators = 21 ∷ 22 ∷ [];
}

abbrev start : Db
start = record {
  users =
      person 7 coordinator ∷ person 9 department_head ∷ person 21 advisor ∷ person 22 advisor ∷ [];
  advisors = 20 ∷ [];
  projects = project_row ∷ [];
  weights = [];
  advisor_evaluations = [];
  evaluator_evaluations = [];
  results = [];
}

abbrev scoring : List Request
scoring =
    weigh (caller 7 coordinator) capstone_i 40 60
    ∷ advise (caller 20 advisor) 100 capstone_i (score 1 9000 ∷ score 2 7050 ∷ [])
    ∷ hand_in (caller 20 advisor) 100 capstone_i
    ∷ save (caller 21 advisor) 100 capstone_i (score 1 8000 ∷ score 2 9100 ∷ [])
    ∷ submit (caller 21 advisor) 100 capstone_i
    ∷ save (caller 22 advisor) 100 capstone_i (score 1 8501 ∷ score 2 9000 ∷ [])
    ∷ submit (caller 22 advisor) 100 capstone_i
    ∷ []

abbrev approving : List Request
approving = approve 40 (caller 9 department_head) 100 capstone_i none ∷ []

unchanged : String → String
unchanged t = t

unfoldable scored_db : Db
unfolding runs
scored_db = process_all half_up unchanged scoring start

abbrev finalizing : List Request
finalizing = finalize 500 30 (caller 7 coordinator) 100 capstone_i none ∷ []

unfoldable finalized_db : Db
unfolding runs scored_db
finalized_db = process_all half_up unchanged finalizing scored_db

unfoldable approved_db : Db
unfolding runs finalized_db
approved_db = process_all half_up unchanged approving finalized_db

-- The grades of a result with their letters.
abbrev grades_of : Option FinalResult → List (ℕ × LetterGrade)
grades_of none = []
grades_of (some r) = map (λ f. (f.final_grade, f.letter_grade)) r.scores

abbrev status_of : Option FinalResult → Option FinalResultStatus
status_of none = none
status_of (some r) = some r.status

approved_grades :
    grades_of (find_result 100 capstone_i approved_db)
    ≡ ((8551, grade_a) ∷ (8250, grade_a_minus) ∷ [])
unfolding runs scored_db finalized_db approved_db
approved_grades = refl

approved_status :
    status_of (find_result 100 capstone_i approved_db) ≡ some FinalResultStatus.approved
unfolding runs scored_db finalized_db approved_db
approved_status = refl

-- Attempts to change what is final.
abbrev meddling : List Request
meddling =
    finalize 501 50 (caller 7 coordinator) 100 capstone_i none
    ∷ reject 51 (caller 9 department_head) 100 capstone_i "late"
    ∷ save (caller 21 advisor) 100 capstone_i (score 1 0 ∷ [])
    ∷ advise (caller 20 advisor) 100 capstone_i (score 1 0 ∷ [])
    ∷ []

start-Inv : Inv half_up start
unfolding count
start-Inv = record { totals = tt; ids = λ id. omega arith; results = tt }

to_letter_grade-in_scale_example :
    (to_letter_grade 8499 ≡ grade_a_minus)
    ↔ ((scale_min grade_a_minus ≤ 8499) × (8499 ≤ scale_max grade_a_minus))
to_letter_grade-in_scale_example = to_letter_grade-in_scale 8499 grade_a_minus (omega arith)

compute_final_grade-bounds_example : Within 8000 9000 (compute_final_grade half_up 9000 8251 40 60)
unfolding runs
compute_final_grade-bounds_example =
    compute_final_grade-bounds half_up half_up-RoundsToNearest 8000 9000 9000 (8000 ∷ 8501 ∷ [])
      8251 40 60 (omega arith, omega arith)
      ((omega arith, omega arith), ((omega arith, omega arith), tt)) refl refl

process_all-Inv_example : Inv half_up (process_all half_up unchanged scoring start)
process_all-Inv_example = process_all-Inv half_up unchanged scoring start start-Inv

scored-Inv : Inv half_up scored_db
unfolding scored_db
scored-Inv = process_all-Inv half_up unchanged scoring start start-Inv

approved-Inv : Inv half_up approved_db
unfolding finalized_db approved_db
approved-Inv =
    process_all-Inv half_up unchanged approving finalized_db
      (process_all-Inv half_up unchanged finalizing scored_db scored-Inv)

process_all-Locked_example : Locked approved_db (process_all half_up unchanged meddling approved_db)
process_all-Locked_example = process_all-Locked half_up unchanged meddling approved_db approved-Inv

finalize_project_lem_example :
    Post
      (λ a s. Finalized half_up unchanged (caller 7 coordinator) 100 capstone_i scored_db s)
      (λ s. s ≡ scored_db)
      (finalize_project half_up unchanged 500 30
        (caller 7 coordinator)
        100
        capstone_i
        none
        scored_db)
finalize_project_lem_example =
    finalize_project_lem half_up unchanged 500 30 (caller 7 coordinator) 100 capstone_i none
      scored_db

approve_project_lem_example :
    Post
      (λ a s. Approved 40 (caller 9 department_head) 100 capstone_i none finalized_db s)
      (λ s. s ≡ finalized_db)
      (approve_project 40 (caller 9 department_head) 100 capstone_i none finalized_db)
approve_project_lem_example =
    approve_project_lem 40 (caller 9 department_head) 100 capstone_i none finalized_db

unfoldable drafted_db : Db
unfolding runs
drafted_db =
    process_all half_up unchanged
      (save (caller 21 advisor) 100 capstone_i (score 1 8000 ∷ score 2 9100 ∷ []) ∷ []) start

drafted_test :
    submit_evaluator_evaluation (caller 21 advisor) 100 capstone_i drafted_db
    ≡ ok tt (process half_up unchanged (submit (caller 21 advisor) 100 capstone_i) drafted_db)
unfolding runs drafted_db
drafted_test = refl
