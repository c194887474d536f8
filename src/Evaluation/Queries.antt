-- ===== src/Evaluation/Queries.antt =====
-- The queries of the evaluation repositories, the callers that the services accept and the students
-- of a group. `ensureSupportedStage` accepts both stages that the schema has, so it never throws.
use text.Mathlib.Text.{◌==◌ as str_eq}
use academia_backend_api.Base.{
  filter, member, ℕ, String, Bool, true, false, ◌&&◌, Option, none, some, List, [], ◌∷◌, ◌++◌, ◌==◌,
  if◌then◌else◌, database_error, forbidden, not_found, exists, find, update, M, ◌>>=◌, ◌>>◌, pure,
  require, require_row, throw_when, write,
}
use academia_backend_api.Accounts.{UserStatus, Principal, User}
use academia_backend_api.Evaluation.Schema.{
  Db, Student, Project, StageWeight, EvaluationStage, same_stage, Evaluation, FinalResult,
}

-- A coordinator or a department head with the department's identifier.
pub record Actor : Type 0 where
  pub id : ℕ
  pub tenant_id : ℕ
  pub department_id : ℕ

-- `findUserDepartmentContext`, `findEvaluatorUserById`
abbrev pub find_user : ℕ → Db → Option User
find_user id db = find (λ u. u.id == id) db.users

-- `resolveCoordinatorContext` and `resolveDepartmentHeadContext`, for the name of the role.
unfoldable pub resolve_context : String → String → Principal → M Db Actor
resolve_context no_user no_department user = do
  sub ← require user.sub (forbidden "Missing user context")
  actor ← require_row (find_user sub) (not_found no_user)
  department_id ← require actor.department_id (forbidden no_department)
  pure (record { id = actor.id; tenant_id = actor.tenant_id; department_id = department_id })

unfoldable pub resolve_coordinator : Principal → M Db Actor
resolve_coordinator =
    resolve_context "Coordinator user not found" "Coordinator is not assigned to a department"

unfoldable pub resolve_department_head : Principal → M Db Actor
resolve_department_head =
    resolve_context "Department head user not found"
      "Department head is not assigned to a department"

abbrev pub weighs : ℕ → EvaluationStage → StageWeight → Bool
weighs department_id stage w = w.department_id == department_id && same_stage w.stage stage

-- `findDepartmentStageWeight`
abbrev pub find_weight : ℕ → EvaluationStage → Db → Option StageWeight
find_weight department_id stage db = find (weighs department_id stage) db.weights

-- `findDepartmentProjectDetail`
abbrev pub find_department_project : ℕ → ℕ → Db → Option Project
find_department_project department_id project_id db =
    find (λ p. p.id == project_id && p.department_id == department_id) db.projects

-- The project of `findEvaluatorProjectDetail`, for an evaluator who is assigned to it.
abbrev pub find_evaluator_project : ℕ → ℕ → Db → Option Project
find_evaluator_project user_id project_id db =
    find (λ p. p.id == project_id && member user_id p.evaluators) db.projects

abbrev pub evaluates : ℕ → ℕ → EvaluationStage → Evaluation → Bool
evaluates project_id author stage e =
    e.project_id == project_id && e.author == author && same_stage e.stage stage

abbrev pub find_evaluator_evaluation : ℕ → ℕ → EvaluationStage → Db → Option Evaluation
find_evaluator_evaluation project_id author stage db =
    find (evaluates project_id author stage) db.evaluator_evaluations

-- `project.advisorEvaluations[0] ?? null`
abbrev pub find_advisor_evaluation : ℕ → EvaluationStage → Db → Option Evaluation
find_advisor_evaluation project_id stage db =
    find (λ e. e.project_id == project_id && same_stage e.stage stage) db.advisor_evaluations

-- The unique key `projectId_stage`.
abbrev pub grades : ℕ → EvaluationStage → FinalResult → Bool
grades project_id stage r = r.project_id == project_id && same_stage r.stage stage

abbrev pub find_result : ℕ → EvaluationStage → Db → Option FinalResult
find_result project_id stage db = find (grades project_id stage) db.results

-- `findDepartmentProjectFinalResult`
abbrev pub find_department_result : ℕ → ℕ → EvaluationStage → Db → Option FinalResult
find_department_result department_id project_id stage db =
    find (λ r. r.department_id == department_id && grades project_id stage r) db.results

abbrev pub is_result : ℕ → FinalResult → Bool
is_result id r = r.id == id

unfoldable pub update_results : (FinalResult → Bool) → (FinalResult → FinalResult) → Db → Db
update_results p f db = record db { results = update p f db.results }

-- The identifiers of the table are unique.
unfoldable pub insert_result : FinalResult → M Db (Unit {0})
insert_result r = do
  throw_when (λ db. exists (is_result r.id) db.results) database_error
  write (λ db. record db { results = db.results ++ (r ∷ []) })

-- `map.set(student.id, student)`: a later row of the same student takes the place of the earlier.
unfoldable pub set_student : Student → List Student → List Student
set_student s [] = s ∷ []
set_student s (x ∷ xs) = if x.id == s.id then s ∷ xs else x ∷ set_student s xs

unfoldable pub set_students : List Student → List Student → List Student
set_students [] students = students
set_students (s ∷ candidates) students = set_students candidates (set_student s students)

abbrev is_current : UserStatus → Bool
is_current UserStatus.active = true
is_current UserStatus.pending = true
is_current _ = false

-- `normalizeStudents`, of the leader followed by the members.
unfoldable pub normalize_students : List Student → List Student
unfolding set_students
normalize_students candidates = filter (λ s. is_current s.status) (set_students candidates [])

-- `text?.trim() || null`
unfoldable pub trimmed : (String → String) → Option String → Option String
trimmed trim none = none
trimmed trim (some t) = if str_eq (trim t) "" then none else some (trim t)
