-- ===== src/Evaluation/Decision.antt =====
-- `approveProject` and `rejectProject` of department-head-project-evaluation.service.ts with their
-- repository methods. The notifications that follow change none of these tables, and their failures
-- are caught.
use academia_backend_api.Base.{
  ℕ, String, given, Option, none, some, bad_request, not_found, M, ◌>>=◌, ◌>>◌, require_row,
  throw_if, write,
}
use academia_backend_api.Accounts.{Principal}
use academia_backend_api.Evaluation.Schema.{
  Db, EvaluationStage, FinalResult, FinalResultStatus, is_approved, is_rejected,
}
use academia_backend_api.Evaluation.Queries.{
  resolve_department_head, find_department_result, is_result, update_results,
}

abbrev pub approved_result : ℕ → ℕ → Option String → FinalResult → FinalResult
approved_result now user_id note r = record r {
  status = FinalResultStatus.approved;
  approved_by_user_id = some user_id;
  approved_at = some now;
  approval_note = given note r.approval_note;
  rejected_by_user_id = none;
  rejected_at = none;
  rejection_reason = none;
}

abbrev pub rejected_result : ℕ → ℕ → String → FinalResult → FinalResult
rejected_result now user_id reason r = record r {
  status = FinalResultStatus.rejected;
  rejected_by_user_id = some user_id;
  rejected_at = some now;
  rejection_reason = some reason;
  approved_by_user_id = none;
  approved_at = none;
  approval_note = none;
}

unfoldable pub approve_project :
    ℕ → Principal → ℕ → EvaluationStage → Option String → M Db (Unit {0})
approve_project now user project_id stage note = do
  actor ← resolve_department_head user
  r ←
      require_row (find_department_result actor.department_id project_id stage)
        (not_found "Finalized project result not found for this department head")
  throw_if (is_approved r.status)
      (bad_request "Final grade has already been approved for this project and stage")
  throw_if (is_rejected r.status)
      (bad_request "Rejected final grade must be re-finalized by the coordinator before approval")
  write (update_results (is_result r.id) (approved_result now actor.id note))

unfoldable pub reject_project :
    (String → String) → ℕ → Principal → ℕ → EvaluationStage → String → M Db (Unit {0})
reject_project trim now user project_id stage reason = do
  actor ← resolve_department_head user
  r ←
      require_row (find_department_result actor.department_id project_id stage)
        (not_found "Finalized project result not found for this department head")
  throw_if (is_approved r.status) (bad_request "Approved final grade cannot be rejected")
  throw_if (is_rejected r.status)
      (bad_request "Final grade has already been rejected for this project and stage")
  write (update_results (is_result r.id) (rejected_result now actor.id (trim reason)))
