-- ===== src/Evaluation/Locking.antt =====
-- What is final: an approved result and an evaluation that was handed in. The children show that every
-- request keeps it.
pub mod Handlers
pub mod Reachable
use academia_backend_api.Base.{
  ℕ, ◌≤◌, String, Bool, true, false, ◌&&◌, Option, none, some, List, [], ◌∷◌, ◌++◌, ◌≡◌, ◌==◌, inl,
  inr, refl, sym, subst, ap, ◌∙◌, arith, Bool-cases, ==→eq, eq→==, count, exists, find,
  find-condition, find_of_unique, find-spared, find-append, update, Run, Post, Post-guard,
  Post-guard_then, Post-require, Post-require_row, Post-read, Post-throw_if, Post-throw_when,
  Post-return_if, Post-write_last, Post-transaction, Post-after,
}
use academia_backend_api.Accounts.{Principal}
use academia_backend_api.Evaluation.Schema.{
  Db, EvaluationStage, same_stage, capstone_i, capstone_ii, Evaluation, is_submitted, Score,
  FinalResult, is_approved,
}
use academia_backend_api.Evaluation.Queries.{
  grades, find_result, find_department_result, evaluates, find_evaluator_evaluation, is_result,
  update_results, insert_result,
}
use academia_backend_api.Evaluation.Weights.{update_weights}
use academia_backend_api.Evaluation.Scoring.{
  put_draft, drafted, save_draft, save_evaluator_draft, handed_in, submit_evaluation,
  submit_evaluator_evaluation, is_locked,
}
use academia_backend_api.Evaluation.Advising.{find_own_evaluation}
use academia_backend_api.Evaluation.Finalization.{
  upsert_result, refinalized, finalize_project, result_is, is_none,
}
use academia_backend_api.Evaluation.Decision.{approve_project, reject_project}
use academia_backend_api.Evaluation.Guards.{
  after-resolve_coordinator, after-resolve_department_head, after-require_assignment,
  after-check_draft, after-build_state,
}
use academia_backend_api.Evaluation.Invariant.{Inv}

-- What `db` holds as final is found unchanged in `s`.
pub record Locked (db s : Db) : Type 0 where
  pub results :
      (project_id : ℕ) (stage : EvaluationStage) (r : FinalResult)
      → find_result project_id stage db ≡ some r
      → is_approved r.status ≡ true
      → find_result project_id stage s ≡ some r
  pub evaluations :
      (project_id author : ℕ) (stage : EvaluationStage) (e : Evaluation)
      → find_evaluator_evaluation project_id author stage db ≡ some e
      → is_submitted e.status ≡ true
      → find_evaluator_evaluation project_id author stage s ≡ some e
  pub advice :
      (project_id author : ℕ) (stage : EvaluationStage) (e : Evaluation)
      → find_own_evaluation project_id author stage db ≡ some e
      → is_submitted e.status ≡ true
      → find_own_evaluation project_id author stage s ≡ some e

pub unmoved : (db : Db) → Locked db db
unmoved db = record {
  results = λ p st r h k. h;
  evaluations = λ p a st e h k. h;
  advice = λ p a st e h k. h;
}

same_stage→eq : (s t : EvaluationStage) → same_stage s t ≡ true → s ≡ t
same_stage→eq capstone_i capstone_i h = refl
same_stage→eq capstone_ii capstone_ii h = refl
same_stage→eq capstone_i capstone_ii h = cc
same_stage→eq capstone_ii capstone_i h = cc

-- Two keys that one row has are the same key.
grades-keys :
    (p q : ℕ) (s t : EvaluationStage) (r : FinalResult)
    → grades p s r ≡ true
    → grades q t r ≡ true
    → (p ≡ q) × (s ≡ t)
grades-keys p q s t r h k = (
  ground arith,
  sym (same_stage→eq r.stage s (ground arith)) ∙ same_stage→eq r.stage t (ground arith),
)

evaluates-keys :
    (p q a b : ℕ) (s t : EvaluationStage) (e : Evaluation)
    → evaluates p a s e ≡ true
    → evaluates q b t e ≡ true
    → (p ≡ q) × (a ≡ b) × (s ≡ t)
evaluates-keys p q a b s t e h k = (
  ground arith,
  ground arith,
  sym (same_stage→eq e.stage s (ground arith)) ∙ same_stage→eq e.stage t (ground arith),
)

-- A key under which an unapproved result or none is found does not belong to an approved result.
pub result_spared :
    (db : Db) (p q : ℕ) (s t : EvaluationStage) (r : FinalResult)
    → find_result p s db ≡ some r
    → is_approved r.status ≡ true
    → result_is is_approved (find_result q t db) ≡ false
    → grades q t r ≡ false
result_spared db p q s t r found a open_ = elim (Bool-cases (grades q t r)) [
  | inl h ↦
      let (pq, st) = grades-keys p q s t r (find-condition (grades p s) db.results found) h in
      let here : find_result q t db ≡ some r = rw (sym pq) (rw (sym st) found) in
      absurd (ground arith)
  | inr h ↦ h
]

pub evaluation_spared :
    (es : List Evaluation) (p q a b : ℕ) (s t : EvaluationStage) (e : Evaluation)
    → find (evaluates p a s) es ≡ some e
    → is_submitted e.status ≡ true
    → is_locked (find (evaluates q b t) es) ≡ false
    → evaluates q b t e ≡ false
evaluation_spared es p q a b s t e found l open_ = elim (Bool-cases (evaluates q b t e)) [
  | inl h ↦
      let (pq, ab, st) =
        evaluates-keys p q a b s t e (find-condition (evaluates p a s) es found) h in
      let here : find (evaluates q b t) es ≡ some e =
        rw (sym pq) (rw (sym ab) (rw (sym st) found)) in
      absurd (ground arith)
  | inr h ↦ h
]
