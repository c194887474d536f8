-- ===== src/Evaluation/Invariant/Steps.antt =====
-- Every handler keeps the invariant.
use academia_backend_api.Base.{
  ℕ, ◌≤◌, String, Bool, true, false, not, Option, List, [], ◌∷◌, ◌++◌, ◌≡◌, inl, inr, refl, sym,
  subst, arith, Bool-cases, ==→eq, count, exists, update, ◌==◌, count-update, count-append, All,
  All-update, All-append, Run, Post, Post-pure, Post-return_if, Post-guard, Post-guard_then,
  Post-require_row, Post-read, Post-throw_if, Post-throw_when, Post-write_last, Post-transaction,
}
use academia_backend_api.Accounts.{Principal}
use academia_backend_api.Evaluation.Schema.{Db, EvaluationStage, Score, StageWeight, FinalResult}
use academia_backend_api.Evaluation.Queries.{weighs, is_result, update_results}
use academia_backend_api.Evaluation.Weights.{upsert_weight, update_weights}
use academia_backend_api.Evaluation.Scoring.{
  save_draft, save_evaluator_draft, submit_evaluation, submit_evaluator_evaluation,
}
use academia_backend_api.Evaluation.Advising.{
  save_advisor_evaluation, save_advisor_draft, hand_in_advisor_evaluation,
  submit_advisor_evaluation,
}
use academia_backend_api.Evaluation.Decision.{
  approved_result, rejected_result, approve_project, reject_project,
}
use academia_backend_api.Evaluation.Guards.{
  after-resolve_coordinator, after-resolve_department_head, after-require_assignment,
  after-check_draft, after-require_supervision,
}
use academia_backend_api.Evaluation.Invariant.{WeightTotal, Consistent, Inv}

not-not : (b : Bool) → not b ≡ false → b ≡ true
not-not b h = ground arith

upsert_weight-All :
    (w : StageWeight) (user_id : ℕ) (ws : List StageWeight)
    → WeightTotal w
    → All WeightTotal ws
    → All WeightTotal (upsert_weight w user_id ws)
unfolding upsert_weight
upsert_weight-All w user_id ws total h =
    elim (Bool-cases (exists (weighs w.department_id w.stage) ws)) [
      | inl e ↦ rw e (All-update WeightTotal _ _ _ (λ x k t. total) (λ x k t. k) ws h)
      | inr e ↦ rw e (All-append _ ws _ h (total, tt))
    ]

pub update_ids :
    (p : FinalResult → Bool) (f : FinalResult → FinalResult)
    → ((r : FinalResult) → (f r).id ≡ r.id)
    → (rs : List FinalResult) → ((id : ℕ) → count (is_result id) rs ≤ 1)
    → (id : ℕ) → count (is_result id) (update p f rs) ≤ 1
update_ids p f k rs h id =
    subst (λ n. n ≤ 1) (sym (count-update (is_result id) p f (λ r. rw (k r) refl) rs)) (h id)

pub count-append_row :
    (r : FinalResult) (rs : List FinalResult) (id : ℕ)
    → count (is_result r.id) rs ≡ 0
    → count (is_result id) rs ≤ 1
    → count (is_result id) (rs ++ (r ∷ [])) ≤ 1
count-append_row r rs id h k =
    rw (count-append (is_result id) rs r) (elim (Bool-cases (r.id == id)) [
      | inl e ↦ rw e (
          let none_left : count (is_result id) rs ≡ 0 =
            subst (λ i. count (is_result i) rs ≡ 0) (==→eq _ _ e) h in
          omega (arith, none_left))
      | inr e ↦ rw e k
    ])

module _ (to_fixed : ℕ → ℕ → ℕ) (db : Db) (v : Inv to_fixed db) where
  -- The run keeps the invariant, whether it returns or throws.
  abbrev pub Keeps : Run Db (Unit {0}) → Type 0
  Keeps r = Post (λ a s. Inv to_fixed s) (Inv to_fixed) r

  pub update_weights-Inv :
      (user : Principal) (stage : EvaluationStage) (p q : ℕ)
      → Keeps (update_weights user stage p q db)
  unfolding update_weights
  update_weights-Inv user stage p q = Post-throw_if _ _ v λ total.
      Post-guard _ _ (after-resolve_coordinator user db) v λ actor authorized.
        Post-write_last _ _ (record {
          totals = upsert_weight-All _ _ db.weights (==→eq _ _ (not-not _ total)) v.totals;
          ids = v.ids;
          results = v.results;
        })

  pub save_evaluator_draft-Inv :
      (trim : String → String) (user : Principal) (project_id : ℕ) (stage : EvaluationStage)
      (students : List Score)
      → Keeps (save_evaluator_draft trim user project_id stage students db)
  unfolding save_evaluator_draft save_draft
  save_evaluator_draft-Inv trim user project_id stage students =
      Post-guard _ _ (after-require_assignment user project_id db) v λ assignment h.
        Post-guard_then _ _ (after-check_draft assignment.students [] students db) v λ checked.
          Post-transaction (Inv to_fixed) _ v (
            Post-throw_when _ _ _ v λ unlocked. Post-throw_when _ _ _ v λ placed.
              Post-write_last _ _ (record { totals = v.totals; ids = v.ids; results = v.results }))

  pub submit_evaluator_evaluation-Inv :
      (user : Principal) (project_id : ℕ) (stage : EvaluationStage)
      → Keeps (submit_evaluator_evaluation user project_id stage db)
  unfolding submit_evaluator_evaluation submit_evaluation
  submit_evaluator_evaluation-Inv user project_id stage =
      Post-guard _ _ (after-require_assignment user project_id db) v λ assignment h.
        Post-throw_if _ _ v λ some_students. Post-read _ _ _ (
          Post-throw_if _ _ v λ complete. Post-transaction (Inv to_fixed) _ v (
            Post-require_row _ _ _ v λ e found. Post-throw_if _ _ v λ unlocked.
              Post-write_last _ _ (record { totals = v.totals; ids = v.ids; results = v.results })))

  pub save_advisor_draft-Inv :
      (trim : String → String) (user : Principal) (project_id : ℕ) (stage : EvaluationStage)
      (students : List Score)
      → Keeps (save_advisor_draft trim user project_id stage students db)
  unfolding save_advisor_draft save_advisor_evaluation
  save_advisor_draft-Inv trim user project_id stage students =
      Post-guard _ _ (after-require_supervision user project_id db) v λ own h.
        Post-guard_then _ _ (after-check_draft own.students [] students db) v λ checked.
          Post-transaction (Inv to_fixed) _ v (
            Post-throw_when _ _ _ v λ unlocked.
              Post-write_last _ _ (record { totals = v.totals; ids = v.ids; results = v.results }))

  pub submit_advisor_evaluation-Inv :
      (user : Principal) (project_id : ℕ) (stage : EvaluationStage)
      → Keeps (submit_advisor_evaluation user project_id stage db)
  unfolding submit_advisor_evaluation hand_in_advisor_evaluation
  submit_advisor_evaluation-Inv user project_id stage =
      Post-guard _ _ (after-require_supervision user project_id db) v λ own h.
        Post-throw_if _ _ v λ some_students. Post-read _ _ _ (
          Post-throw_if _ _ v λ complete. Post-transaction (Inv to_fixed) _ v (
            Post-require_row _ _ _ v λ e found.
              Post-return_if _ _ _ _ (λ done. Post-pure _ _ v)
                λ unlocked.
                  Post-write_last _ _
                    (record { totals = v.totals; ids = v.ids; results = v.results })))

  decide-Inv :
      (id : ℕ) (f : FinalResult → FinalResult)
      → ((r : FinalResult) → (f r).id ≡ r.id)
      → ((r : FinalResult) → Consistent to_fixed r → Consistent to_fixed (f r))
      → Inv to_fixed (update_results (is_result id) f db)
  unfolding update_results
  decide-Inv id f k l = record {
    totals = v.totals;
    ids = update_ids _ f k db.results v.ids;
    results =
        All-update (Consistent to_fixed) _ _ _ (λ r c t. l r c) (λ r c t. c) db.results v.results;
  }

  pub approve_project-Inv :
      (now : ℕ) (user : Principal) (project_id : ℕ) (stage : EvaluationStage) (note : Option String)
      → Keeps (approve_project now user project_id stage note db)
  unfolding approve_project
  approve_project-Inv now user project_id stage note =
      Post-guard _ _ (after-resolve_department_head user db) v λ actor authorized.
        Post-require_row _ _ _ v λ r found. Post-throw_if _ _ v λ open_.
          Post-throw_if _ _ v λ unrejected. Post-write_last _ _ (
            decide-Inv r.id (approved_result now actor.id note) (λ x. refl)
              λ x c. record {
                total = c.total;
                derived = c.derived;
                decided = (λ e. cc, λ e. cc, refl, refl, refl);
              })

  pub reject_project-Inv :
      (trim : String → String) (now : ℕ) (user : Principal) (project_id : ℕ)
      (stage : EvaluationStage) (reason : String)
      → Keeps (reject_project trim now user project_id stage reason db)
  unfolding reject_project
  reject_project-Inv trim now user project_id stage reason =
      Post-guard _ _ (after-resolve_department_head user db) v λ actor authorized.
        Post-require_row _ _ _ v λ r found. Post-throw_if _ _ v λ open_.
          Post-throw_if _ _ v λ unrejected. Post-write_last _ _ (
            decide-Inv r.id (rejected_result now actor.id (trim reason)) (λ x. refl)
              λ x c. record {
                total = c.total;
                derived = c.derived;
                decided = (refl, refl, λ e. cc, λ e. cc, λ e. cc);
              })
