-- ===== src/Evaluation/Invariant/Finalizing.antt =====
-- `finalizeProject` keeps the invariant.
use academia_backend_api.Base.{
  ℕ, String, false, Option, none, some, List, ◌≡◌, refl, arith, exists, find, find-All,
  count-find-none, All-update, All-append, Post-guard, Post-require, Post-read, Post-throw_if,
  Post-throw_when, Post-return_if, Post-write_last, Post-transaction, sym, ◌∙◌,
}
use academia_backend_api.Accounts.{Principal}
use academia_backend_api.Evaluation.Schema.{Db, EvaluationStage, StageWeight, FinalResult}
use academia_backend_api.Evaluation.Queries.{is_result, update_results, insert_result, weighs}
use academia_backend_api.Evaluation.Finalization.{
  DetailState, refinalized, upsert_result, finalize_project,
}
use academia_backend_api.Evaluation.Guards.{
  after-resolve_coordinator, after-build_state, build_state_lem, Read,
}
use academia_backend_api.Evaluation.Invariant.{WeightTotal, Consistent, Inv}
use academia_backend_api.Evaluation.Invariant.Grading.{grade_students-IsDerived}
use academia_backend_api.Evaluation.Invariant.Steps.{Keeps, update_ids, count-append_row}

exists_none :
    (id : ℕ) (rs : List FinalResult)
    → exists (is_result id) rs ≡ false
    → find (is_result id) rs ≡ none
exists_none id rs h = ground arith

module _ (to_fixed : ℕ → ℕ → ℕ) (trim : String → String) (db : Db) (v : Inv to_fixed db) where
  insert_result-Inv :
      (new : FinalResult) → Consistent to_fixed new → Keeps to_fixed db v (insert_result new db)
  unfolding insert_result
  insert_result-Inv new c = Post-throw_when _ _ _ v λ fresh. Post-write_last _ _ (record {
    totals = v.totals;
    ids = λ id.
        count-append_row new db.results id
          (count-find-none _ db.results (exists_none new.id db.results fresh)) (v.ids id);
    results = All-append _ db.results _ v.results (c, tt);
  })

  upsert_result-Inv :
      (new : FinalResult)
      → Consistent to_fixed new
      → ((r : FinalResult) → Consistent to_fixed (refinalized new r))
      → Keeps to_fixed db v (upsert_result new db)
  unfolding upsert_result update_results
  upsert_result-Inv new c k = Post-read _ _ _ (
      Post-throw_if _ _ v λ open_.
        Post-return_if _ _ _ _ (λ first. insert_result-Inv new c)
          λ again. Post-write_last _ _ (record {
            totals = v.totals;
            ids = update_ids _ _ (λ r. refl) db.results v.ids;
            results =
                All-update (Consistent to_fixed) _ _ _ (λ r d t. k r) (λ r d t. d) db.results
                  v.results;
          }))

  total_of :
      (project_id : ℕ) (stage : EvaluationStage) (st : DetailState) (w : StageWeight)
      → Read project_id stage db st
      → st.weight ≡ some w
      → WeightTotal w
  total_of project_id stage st w r h =
      let found : find (weighs r.department_id stage) db.weights ≡ some w = sym r.weight ∙ h in
      find-All WeightTotal _ db.weights v.totals found

  pub finalize_project-Inv :
      (fresh now : ℕ) (user : Principal) (project_id : ℕ) (stage : EvaluationStage)
      (note : Option String)
      → Keeps to_fixed db v (finalize_project to_fixed trim fresh now user project_id stage note db)
  unfolding finalize_project
  finalize_project-Inv fresh now user project_id stage text =
      Post-guard _ _ (after-build_state user project_id stage db) v λ st built.
        Post-require _ _ v λ w weighed. Post-throw_if _ _ v λ advised.
          Post-throw_if _ _ v λ evaluated. Post-throw_if _ _ v λ unpending.
            Post-throw_if _ _ v λ unapproved. Post-require _ _ v λ rows complete.
              Post-guard _ _ (after-resolve_coordinator user db) v λ actor authorized.
                Post-transaction (Inv to_fixed) _ v (
                  let total =
                    total_of project_id stage st w
                      (build_state_lem user project_id stage db st built) weighed in
                  let derived =
                    grade_students-IsDerived to_fixed trim st w st.students rows complete in
                  upsert_result-Inv _
                    (record {
                      total = total;
                      derived = derived;
                      decided = (refl, refl, refl, refl, refl);
                    })
                    (λ r. record {
                      total = total;
                      derived = derived;
                      decided = (refl, refl, refl, refl, refl);
                    }))
