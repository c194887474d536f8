-- ===== src/Evaluation/Locking/Handlers.antt =====
-- Every handler keeps what is final.
use academia_backend_api.Base.{
  ℕ, ◌≤◌, String, true, false, Option, some, List, [], ◌≡◌, inl, inr, refl, sym, subst, arith,
  Bool-cases, eq→==, count, exists, find, find_of_unique, find-spared, find-append, Run, Post,
  Post-pure, Post-guard, Post-guard_then, Post-require, Post-require_row, Post-read, Post-throw_if,
  Post-throw_when, Post-return_if, Post-write_last, Post-transaction,
}
use academia_backend_api.Accounts.{Principal}
use academia_backend_api.Evaluation.Schema.{
  Db, EvaluationStage, Evaluation, is_submitted, Score, FinalResult, is_approved,
}
use academia_backend_api.Evaluation.Queries.{
  grades, find_result, find_department_result, evaluates, find_evaluator_evaluation, is_result,
  update_results, insert_result,
}
use academia_backend_api.Evaluation.Weights.{update_weights}
use academia_backend_api.Evaluation.Scoring.{
  put_draft, save_draft, save_evaluator_draft, submit_evaluation, submit_evaluator_evaluation,
  is_locked,
}
use academia_backend_api.Evaluation.Advising.{
  find_own_evaluation, save_advisor_evaluation, save_advisor_draft, hand_in_advisor_evaluation,
  submit_advisor_evaluation,
}
use academia_backend_api.Evaluation.Finalization.{upsert_result, finalize_project}
use academia_backend_api.Evaluation.Decision.{approve_project, reject_project}
use academia_backend_api.Evaluation.Guards.{
  after-resolve_coordinator, after-resolve_department_head, after-require_assignment,
  after-check_draft, after-require_supervision, after-build_state,
}
use academia_backend_api.Evaluation.Invariant.{Inv}
use academia_backend_api.Evaluation.Locking.{Locked, unmoved, result_spared, evaluation_spared}

-- The run keeps what is final, whether it returns or throws.
abbrev pub Keeps : Db → Run Db (Unit {0}) → Type 0
Keeps db r = Post (λ a s. Locked db s) (Locked db) r

-- A new table of evaluations or of results, the other tables being as they were.
evaluations-Locked :
    (db s : Db)
    → s.results ≡ db.results
    → s.advisor_evaluations ≡ db.advisor_evaluations
    → ((project_id author : ℕ) (stage : EvaluationStage) (e : Evaluation)
        → find_evaluator_evaluation project_id author stage db ≡ some e
        → is_submitted e.status ≡ true
        → find_evaluator_evaluation project_id author stage s ≡ some e)
    → Locked db s
evaluations-Locked db s same other h = record {
  results = λ p st r found a. rw same found;
  evaluations = h;
  advice = λ p a st e found l. rw other found;
}

advice-Locked :
    (db s : Db)
    → s.results ≡ db.results
    → s.evaluator_evaluations ≡ db.evaluator_evaluations
    → ((project_id author : ℕ) (stage : EvaluationStage) (e : Evaluation)
        → find_own_evaluation project_id author stage db ≡ some e
        → is_submitted e.status ≡ true
        → find_own_evaluation project_id author stage s ≡ some e)
    → Locked db s
advice-Locked db s same other h = record {
  results = λ p st r found a. rw same found;
  evaluations = λ p a st e found l. rw other found;
  advice = h;
}

results-Locked :
    (db s : Db)
    → s.evaluator_evaluations ≡ db.evaluator_evaluations
    → s.advisor_evaluations ≡ db.advisor_evaluations
    → ((project_id : ℕ) (stage : EvaluationStage) (r : FinalResult)
        → find_result project_id stage db ≡ some r
        → is_approved r.status ≡ true
        → find_result project_id stage s ≡ some r)
    → Locked db s
results-Locked db s same other h = record {
  results = h;
  evaluations = λ p a st e found l. rw same found;
  advice = λ p a st e found l. rw other found;
}

put_draft-find :
    (trim : String → String) (project_id author : ℕ) (stage : EvaluationStage)
    (students : List Score) (es : List Evaluation) (p a : ℕ) (st : EvaluationStage) (e : Evaluation)
    → find (evaluates p a st) es ≡ some e
    → is_submitted e.status ≡ true
    → is_locked (find (evaluates project_id author stage) es) ≡ false
    → find (evaluates p a st) (put_draft trim project_id author stage students es) ≡ some e
unfolding put_draft
put_draft-find trim project_id author stage students es p a st e found l open_ =
    elim (Bool-cases (exists (evaluates project_id author stage) es)) [
      | inl h ↦ rw h (
          find-spared _ _ _ es (λ x. refl) found
            (evaluation_spared es p project_id a author st stage e found l open_))
      | inr h ↦ rw h (find-append _ es _ found)
    ]

pub save_evaluator_draft-Locked :
    (trim : String → String) (db : Db) (user : Principal) (project_id : ℕ) (stage : EvaluationStage)
    (students : List Score)
    → Keeps db (save_evaluator_draft trim user project_id stage students db)
unfolding save_evaluator_draft save_draft
save_evaluator_draft-Locked trim db user project_id stage students =
    Post-guard _ _ (after-require_assignment user project_id db) (unmoved db) λ assignment h.
      Post-guard_then _ _ (after-check_draft assignment.students [] students db) (unmoved db)
        λ checked. Post-transaction (Locked db) _ (unmoved db) (
          Post-throw_when _ _ _ (unmoved db) λ open_. Post-throw_when _ _ _ (unmoved db) λ placed.
            Post-write_last _ _ (
              evaluations-Locked db _ refl refl λ p a st e found l.
                put_draft-find trim project_id assignment.evaluator.id stage students
                  db.evaluator_evaluations p a st e found l open_))

pub submit_evaluator_evaluation-Locked :
    (db : Db) (user : Principal) (project_id : ℕ) (stage : EvaluationStage)
    → Keeps db (submit_evaluator_evaluation user project_id stage db)
unfolding submit_evaluator_evaluation submit_evaluation
submit_evaluator_evaluation-Locked db user project_id stage =
    Post-guard _ _ (after-require_assignment user project_id db) (unmoved db) λ assignment h.
      Post-throw_if _ _ (unmoved db) λ some_students. Post-read _ _ _ (
        Post-throw_if _ _ (unmoved db) λ complete. Post-transaction (Locked db) _ (unmoved db) (
          Post-require_row _ _ _ (unmoved db) λ own here. Post-throw_if _ _ (unmoved db) λ open_.
            Post-write_last _ _ (
              evaluations-Locked db _ refl refl λ p a st e found l.
                find-spared _ _ _ db.evaluator_evaluations (λ x. refl) found
                  (evaluation_spared db.evaluator_evaluations p project_id a assignment.evaluator.id
                    st stage e found l (subst (λ o. is_locked o ≡ false) (sym here) open_)))))

pub save_advisor_draft-Locked :
    (trim : String → String) (db : Db) (user : Principal) (project_id : ℕ) (stage : EvaluationStage)
    (students : List Score)
    → Keeps db (save_advisor_draft trim user project_id stage students db)
unfolding save_advisor_draft save_advisor_evaluation
save_advisor_draft-Locked trim db user project_id stage students =
    Post-guard _ _ (after-require_supervision user project_id db) (unmoved db) λ own h.
      Post-guard_then _ _ (after-check_draft own.students [] students db) (unmoved db) λ checked.
        Post-transaction (Locked db) _ (unmoved db) (
          Post-throw_when _ _ _ (unmoved db) λ open_. Post-write_last _ _ (
            advice-Locked db _ refl refl λ p a st e found l.
              put_draft-find trim project_id own.advisor stage students db.advisor_evaluations p a
                st e found l open_))

pub submit_advisor_evaluation-Locked :
    (db : Db) (user : Principal) (project_id : ℕ) (stage : EvaluationStage)
    → Keeps db (submit_advisor_evaluation user project_id stage db)
unfolding submit_advisor_evaluation hand_in_advisor_evaluation
submit_advisor_evaluation-Locked db user project_id stage =
    Post-guard _ _ (after-require_supervision user project_id db) (unmoved db) λ own h.
      Post-throw_if _ _ (unmoved db) λ some_students. Post-read _ _ _ (
        Post-throw_if _ _ (unmoved db) λ complete. Post-transaction (Locked db) _ (unmoved db) (
          Post-require_row _ _ _ (unmoved db) λ saved here.
            Post-return_if _ _ _ _ (λ done. Post-pure _ _ (unmoved db))
              λ open_. Post-write_last _ _ (
                advice-Locked db _ refl refl λ p a st e found l.
                  find-spared _ _ _ db.advisor_evaluations (λ x. refl) found
                    (evaluation_spared db.advisor_evaluations p project_id a own.advisor st stage e
                      found l (subst (λ o. is_locked o ≡ false) (sym here) open_)))))

pub update_weights-Locked :
    (db : Db) (user : Principal) (stage : EvaluationStage) (p q : ℕ)
    → Keeps db (update_weights user stage p q db)
unfolding update_weights
update_weights-Locked db user stage p q = Post-throw_if _ _ (unmoved db) λ total.
    Post-guard _ _ (after-resolve_coordinator user db) (unmoved db) λ actor authorized.
      Post-write_last _ _ (record {
        results = λ p st r h k. h;
        evaluations = λ p a st e h k. h;
        advice = λ p a st e h k. h;
      })

upsert_result-Locked : (db : Db) (new : FinalResult) → Keeps db (upsert_result new db)
unfolding upsert_result insert_result update_results
upsert_result-Locked db new = Post-read _ _ _ (
    Post-throw_if _ _ (unmoved db) λ open_.
      Post-return_if _ _ _ _
        (λ first. Post-throw_when _ _ _ (unmoved db) λ fresh.
          Post-write_last _ _
            (results-Locked db _ refl refl λ p st r found a. find-append _ db.results _ found))
        (λ again. Post-write_last _ _ (
          results-Locked db _ refl refl λ p st r found a.
            find-spared _ _ _ db.results (λ x. refl) found
              (result_spared db p new.project_id st new.stage r found a open_))))

pub finalize_project-Locked :
    (to_fixed : ℕ → ℕ → ℕ) (trim : String → String) (db : Db) (fresh now : ℕ) (user : Principal)
    (project_id : ℕ) (stage : EvaluationStage) (text : Option String)
    → Keeps db (finalize_project to_fixed trim fresh now user project_id stage text db)
unfolding finalize_project
finalize_project-Locked to_fixed trim db fresh now user project_id stage text =
    Post-guard _ _ (after-build_state user project_id stage db) (unmoved db) λ st built.
      Post-require _ _ (unmoved db) λ w weighed. Post-throw_if _ _ (unmoved db) λ advised.
        Post-throw_if _ _ (unmoved db) λ evaluated. Post-throw_if _ _ (unmoved db) λ unpending.
          Post-throw_if _ _ (unmoved db) λ unapproved.
            Post-require _ _ (unmoved db) λ rows complete.
              Post-guard _ _ (after-resolve_coordinator user db) (unmoved db) λ actor again.
                Post-transaction (Locked db) _ (unmoved db) (upsert_result-Locked db _)

-- With unique identifiers, deciding on a result that is not approved spares every approved one.
decide-Locked :
    (db : Db) (department_id project_id : ℕ) (stage : EvaluationStage) (own : FinalResult)
    (f : FinalResult → FinalResult)
    → ((id : ℕ) → count (is_result id) db.results ≤ 1)
    → find_department_result department_id project_id stage db ≡ some own
    → is_approved own.status ≡ false
    → ((p : ℕ) (st : EvaluationStage) (r : FinalResult) → grades p st (f r) ≡ grades p st r)
    → Locked db (update_results (is_result own.id) f db)
unfolding update_results
decide-Locked db department_id project_id stage own f unique here open_ k =
    results-Locked db _ refl refl λ p st r found a.
      find-spared _ _ _ db.results (k p st) found (elim (Bool-cases (is_result own.id r)) [
        | inl e ↦
            let first : find (is_result own.id) db.results ≡ some own =
              find_of_unique _ _ db.results (unique own.id) here (eq→== own.id own.id refl) in
            let second : find (is_result own.id) db.results ≡ some r =
              find_of_unique _ _ db.results (unique own.id) found e in
            let same : own ≡ r = cc in
            let both : is_approved r.status ≡ false =
              subst (λ x. is_approved x.status ≡ false) same open_ in
            absurd (ground arith)
        | inr e ↦ e
      ])

module _ (to_fixed : ℕ → ℕ → ℕ) (db : Db) (v : Inv to_fixed db) where
  pub approve_project-Locked :
      (now : ℕ) (user : Principal) (project_id : ℕ) (stage : EvaluationStage) (text : Option String)
      → Keeps db (approve_project now user project_id stage text db)
  unfolding approve_project
  approve_project-Locked now user project_id stage text =
      Post-guard _ _ (after-resolve_department_head user db) (unmoved db) λ actor authorized.
        Post-require_row _ _ _ (unmoved db) λ r found. Post-throw_if _ _ (unmoved db) λ open_.
          Post-throw_if _ _ (unmoved db) λ unrejected. Post-write_last _ _ (
            decide-Locked db actor.department_id project_id stage r _ v.ids found open_
              (λ p st x. refl))

  pub reject_project-Locked :
      (trim : String → String) (now : ℕ) (user : Principal) (project_id : ℕ)
      (stage : EvaluationStage) (reason : String)
      → Keeps db (reject_project trim now user project_id stage reason db)
  unfolding reject_project
  reject_project-Locked trim now user project_id stage reason =
      Post-guard _ _ (after-resolve_department_head user db) (unmoved db) λ actor authorized.
        Post-require_row _ _ _ (unmoved db) λ r found. Post-throw_if _ _ (unmoved db) λ open_.
          Post-throw_if _ _ (unmoved db) λ unrejected. Post-write_last _ _ (
            decide-Locked db actor.department_id project_id stage r _ v.ids found open_
              (λ p st x. refl))
