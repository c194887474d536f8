-- ===== src/Evaluation/Contracts.antt =====
-- The outcomes of `finalizeProject`, `approveProject` and `submitEvaluatorProjectEvaluation`.
use academia_backend_api.Base.{
  given, ◌&&◌, ◌==◌, filter, length, ℕ, ◌≤◌, String, Bool, true, false, not, Option, none, some,
  List, [], ◌∷◌, ◌++◌, map, ltb, ◌≡◌, inl, inr, refl, sym, subst, ap, ◌∙◌, arith, if◌then◌else◌,
  Bool-cases, Option-cases, eq→==, find, find-condition, find-update, update, All, ok, Post,
  Post-guard, Post-require, Post-require_row, Post-read, Post-throw_if, Post-throw_when,
  Post-return_if, Post-write_last, Post-transaction, Post-map,
}
use academia_backend_api.Accounts.{Principal}
use academia_backend_api.Evaluation.Schema.{
  Db, Student, EvaluationStage, same_stage, capstone_i, capstone_ii, StageWeight, FinalResult,
  FinalScore, FinalResultStatus, is_approved, is_rejected, is_pending,
  finalized_pending_department_head,
}
use academia_backend_api.Evaluation.Queries.{
  Actor, resolve_coordinator, resolve_department_head, find_department_result, find_result, grades,
  is_result, update_results, insert_result,
}
use academia_backend_api.Evaluation.Finalization.{
  DetailState, build_state, is_handed_in, awaits_evaluators, result_is, is_none, grade_student,
  grade_students, refinalized, new_result, upsert_result, finalize_project,
}
use academia_backend_api.Evaluation.Decision.{approved_result, approve_project}
use academia_backend_api.Evaluation.Guards.{
  after-resolve_coordinator, after-resolve_department_head, after-build_state,
}

filter-length : {A : Type 0} (p : A → Bool) (xs : List A) → length (filter p xs) ≤ length xs
unfolding filter length
filter-length p [] = omega arith
filter-length p (x ∷ xs) = ground (arith, filter-length p xs)

filter-All :
    {A : Type 0} (p : A → Bool) (xs : List A)
    → ltb (length (filter p xs)) (length xs) ≡ false
    → All (λ x. p x ≡ true) xs
unfolding filter length
filter-All p [] h = tt
filter-All p (x ∷ xs) h = elim (Bool-cases (p x)) [
  | inl e ↦ (e, filter-All p xs (ground arith))
  | inr e ↦ let bound = filter-length p xs in absurd (ground arith)
]

All-evaluated :
    (st : DetailState)
    → awaits_evaluators st ≡ false
    → All (λ author. is_handed_in (st.evaluations author) ≡ true) st.project.evaluators
unfolding awaits_evaluators
All-evaluated st h = filter-All _ st.project.evaluators (ground arith)

grade_student-id :
    (to_fixed : ℕ → ℕ → ℕ) (trim : String → String) (st : DetailState) (w : StageWeight)
    (s : Student) (row : FinalScore)
    → grade_student to_fixed trim st w s ≡ some row
    → row.student_user_id ≡ s.id
unfolding grade_student
grade_student-id to_fixed trim st w s row h = ground arith

grade_students-ids :
    (to_fixed : ℕ → ℕ → ℕ) (trim : String → String) (st : DetailState) (w : StageWeight)
    (students : List Student) (rows : List FinalScore)
    → grade_students to_fixed trim st w students ≡ some rows
    → map (λ f. f.student_user_id) rows ≡ map (λ s. s.id) students
unfolding grade_students
grade_students-ids to_fixed trim st w [] rows h =
    let made : [] ≡ rows = ground arith in
    subst (λ l. map (λ f. f.student_user_id) l ≡ []) made refl
grade_students-ids to_fixed trim st w (s ∷ students) rows h =
    elim (Option-cases (grade_student to_fixed trim st w s)) [
      | inl e ↦ absurd (ground arith)
      | inr (row, e) ↦ elim (Option-cases (grade_students to_fixed trim st w students)) [
        | inl k ↦ absurd (ground arith)
        | inr (rest, k) ↦
            let made : row ∷ rest ≡ rows = ground arith in
            let first = grade_student-id to_fixed trim st w s row e in
            let others = grade_students-ids to_fixed trim st w students rest k in
            subst (λ l. map (λ f. f.student_user_id) l ≡ map (λ x. x.id) (s ∷ students)) made cc
      ]
    ]

is_none→none : (o : Option FinalResult) → is_none o ≡ true → o ≡ none
is_none→none o h = ground arith

same_stage_refl : (s : EvaluationStage) → same_stage s s ≡ true
same_stage_refl capstone_i = refl
same_stage_refl capstone_ii = refl

find_last :
    (p : FinalResult → Bool) (rs : List FinalResult) (new : FinalResult)
    → find p rs ≡ none
    → p new ≡ true
    → find p (rs ++ (new ∷ [])) ≡ some new
unfolding find
find_last p [] new h k = rw k refl
find_last p (r ∷ rs) new h k = elim (Bool-cases (p r)) [
  | inl e ↦ absurd (ground arith)
  | inr e ↦ rw e (find_last p rs new (rw e at h) k)
]

-- The result of a project and stage after it was finalized.
pub record Saved (new : FinalResult) (s : Db) : Type 0 where
  pub r : FinalResult
  pub found : find_result new.project_id new.stage s ≡ some r
  pub status : r.status ≡ finalized_pending_department_head
  pub percentages :
      (r.advisor_percentage ≡ new.advisor_percentage)
      × (r.evaluator_percentage ≡ new.evaluator_percentage)
  pub by : r.finalized_by_user_id ≡ new.finalized_by_user_id
  pub scores : r.scores ≡ new.scores

upsert_result_lem :
    (db : Db) (new : FinalResult)
    → new.status ≡ finalized_pending_department_head
    → Post (λ a s. Saved new s) (λ s. Unit {0}) (upsert_result new db)
unfolding upsert_result insert_result update_results
upsert_result_lem db new fresh_status =
    let self : grades new.project_id new.stage new ≡ true =
      rw (eq→== new.project_id new.project_id refl) (same_stage_refl new.stage) in
    Post-read _ _ _ (
      Post-throw_if _ _ tt λ open_.
        Post-return_if _ _ _ _
          (λ first. Post-throw_when _ _ _ tt λ fresh. Post-write_last _ _ (record {
            r = new;
            found = find_last _ db.results new (is_none→none _ first) self;
            status = fresh_status;
            percentages = (refl, refl);
            by = refl;
            scores = refl;
          }))
          (λ again. elim (Option-cases (find_result new.project_id new.stage db)) [
            | inl e ↦ absurd (ground arith)
            | inr (r, e) ↦ Post-write_last _ _ (record {
              r = refinalized new r;
              found =
                  subst
                    (λ b.
                      find (grades new.project_id new.stage)
                        (update (grades new.project_id new.stage) (refinalized new) db.results)
                      ≡ some (if b then refinalized new r else r))
                    (find-condition (grades new.project_id new.stage) db.results e)
                    (find-update _ _ (refinalized new) db.results (λ x. refl) e);
              status = refl;
              percentages = (refl, refl);
              by = refl;
              scores = refl;
            })
          ]))

-- What a successful finalization has checked and what it leaves.
pub record Finalized (to_fixed : ℕ → ℕ → ℕ) (trim : String → String) (user : Principal)
    (project_id : ℕ) (stage : EvaluationStage) (db s : Db) : Type 0 where
  pub st : DetailState
  pub w : StageWeight
  pub actor : Actor
  pub r : FinalResult
  pub state : build_state user project_id stage db ≡ ok st db
  pub weight : st.weight ≡ some w
  pub advised : is_handed_in st.advisor_evaluation ≡ true
  pub evaluated : All (λ author. is_handed_in (st.evaluations author) ≡ true) st.project.evaluators
  pub unpending : result_is is_pending st.result ≡ false
  pub unapproved : result_is is_approved st.result ≡ false
  pub authorized : resolve_coordinator user db ≡ ok actor db
  pub found : find_result st.project.id stage s ≡ some r
  pub status : r.status ≡ finalized_pending_department_head
  pub percentages :
      (r.advisor_percentage ≡ w.advisor_percentage)
      × (r.evaluator_percentage ≡ w.evaluator_percentage)
  pub by : r.finalized_by_user_id ≡ actor.id
  pub complete : grade_students to_fixed trim st w st.students ≡ some r.scores
  pub students : map (λ f. f.student_user_id) r.scores ≡ map (λ x. x.id) st.students

not-true : (b : Bool) → not b ≡ false → b ≡ true
not-true b h = ground arith

-- Where `finalizeProject` succeeds, the department has percentages for the stage, the advisor and
-- every assigned evaluator have submitted, no result of the project and stage was pending or
-- approved, and afterwards the result found for them is pending, is signed by the coordinator and
-- holds the percentages and one computed row for each student of the group, in their order. Where it
-- throws, nothing changes.
pub finalize_project_lem :
    (to_fixed : ℕ → ℕ → ℕ) (trim : String → String) (fresh now : ℕ) (user : Principal)
    (project_id : ℕ) (stage : EvaluationStage) (text : Option String) (db : Db)
    → Post
        (λ a s. Finalized to_fixed trim user project_id stage db s)
        (λ s. s ≡ db)
        (finalize_project to_fixed trim fresh now user project_id stage text db)
unfolding finalize_project
finalize_project_lem to_fixed trim fresh now user project_id stage text db =
    Post-guard _ _ (after-build_state user project_id stage db) refl λ st state.
      Post-require _ _ refl λ w weight. Post-throw_if _ _ refl λ advised.
        Post-throw_if _ _ refl λ evaluated. Post-throw_if _ _ refl λ unpending.
          Post-throw_if _ _ refl λ unapproved. Post-require _ _ refl λ rows complete.
            Post-guard _ _ (after-resolve_coordinator user db) refl λ actor authorized.
              Post-transaction (λ s. Unit {0}) _ refl
                (Post-map
                  (upsert_result_lem db
                    (new_result to_fixed trim fresh now actor st.project.id stage w text rows) refl)
                  (λ a s saved. record {
                    st = st;
                    w = w;
                    actor = actor;
                    r = saved.r;
                    state = state;
                    weight = weight;
                    advised = not-true _ advised;
                    evaluated = All-evaluated st evaluated;
                    unpending = unpending;
                    unapproved = unapproved;
                    authorized = authorized;
                    found = saved.found;
                    status = saved.status;
                    percentages = saved.percentages;
                    by = saved.by;
                    complete = complete ∙ ap some (sym saved.scores);
                    students =
                        ap (map (λ f. f.student_user_id)) saved.scores
                        ∙ grade_students-ids to_fixed trim st w st.students rows complete;
                  })
                  (λ s h. h))

pub record Approved (now : ℕ) (user : Principal) (project_id : ℕ) (stage : EvaluationStage)
    (text : Option String) (db s : Db) : Type 0 where
  pub actor : Actor
  pub r : FinalResult
  pub authorized : resolve_department_head user db ≡ ok actor db
  pub found : find_department_result actor.department_id project_id stage db ≡ some r
  pub pending : r.status ≡ finalized_pending_department_head
  -- The result as it is found afterwards.
  pub result :
      find_department_result actor.department_id project_id stage s
      ≡ some (record r {
        status = FinalResultStatus.approved;
        approved_by_user_id = some actor.id;
        approved_at = some now;
        approval_note = given text r.approval_note;
        rejected_by_user_id = none;
        rejected_at = none;
        rejection_reason = none;
      })
  pub effect : s ≡ update_results (is_result r.id) (approved_result now actor.id text) db

pending_of :
    (r : FinalResult)
    → is_approved r.status ≡ false
    → is_rejected r.status ≡ false
    → r.status ≡ finalized_pending_department_head
pending_of r h k = ground arith

-- Where `approveProject` succeeds, the caller has a department, in which a pending result of the
-- project and stage is found; afterwards that result is found approved by the caller at this time, with
-- the note given, else as it was, and with nothing of an earlier rejection. Where it throws, nothing
-- changes.
pub approve_project_lem :
    (now : ℕ) (user : Principal) (project_id : ℕ) (stage : EvaluationStage) (text : Option String)
    (db : Db)
    → Post
        (λ a s. Approved now user project_id stage text db s)
        (λ s. s ≡ db)
        (approve_project now user project_id stage text db)
unfolding approve_project update_results
approve_project_lem now user project_id stage text db =
    Post-guard _ _ (after-resolve_department_head user db) refl λ actor authorized.
      Post-require_row _ _ _ refl λ r found. Post-throw_if _ _ refl λ unapproved.
        Post-throw_if _ _ refl λ unrejected. Post-write_last _ _ (record {
          actor = actor;
          r = r;
          authorized = authorized;
          found = found;
          pending = pending_of r unapproved unrejected;
          result =
              find-update (λ x. x.department_id == actor.department_id && grades project_id stage x)
                (is_result r.id) (approved_result now actor.id text) db.results (λ x. refl) found
              ∙ rw (eq→== r.id r.id refl) refl;
          effect = refl;
        })
