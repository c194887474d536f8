-- ===== src/Evaluation/Invariant/Reachable.antt =====
-- The invariant over all requests.
use academia_backend_api.Base.{ℕ, String, List, [], ◌∷◌, Post-after}
use academia_backend_api.Evaluation.Schema.{Db}
use academia_backend_api.Evaluation.System.{
  Request, weigh, save, submit, advise, hand_in, finalize, approve, reject, process, process_all,
}
use academia_backend_api.Evaluation.Invariant.{Inv}
use academia_backend_api.Evaluation.Invariant.Steps.{
  update_weights-Inv, save_evaluator_draft-Inv, submit_evaluator_evaluation-Inv,
  save_advisor_draft-Inv, submit_advisor_evaluation-Inv, approve_project-Inv, reject_project-Inv,
}
use academia_backend_api.Evaluation.Invariant.Finalizing.{finalize_project-Inv}

pub process-Inv :
    (to_fixed : ℕ → ℕ → ℕ) (trim : String → String) (r : Request) (db : Db)
    → Inv to_fixed db
    → Inv to_fixed (process to_fixed trim r db)
unfolding process
process-Inv to_fixed trim (weigh user stage p q) db v =
    Post-after (update_weights-Inv to_fixed db v user stage p q)
process-Inv to_fixed trim (save user project_id stage students) db v =
    Post-after (save_evaluator_draft-Inv to_fixed db v trim user project_id stage students)
process-Inv to_fixed trim (submit user project_id stage) db v =
    Post-after (submit_evaluator_evaluation-Inv to_fixed db v user project_id stage)
process-Inv to_fixed trim (advise user project_id stage students) db v =
    Post-after (save_advisor_draft-Inv to_fixed db v trim user project_id stage students)
process-Inv to_fixed trim (hand_in user project_id stage) db v =
    Post-after (submit_advisor_evaluation-Inv to_fixed db v user project_id stage)
process-Inv to_fixed trim (finalize fresh now user project_id stage note) db v =
    Post-after (finalize_project-Inv to_fixed trim db v fresh now user project_id stage note)
process-Inv to_fixed trim (approve now user project_id stage note) db v =
    Post-after (approve_project-Inv to_fixed db v now user project_id stage note)
process-Inv to_fixed trim (reject now user project_id stage reason) db v =
    Post-after (reject_project-Inv to_fixed db v trim now user project_id stage reason)

-- Whatever requests come, in any order: the percentages of a department and of a final result sum to
-- 100; each average, grade and letter of a result is the one that the code computes from the scores
-- and the percentages kept with it; a result names who decided and when exactly for the decision of
-- its status; and the identifiers of the results are unique. This holds where it held at first.
pub process_all-Inv :
    (to_fixed : ℕ → ℕ → ℕ) (trim : String → String) (rs : List Request) (db : Db)
    → Inv to_fixed db
    → Inv to_fixed (process_all to_fixed trim rs db)
unfolding process_all
process_all-Inv to_fixed trim [] db v = v
process_all-Inv to_fixed trim (r ∷ rs) db v =
    process_all-Inv to_fixed trim rs (process to_fixed trim r db) (process-Inv to_fixed trim r db v)
