-- ===== src/Evaluation/Locking/Reachable.antt =====
-- What is final stays, over all requests.
use academia_backend_api.Base.{ℕ, String, List, [], ◌∷◌, Post-after}
use academia_backend_api.Evaluation.Schema.{Db}
use academia_backend_api.Evaluation.System.{
  Request, weigh, save, submit, advise, hand_in, finalize, approve, reject, process, process_all,
}
use academia_backend_api.Evaluation.Invariant.{Inv}
use academia_backend_api.Evaluation.Invariant.Reachable.{process-Inv}
use academia_backend_api.Evaluation.Locking.{Locked, unmoved}
use academia_backend_api.Evaluation.Locking.Handlers.{
  update_weights-Locked, save_evaluator_draft-Locked, submit_evaluator_evaluation-Locked,
  save_advisor_draft-Locked, submit_advisor_evaluation-Locked, finalize_project-Locked,
  approve_project-Locked, reject_project-Locked,
}

process-Locked :
    (to_fixed : ℕ → ℕ → ℕ) (trim : String → String) (r : Request) (db : Db)
    → Inv to_fixed db
    → Locked db (process to_fixed trim r db)
unfolding process
process-Locked to_fixed trim (weigh user stage p q) db v =
    Post-after (update_weights-Locked db user stage p q)
process-Locked to_fixed trim (save user project_id stage students) db v =
    Post-after (save_evaluator_draft-Locked trim db user project_id stage students)
process-Locked to_fixed trim (submit user project_id stage) db v =
    Post-after (submit_evaluator_evaluation-Locked db user project_id stage)
process-Locked to_fixed trim (advise user project_id stage students) db v =
    Post-after (save_advisor_draft-Locked trim db user project_id stage students)
process-Locked to_fixed trim (hand_in user project_id stage) db v =
    Post-after (submit_advisor_evaluation-Locked db user project_id stage)
process-Locked to_fixed trim (finalize fresh now user project_id stage note) db v =
    Post-after (finalize_project-Locked to_fixed trim db fresh now user project_id stage note)
process-Locked to_fixed trim (approve now user project_id stage note) db v =
    Post-after (approve_project-Locked to_fixed db v now user project_id stage note)
process-Locked to_fixed trim (reject now user project_id stage reason) db v =
    Post-after (reject_project-Locked to_fixed db v trim now user project_id stage reason)

Locked-trans : (a b c : Db) → Locked a b → Locked b c → Locked a c
Locked-trans a b c h k = record {
  results = λ p st r found t. k.results p st r (h.results p st r found t) t;
  evaluations = λ p u st e found t. k.evaluations p u st e (h.evaluations p u st e found t) t;
  advice = λ p u st e found t. k.advice p u st e (h.advice p u st e found t) t;
}

-- From tables that keep the invariant: after any requests in any order, an approved result of a
-- project and stage, with its grades, and a submitted evaluation of an evaluator or an advisor, with its scores,
-- are found as they were.
pub process_all-Locked :
    (to_fixed : ℕ → ℕ → ℕ) (trim : String → String) (rs : List Request) (db : Db)
    → Inv to_fixed db
    → Locked db (process_all to_fixed trim rs db)
unfolding process_all
process_all-Locked to_fixed trim [] db v = unmoved db
process_all-Locked to_fixed trim (r ∷ rs) db v =
    let next = process to_fixed trim r db in
    Locked-trans db next _ (process-Locked to_fixed trim r db v)
      (process_all-Locked to_fixed trim rs next (process-Inv to_fixed trim r db v))
