-- ===== src/Calls/Reachable.antt =====
-- What holds over all requests, overlapping or in turn.
use academia_backend_api.Base.{ℕ, Bool, ap, subst, Post-map, Post-after, List, [], ◌∷◌, after}
use academia_backend_api.Calls.Store.{Store}
use academia_backend_api.Calls.Operations.{Plan}
use academia_backend_api.Calls.Retry.{execute_with_optimistic_retry, run_plan, atomically}
use academia_backend_api.Calls.Attempts.{
  Discarded, Discarded-keeps, execute_with_optimistic_retry-Once, execute-keeps,
}
use academia_backend_api.Calls.Invariant.{
  Inv, start_call-Inv, join_call-Inv, leave_call-Inv, end_call-Inv,
}
use academia_backend_api.Calls.System.{
  Request, start, join, leave, end_all, commit, commit_all, Others, meanwhile, undisturbed, serve,
  Attempted, serve_all, Undisturbed, serve_in_turn,
}
use academia_backend_api.Calls.Covered.{Covered, commit-Covered, commit_all-Covered}

-- A call of one operation keeps what all transactions keep.
one-Covered :
    {A : Type 0} (o : Others) (operation : Store → Plan A)
    → ((seen s : Store) → Covered s → Covered (after (run_plan (operation seen) s)))
    → (s : Store) → Covered s
    → Covered (after (execute_with_optimistic_retry (meanwhile o) operation s))
one-Covered o operation own =
    execute-keeps Covered (meanwhile o) operation (λ n t. commit_all-Covered (o.foreign n) t)
      (λ n t u. own (o.seen n t) u)

serve-Covered : (o : Others) (r : Request) (s : Store) → Covered s → Covered (serve o r s)
unfolding serve commit
serve-Covered o (start now room project_group_id name user) =
    one-Covered o _ (commit-Covered (start now room project_group_id name user))
serve-Covered o (join room user) = one-Covered o _ (commit-Covered (join room user))
serve-Covered o (leave room user) = one-Covered o _ (commit-Covered (leave room user))
serve-Covered o (end_all now room user) = one-Covered o _ (commit-Covered (end_all now room user))

-- Whatever calls are started, joined, left and ended, and however they overlap - with stale reads, with
-- transactions of others before their own, with any answers of `EXEC`: every participant of a room
-- has the room among its rooms, so that `leaveAllCallsForUser` finds it, and no participant is stored
-- twice. This holds where it held at first.
pub serve_all-Covered : (rs : List Attempted) (s : Store) → Covered s → Covered (serve_all rs s)
unfolding serve_all
serve_all-Covered [] s v = v
serve_all-Covered (r ∷ rs) s v =
    serve_all-Covered rs (serve r.others r.request s) (serve-Covered r.others r.request s v)

one-Inv :
    {A : Type 0} (d : ℕ → Bool) (operation : Store → Plan A)
    → ((s : Store) → Inv s → Inv (after (atomically operation s)))
    → (s : Store) → Inv s
    → Inv (after (execute_with_optimistic_retry (meanwhile (undisturbed d)) operation s))
unfolding commit_all
one-Inv d operation own s v =
    let still : (n : ℕ) (t : Store) → Discarded (meanwhile (undisturbed d)) s n t → Inv t =
      λ n t b. Discarded-keeps Inv (meanwhile (undisturbed d)) operation (λ n t w. w) v b in
    Post-after (
      Post-map (execute_with_optimistic_retry-Once (meanwhile (undisturbed d)) operation s)
        (λ a s' o. subst Inv (ap after o.ran) (own o.met (still _ _ o.before)))
        (λ s' b. still _ _ b))

serve-Inv : (d : ℕ → Bool) (r : Request) (s : Store) → Inv s → Inv (serve (undisturbed d) r s)
unfolding serve
serve-Inv d (start now room project_group_id name user) =
    one-Inv d _ (start_call-Inv now room project_group_id name user)
serve-Inv d (join room user) = one-Inv d _ (join_call-Inv room user)
serve-Inv d (leave room user) = one-Inv d _ (leave_call-Inv room user)
serve-Inv d (end_all now room user) = one-Inv d _ (end_call-Inv now room user)

-- Whatever calls are started, joined, left and ended in turn, no two of them overlapping: a room has an
-- active call exactly where it has participants, the participants of rooms and the rooms of users
-- agree, and no participant is stored twice. This holds where it held at first.
pub serve_in_turn-Inv : (us : List Undisturbed) (s : Store) → Inv s → Inv (serve_in_turn us s)
unfolding serve_in_turn
serve_in_turn-Inv [] s v = v
serve_in_turn-Inv (u ∷ us) s v =
    serve_in_turn-Inv us (serve (undisturbed u.discarded) u.request s)
      (serve-Inv u.discarded u.request s v)
