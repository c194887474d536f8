-- ===== src/Calls/System.antt =====
-- The calls of the service as requests, each with what other requests do during its attempts.
use academia_backend_api.Base.{ℕ, String, Bool, List, [], ◌∷◌, after}
use academia_backend_api.Calls.Store.{Store}
use academia_backend_api.Calls.Operations.{start_call, join_call, leave_call, end_call}
use academia_backend_api.Calls.Retry.{Meanwhile, execute_with_optimistic_retry, run_plan}

pub data Request : Type 0 where
  start : (now room project_group_id : ℕ) (name : String) (user : ℕ) → Request
  join leave : (room user : ℕ) → Request
  end_all : (now room user : ℕ) → Request

-- The transaction that a request plans from what it saw, run on the store.
unfoldable pub commit : Request → Store → Store → Store
commit (start now room project_group_id name user) seen s =
    after (run_plan (start_call now room project_group_id name user seen) s)
commit (join room user) seen s = after (run_plan (join_call room user seen) s)
commit (leave room user) seen s = after (run_plan (leave_call room user seen) s)
commit (end_all now room user) seen s = after (run_plan (end_call now room user seen) s)

-- The transaction of another request, which saw whatever it saw.
pub record Foreign : Type 0 where
  pub request : Request
  pub seen : Store

unfoldable pub commit_all : List Foreign → Store → Store
commit_all [] s = s
commit_all (f ∷ fs) s = commit_all fs (commit f.request f.seen s)

-- For each attempt: what it sees, the transactions of others that fall into it, and whether its own is
-- discarded.
pub record Others : Type 0 where
  pub seen : ℕ → Store → Store
  pub foreign : ℕ → List Foreign
  pub discarded : ℕ → Bool

abbrev pub meanwhile : Others → ℕ → Meanwhile
meanwhile o n = record {
  seen = o.seen n;
  change = commit_all (o.foreign n);
  discarded = o.discarded n;
}

-- No other request overlaps; still `EXEC` may answer `null`.
abbrev pub undisturbed : (ℕ → Bool) → Others
undisturbed discarded = record { seen = λ n s. s; foreign = λ n. []; discarded = discarded }

-- The store that a request leaves, whether it returned or gave up.
unfoldable pub serve : Others → Request → Store → Store
serve o (start now room project_group_id name user) s =
    after (
      execute_with_optimistic_retry (meanwhile o) (start_call now room project_group_id name user)
        s)
serve o (join room user) s =
    after (execute_with_optimistic_retry (meanwhile o) (join_call room user) s)
serve o (leave room user) s =
    after (execute_with_optimistic_retry (meanwhile o) (leave_call room user) s)
serve o (end_all now room user) s =
    after (execute_with_optimistic_retry (meanwhile o) (end_call now room user) s)

-- A request with the others during it.
pub record Attempted : Type 0 where
  pub request : Request
  pub others : Others

unfoldable pub serve_all : List Attempted → Store → Store
serve_all [] s = s
serve_all (a ∷ rest) s = serve_all rest (serve a.others a.request s)

-- A request that no other overlaps, and which of its attempts are discarded.
pub record Undisturbed : Type 0 where
  pub request : Request
  pub discarded : ℕ → Bool

unfoldable pub serve_in_turn : List Undisturbed → Store → Store
serve_in_turn [] s = s
serve_in_turn (u ∷ rest) s = serve_in_turn rest (serve (undisturbed u.discarded) u.request s)
