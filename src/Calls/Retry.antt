-- ===== src/Calls/Retry.antt =====
-- `executeWithOptimisticRetry`: an operation on keys that other requests may change meanwhile.
use academia_backend_api.Base.{ℕ, suc, zero, Bool, true, false, none, some, List, error, ok, err, M}
use academia_backend_api.Calls.Store.{Store, Command, exec}
use academia_backend_api.Calls.Operations.{Plan}

-- What an attempt meets. The requests of a process share one connection, and `WATCH`, `UNWATCH` and
-- `EXEC` are about the connection: another request's `EXEC` or `UNWATCH` ends the watch of this one.
-- So nothing ties the three together: `seen` is what the reads, each taken at a moment of its own,
-- show together; `change` is what others make of the store before the `EXEC`; and `discarded` tells
-- whether the `EXEC` answers `null`.
pub record Meanwhile : Type 0 where
  pub seen : Store → Store
  pub change : Store → Store
  pub discarded : Bool

abbrev pub transaction_retries : ℕ
transaction_retries = 3

module _ {ℓ} {A : Type ℓ} where
  -- `exec()`; where it answers `null`, the next attempt follows.
  abbrev exec_or_retry : Bool → List Command → A → M Store A → M Store A
  exec_or_retry true cs result again s = again s
  exec_or_retry false cs result again s = ok result (exec cs s)

  -- The plan is what the operation makes of what was seen.
  abbrev attempt : Meanwhile → Plan A → M Store A → M Store A
  attempt w plan again s = elim plan.transaction [
    | none ↦ ok plan.result (w.change s)
    | some cs ↦ exec_or_retry w.discarded cs plan.result again (w.change s)
  ]

  -- At most as many attempts as the first number says; the n-th meets `env n`, from `first` on.
  unfoldable pub attempts : ℕ → ℕ → (ℕ → Meanwhile) → (Store → Plan A) → M Store A
  attempts zero first env operation s = err (error "CALL_PRESENCE_CONFLICT") s
  attempts (suc n) first env operation s =
      attempt (env first) (operation ((env first).seen s)) (attempts n (suc first) env operation) s

  unfoldable pub execute_with_optimistic_retry : (ℕ → Meanwhile) → (Store → Plan A) → M Store A
  unfolding attempts
  execute_with_optimistic_retry = attempts transaction_retries 0

  -- The transaction of the plan, if there is one, and the answer.
  abbrev pub run_plan : Plan A → M Store A
  run_plan plan s = elim plan.transaction [
    | none ↦ ok plan.result s
    | some cs ↦ ok plan.result (exec cs s)
  ]

  -- The operation with nobody else around.
  abbrev pub atomically : (Store → Plan A) → M Store A
  atomically operation s = run_plan (operation s) s
