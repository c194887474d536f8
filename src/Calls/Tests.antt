-- ===== src/Calls/Tests.antt =====
-- Calls of one room whose requests overlap, and the theorems at points of them.
use academia_backend_api.Base.{
  true, false, none, some, List, [], ◌∷◌, ◌≡◌, refl, arith, if◌then◌else◌, ◌==◌, ok, Post, find,
  filter, length, count,
}
use academia_backend_api.Calls.Store.{Store, run_command, exec}
use academia_backend_api.Calls.Operations.{
  start_call, join_call, leave_call, leave_rooms, end_call, is_active,
}
use academia_backend_api.Calls.Retry.{attempts, transaction_retries, execute_with_optimistic_retry}
use academia_backend_api.Calls.Attempts.{
  Discarded, Once, Returns, execute_with_optimistic_retry-Once,
  execute_with_optimistic_retry-Returns,
}
use academia_backend_api.Calls.Invariant.{Inv}
use academia_backend_api.Calls.System.{
  start, join, leave, end_all, commit, commit_all, Others, meanwhile, undisturbed, serve, Attempted,
  serve_all, Undisturbed, serve_in_turn,
}
use academia_backend_api.Calls.Covered.{Covered}
use academia_backend_api.Calls.Reachable.{serve_all-Covered, serve_in_turn-Inv}
use academia_backend_api.Calls.Hangup.{
  Gone, leave_all_calls_for_user, nobody, leave_all_calls_for_user_lem,
}

runs : Unit {0}
unfolding find filter length run_command exec start_call join_call leave_call leave_rooms end_call
    attempts execute_with_optimistic_retry commit commit_all serve serve_all serve_in_turn
runs = tt

abbrev quiet : Store
quiet = record { metadata = λ r. none; participants = λ r. []; user_rooms = λ u. [] }

quiet-Inv : Inv quiet
unfolding find count
quiet-Inv = record { live = λ r. refl; linked = λ r u. refl; distinct = λ r x. omega arith }

quiet-Covered : Covered quiet
unfolding find count
quiet-Covered = record { reached = λ r u h. h; distinct = λ r x. omega arith }

-- User 5 starts a call, which takes two attempts, and user 6 joins it.
abbrev beginning : List Undisturbed
beginning =
    record { request = start 10 1 77 "standup" 5; discarded = λ n. n == 0 }
    ∷ record { request = join 1 6; discarded = λ n. false }
    ∷ []

unfoldable busy : Store
unfolding runs
busy = serve_in_turn beginning quiet

serve_in_turn-Inv_example : Inv (serve_in_turn beginning quiet)
serve_in_turn-Inv_example = serve_in_turn-Inv beginning quiet quiet-Inv

busy-Inv : Inv busy
unfolding busy
busy-Inv = serve_in_turn-Inv beginning quiet quiet-Inv

-- During the first attempt user 7 joins, and Redis notices.
abbrev crowded : Others
crowded = record {
  seen = λ n s. s;
  foreign = λ n. if n == 0 then record { request = join 1 7; seen = busy } ∷ [] else [];
  discarded = λ n. n == 0;
}

leave_test :
    execute_with_optimistic_retry (meanwhile crowded) (leave_call 1 5) busy
    ≡ ok
        (record { meeting_room_name = some "standup"; ended = false; participant_count = 2 })
        (commit (leave 1 5) (commit (join 1 7) busy busy) (commit (join 1 7) busy busy))
unfolding runs busy
leave_test = refl

-- During the first attempt user 6 leaves, and an `UNWATCH` on the shared connection hides it.
abbrev unwatched : Others
unwatched = record {
  seen = λ n s. s;
  foreign = λ n. record { request = leave 1 6; seen = busy } ∷ [];
  discarded = λ n. false;
}

unfoldable deserted : Store
unfolding runs busy
deserted = serve unwatched (leave 1 5) busy

-- Both were told that the other stays: the call is active and has no participants.
deserted_test : (is_active (deserted.metadata 1) ≡ true) × (deserted.participants 1 ≡ [])
unfolding runs busy deserted
deserted_test = (refl, refl)

execute_with_optimistic_retry-Once_example :
    Post
      (λ a s'. Once (meanwhile unwatched) (leave_call 1 5) busy a s')
      (λ s'. Discarded (meanwhile unwatched) busy transaction_retries s')
      (execute_with_optimistic_retry (meanwhile unwatched) (leave_call 1 5) busy)
execute_with_optimistic_retry-Once_example =
    execute_with_optimistic_retry-Once (meanwhile unwatched) (leave_call 1 5) busy

execute_with_optimistic_retry-Returns_example :
    Returns (execute_with_optimistic_retry (meanwhile crowded) (leave_call 1 5) busy)
execute_with_optimistic_retry-Returns_example =
    execute_with_optimistic_retry-Returns (meanwhile crowded) (leave_call 1 5) 1 busy (omega arith)
      refl

abbrev story : List Attempted
story =
    record { request = start 10 1 77 "standup" 5; others = crowded }
    ∷ record { request = join 1 6; others = undisturbed (λ n. true) }
    ∷ record { request = leave 1 5; others = unwatched }
    ∷ record { request = end_all 20 1 7; others = crowded }
    ∷ []

serve_all-Covered_example : Covered (serve_all story quiet)
serve_all-Covered_example = serve_all-Covered story quiet quiet-Covered

leave_all_calls_for_user_lem_example :
    Post
      (λ results t. Gone 6 t × (length results ≡ length (busy.user_rooms 6)))
      (λ t. ⊥)
      (leave_all_calls_for_user nobody 6 busy)
leave_all_calls_for_user_lem_example = leave_all_calls_for_user_lem 6 busy busy-Inv
