-- ===== src/Calls/Contracts.antt =====
-- What a call answers, against the store that it leaves.
use academia_backend_api.Base.{ℕ, Bool, true, false, not, ◌≡◌, length, member}
use academia_backend_api.Calls.Store.{Store}
use academia_backend_api.Calls.Operations.{is_active}
use academia_backend_api.Calls.Sets.{is_empty}

pub record Started (room user : ℕ) (s t : Store) (session_created : Bool) (participant_count : ℕ)
    : Type 0 where
  pub active : is_active (t.metadata room) ≡ true
  pub inside : member user (t.participants room) ≡ true
  pub counted : participant_count ≡ length (t.participants room)
  pub created : session_created ≡ is_empty (s.participants room)

pub record Left (room user : ℕ) (t : Store) (ended : Bool) (participant_count : ℕ) : Type 0 where
  pub outside : member user (t.participants room) ≡ false
  pub counted : participant_count ≡ length (t.participants room)
  pub over : ended ≡ not (is_active (t.metadata room))
