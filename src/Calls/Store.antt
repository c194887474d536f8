-- ===== src/Calls/Store.antt =====
-- The keys of Redis that the call presence uses, and the commands that its transactions queue. A hash
-- or a set that does not exist is `none` or empty. `EXPIRE` changes no value: a key lives for a day
-- after its last refresh, and what happens to keys that are older is not modelled.
use academia_backend_api.Base.{
  ℕ, String, Bool, not, Option, none, some, List, [], ◌∷◌, ◌++◌, ◌==◌, if◌then◌else◌, filter,
  member,
}

-- The hash `chat:call:<room>`; `active` tells whether its field is the text 1.
pub record Metadata : Type 0 where
  pub project_group_id : ℕ
  pub meeting_room_name : String
  pub started_by_user_id : ℕ
  pub started_at : ℕ
  pub active : Bool

-- `participants` are the sets `chat:call:<room>:participants`, and `user_rooms` the sets
-- `chat:call:user:<user>:rooms`.
pub record Store : Type 0 where
  pub metadata : ℕ → Option Metadata
  pub participants : ℕ → List ℕ
  pub user_rooms : ℕ → List ℕ

pub data Key : Type 0 where
  metadata_key participants_key user_rooms_key : ℕ → Key

abbrev pub sadd : ℕ → List ℕ → List ℕ
sadd x xs = if member x xs then xs else xs ++ (x ∷ [])

abbrev pub srem : ℕ → List ℕ → List ℕ
srem x xs = filter (λ y. not (y == x)) xs

pub data Command : Type 0 where
  hset : (room : ℕ) → Metadata → Command
  del_metadata del_participants : (room : ℕ) → Command
  sadd_participant srem_participant : (room user : ℕ) → Command
  sadd_room srem_room : (user room : ℕ) → Command
  expire : Key → Command

abbrev pub set_at {ℓ} : {A : Type ℓ} → ℕ → A → (ℕ → A) → ℕ → A
set_at k v f i = if i == k then v else f i

unfoldable pub run_command : Command → Store → Store
run_command (hset room m) s = record s { metadata = set_at room (some m) s.metadata }
run_command (del_metadata room) s = record s { metadata = set_at room none s.metadata }
run_command (del_participants room) s = record s { participants = set_at room [] s.participants }
run_command (sadd_participant room user) s = record s {
  participants = set_at room (sadd user (s.participants room)) s.participants;
}
run_command (srem_participant room user) s = record s {
  participants = set_at room (srem user (s.participants room)) s.participants;
}
run_command (sadd_room user room) s = record s {
  user_rooms = set_at user (sadd room (s.user_rooms user)) s.user_rooms;
}
run_command (srem_room user room) s = record s {
  user_rooms = set_at user (srem room (s.user_rooms user)) s.user_rooms;
}
run_command (expire k) s = s

-- `exec()` of a transaction that is not discarded.
unfoldable pub exec : List Command → Store → Store
exec [] s = s
exec (c ∷ cs) s = exec cs (run_command c s)
