-- ===== src/Calls/Operations.antt =====
-- What `startCall`, `joinCall`, `leaveCall` and `endCall` plan to do, from what they read.
use text.Mathlib.Text.{◌==◌ as str_eq}
use academia_backend_api.Base.{
  ℕ, ◌+◌, ◌-◌, String, Bool, true, false, not, ◌&&◌, Option, none, some, List, [], ◌∷◌, ◌++◌, ltb,
  ◌==◌, if◌then◌else◌, length, member,
}
use academia_backend_api.Calls.Store.{
  Metadata, Store, metadata_key, participants_key, user_rooms_key, Command, hset, del_metadata,
  del_participants, sadd_participant, srem_participant, sadd_room, srem_room, expire,
}

-- `{ result, transaction }`: the answer and the queued commands, if there is a transaction.
pub record Plan {ℓ} (A : Type ℓ) : Type ℓ where
  pub result : A
  pub transaction : Option (List Command)

pub record StartResult : Type 0 where
  pub meeting_room_name : String
  pub started_by_user_id : ℕ
  pub started_at : ℕ
  pub session_created : Bool
  pub participant_count : ℕ

pub record JoinResult : Type 0 where
  pub active : Bool
  pub meeting_room_name : Option String
  pub participant_count : ℕ

pub record LeaveResult : Type 0 where
  pub meeting_room_name : Option String
  pub ended : Bool
  pub participant_count : ℕ

pub record EndResult : Type 0 where
  pub meeting_room_name : Option String
  pub ended_by_user_id : ℕ
  pub ended_at : ℕ

-- `metadata.active === '1'`
abbrev pub is_active : Option Metadata → Bool
is_active none = false
is_active (some m) = m.active

abbrev pub name_of : Option Metadata → Option String
name_of none = none
name_of (some m) = some m.meeting_room_name

-- The participants after the user is added.
abbrev pub count_with : ℕ → List ℕ → ℕ
count_with user users = length users + (if member user users then 0 else 1)

-- `isExistingParticipant ? Math.max(0, count - 1) : count`
abbrev pub count_without : ℕ → List ℕ → ℕ
count_without user users = if member user users then length users - 1 else length users

abbrev pub refresh : ℕ → ℕ → List Command
refresh room user =
    expire (metadata_key room) ∷ expire (participants_key room) ∷ expire (user_rooms_key user) ∷ []

-- `metadata.x || x`: a field that is missing or empty is replaced.
abbrev pub started_metadata : ℕ → ℕ → String → ℕ → Option Metadata → Metadata
started_metadata now project_group_id name user none = record {
  project_group_id = project_group_id;
  meeting_room_name = name;
  started_by_user_id = user;
  started_at = now;
  active = true;
}
started_metadata now project_group_id name user (some m) = record m {
  project_group_id = project_group_id;
  meeting_room_name = if str_eq m.meeting_room_name "" then name else m.meeting_room_name;
  active = true;
}

unfoldable pub start_call : ℕ → ℕ → ℕ → String → ℕ → Store → Plan StartResult
start_call now room project_group_id name user s =
    let m = started_metadata now project_group_id name user (s.metadata room) in
    record {
      result = record {
        meeting_room_name = m.meeting_room_name;
        started_by_user_id = m.started_by_user_id;
        started_at = m.started_at;
        session_created = not (is_active (s.metadata room));
        participant_count = count_with user (s.participants room);
      };
      transaction =
          some (hset room m ∷ sadd_participant room user ∷ sadd_room user room ∷ refresh room user);
    }

-- `!metadata || metadata.active !== '1'`
abbrev join_active : ℕ → ℕ → List ℕ → Option Metadata → Bool → Plan JoinResult
join_active room user users m false = record {
  result = record { active = false; meeting_room_name = none; participant_count = 0 };
  transaction = none;
}
join_active room user users m true = record {
  result = record {
    active = true;
    meeting_room_name = name_of m;
    participant_count = count_with user users;
  };
  transaction = some (sadd_participant room user ∷ sadd_room user room ∷ refresh room user);
}

unfoldable pub join_call : ℕ → ℕ → Store → Plan JoinResult
join_call room user s =
    join_active room user (s.participants room) (s.metadata room) (is_active (s.metadata room))

unfoldable pub leave_call : ℕ → ℕ → Store → Plan LeaveResult
leave_call room user s =
    let left = count_without user (s.participants room) in
    record {
      result = record {
        meeting_room_name = name_of (s.metadata room);
        ended = left == 0;
        participant_count = left;
      };
      transaction = some (
          srem_participant room user
          ∷ srem_room user room
          ∷ (if is_active (s.metadata room) && ltb 0 left
              then refresh room user
              else del_metadata room ∷ del_participants room ∷ []));
    }

-- `for (const userId of participantUserIds) transaction.srem(…)`
unfoldable pub leave_rooms : ℕ → List ℕ → List Command
leave_rooms room [] = []
leave_rooms room (user ∷ users) = srem_room user room ∷ leave_rooms room users

unfoldable pub end_call : ℕ → ℕ → ℕ → Store → Plan EndResult
end_call now room user s = record {
  result = record {
    meeting_room_name = name_of (s.metadata room);
    ended_by_user_id = user;
    ended_at = now;
  };
  transaction = some (
      del_metadata room
      ∷ del_participants room
      ∷ (leave_rooms room (s.participants room) ++ (srem_room user room ∷ [])));
}
