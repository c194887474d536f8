-- ===== src/Calls/Invariant.antt =====
-- What holds of the stored calls between two operations.
use academia_backend_api.Base.{
  ℕ, String, true, false, not, ◌&&◌, none, List, [], ◌∷◌, ◌++◌, ltb, ◌==◌, if◌then◌else◌, ◌≡◌, refl,
  sym, subst, inl, inr, arith, Bool-cases, ==→eq, length, member, after, find,
}
use academia_backend_api.Calls.Store.{
  Store, Command, srem_room, run_command, exec, set_at, sadd, srem,
}
use academia_backend_api.Calls.Operations.{
  is_active, count_without, start_call, join_call, leave_call, leave_rooms, end_call,
}
use academia_backend_api.Calls.Retry.{atomically}
use academia_backend_api.Calls.Sets.{
  is_empty, IsDistinct, member-sadd, member-srem, sadd-IsDistinct, srem-IsDistinct, length-srem,
  not_member, member-empty, member_nil, member_cons, nil-IsDistinct, is_empty-length, member-occurs,
}

-- A room has an active call exactly where it has participants; a user is among the participants of a
-- room exactly where the room is among the user's rooms; and no participant is stored twice.
pub record Inv (s : Store) : Type 0 where
  pub live : (room : ℕ) → is_active (s.metadata room) ≡ not (is_empty (s.participants room))
  pub linked : (room user : ℕ) → member user (s.participants room) ≡ member room (s.user_rooms user)
  pub distinct : (room : ℕ) → IsDistinct (s.participants room)

pub set_at-IsDistinct :
    (room : ℕ) (xs : List ℕ) (f : ℕ → List ℕ) (r : ℕ)
    → IsDistinct xs
    → IsDistinct (f r)
    → IsDistinct (set_at room xs f r)
set_at-IsDistinct room xs f r h k = elim (Bool-cases (r == room)) [
  | inl e ↦ rw e h
  | inr e ↦ rw e k
]

is_empty-sadd : (x : ℕ) (xs : List ℕ) → is_empty (sadd x xs) ≡ false
unfolding find
is_empty-sadd x [] = refl
is_empty-sadd x (y ∷ xs) = ground arith

pub start_call-Inv :
    (now room project_group_id : ℕ) (name : String) (user : ℕ) (s : Store)
    → Inv s
    → Inv (after (atomically (start_call now room project_group_id name user) s))
unfolding start_call exec run_command
start_call-Inv now room project_group_id name user s v = record {
  live = λ r. ground (arith, v.live r, is_empty-sadd user (s.participants room));
  linked = λ r u. ground (
    arith,
    v.linked r u,
    v.linked room u,
    member-sadd u user (s.participants room),
    member-sadd r room (s.user_rooms user),
  );
  distinct = λ r.
      set_at-IsDistinct room _ s.participants r
        (sadd-IsDistinct user (s.participants room) (v.distinct room)) (v.distinct r);
}

pub join_call-Inv :
    (room user : ℕ) (s : Store) → Inv s → Inv (after (atomically (join_call room user) s))
unfolding join_call exec run_command
join_call-Inv room user s v = elim (Bool-cases (is_active (s.metadata room))) [
  | inl e ↦ rw e (record {
    live = λ r. ground (arith, v.live r, is_empty-sadd user (s.participants room));
    linked = λ r u. ground (
      arith,
      v.linked r u,
      v.linked room u,
      member-sadd u user (s.participants room),
      member-sadd r room (s.user_rooms user),
    );
    distinct = λ r.
        set_at-IsDistinct room _ s.participants r
          (sadd-IsDistinct user (s.participants room) (v.distinct room)) (v.distinct r);
  })
  | inr e ↦ rw e v
]

-- The count that `leaveCall` computes is the number of participants that stay.
pub count_without-length :
    (user : ℕ) (users : List ℕ)
    → IsDistinct users
    → count_without user users ≡ length (srem user users)
count_without-length user users d = elim (Bool-cases (member user users)) [
  | inl e ↦ rw e (omega (arith, length-srem user users, member-occurs user users e, d user))
  | inr e ↦ rw e (omega (arith, length-srem user users, not_member user users e))
]

-- What is left of the store where the user's leaving does not end the call.
abbrev pub left_store : ℕ → ℕ → Store → Store
left_store room user s = record s {
  participants = set_at room (srem user (s.participants room)) s.participants;
  user_rooms = set_at user (srem room (s.user_rooms user)) s.user_rooms;
}

abbrev pub ended_store : ℕ → ℕ → Store → Store
ended_store room user s = record s {
  metadata = set_at room none s.metadata;
  participants = set_at room [] (set_at room (srem user (s.participants room)) s.participants);
  user_rooms = set_at user (srem room (s.user_rooms user)) s.user_rooms;
}

left_store-Inv :
    (room user : ℕ) (s : Store)
    → Inv s
    → is_active (s.metadata room) ≡ true
    → is_empty (srem user (s.participants room)) ≡ false
    → Inv (left_store room user s)
left_store-Inv room user s v a n = record {
  live = λ r. elim (Bool-cases (r == room)) [
    | inl e ↦ rw (e, n) (subst (λ i. is_active (s.metadata i) ≡ true) (sym (==→eq r room e)) a)
    | inr e ↦ rw e (v.live r)
  ];
  linked = λ r u. ground (
    arith,
    v.linked r u,
    v.linked room u,
    member-srem u user (s.participants room),
    member-srem r room (s.user_rooms user),
  );
  distinct = λ r.
      set_at-IsDistinct room _ s.participants r
        (srem-IsDistinct user (s.participants room) (v.distinct room)) (v.distinct r);
}

ended_store-Inv :
    (room user : ℕ) (s : Store)
    → Inv s
    → length (srem user (s.participants room)) ≡ 0
    → Inv (ended_store room user s)
ended_store-Inv room user s v n = record {
  live = λ r. ground (arith, v.live r);
  linked = λ r u. ground (
    arith,
    v.linked r u,
    v.linked room u,
    member-srem u user (s.participants room),
    member-empty u (srem user (s.participants room)) n,
    member_nil u,
    member-srem r room (s.user_rooms user),
  );
  distinct = λ r.
      set_at-IsDistinct room [] (set_at room (srem user (s.participants room)) s.participants) r
        nil-IsDistinct
        (set_at-IsDistinct room _ s.participants r
          (srem-IsDistinct user (s.participants room) (v.distinct room)) (v.distinct r));
}

pub leave_empty :
    (room user : ℕ) (s : Store)
    → Inv s
    → (is_active (s.metadata room) && ltb 0 (count_without user (s.participants room))) ≡ false
    → length (srem user (s.participants room)) ≡ 0
leave_empty room user s v h = ground (
  arith,
  v.live room,
  is_empty-length (s.participants room),
  length-srem user (s.participants room),
  count_without-length user (s.participants room) (v.distinct room),
)

leave_some :
    (room user : ℕ) (s : Store)
    → Inv s
    → (is_active (s.metadata room) && ltb 0 (count_without user (s.participants room))) ≡ true
    → (is_active (s.metadata room) ≡ true) × (is_empty (srem user (s.participants room)) ≡ false)
leave_some room user s v h =
    let counted = count_without-length user (s.participants room) (v.distinct room) in
    let measured = is_empty-length (srem user (s.participants room)) in
    (ground (arith, counted), ground (arith, counted, measured))

pub leave_call-Inv :
    (room user : ℕ) (s : Store) → Inv s → Inv (after (atomically (leave_call room user) s))
unfolding leave_call exec run_command
leave_call-Inv room user s v =
    elim (Bool-cases
      (is_active (s.metadata room) && ltb 0 (count_without user (s.participants room)))) [
        | inl e ↦ rw e (let (a, n) = leave_some room user s v e in left_store-Inv room user s v a n)
        | inr e ↦ rw e (ended_store-Inv room user s v (leave_empty room user s v e))
      ]

pub exec-append : (cs ds : List Command) (s : Store) → exec (cs ++ ds) s ≡ exec ds (exec cs s)
unfolding exec
exec-append [] ds s = refl
exec-append (c ∷ cs) ds s = exec-append cs ds (run_command c s)

abbrev pub cleared : ℕ → Store → Store
cleared room s = record s {
  metadata = set_at room none s.metadata;
  participants = set_at room [] s.participants;
}

-- What the loop of `endCall` leaves.
pub record Emptied (room : ℕ) (users : List ℕ) (s t : Store) : Type 0 where
  pub metadata : t.metadata ≡ s.metadata
  pub participants : t.participants ≡ s.participants
  pub rooms :
      (r u : ℕ)
      → member r (t.user_rooms u)
        ≡ (if r == room && member u users then false else member r (s.user_rooms u))

pub leave_rooms-Emptied :
    (room : ℕ) (users : List ℕ) (s : Store) → Emptied room users s (exec (leave_rooms room users) s)
unfolding leave_rooms exec run_command
leave_rooms-Emptied room [] s = record {
  metadata = refl;
  participants = refl;
  rooms = λ r u. ground (arith, member_nil u);
}
leave_rooms-Emptied room (user ∷ users) s =
    let rest = leave_rooms-Emptied room users (run_command (srem_room user room) s) in
    record {
      metadata = rest.metadata;
      participants = rest.participants;
      rooms = λ r u.
          ground (
            arith,
            rest.rooms r u,
            member-srem r room (s.user_rooms user),
            member_cons u user users,
          );
    }

pub end_call-Inv :
    (now room user : ℕ) (s : Store) → Inv s → Inv (after (atomically (end_call now room user) s))
unfolding end_call exec run_command
end_call-Inv now room user s v =
    let users = s.participants room in
    let mid = cleared room s in
    let t = exec (leave_rooms room users) mid in
    let e : Emptied room users mid t = leave_rooms-Emptied room users mid in
    rw (exec-append (leave_rooms room users) (srem_room user room ∷ []) mid) (record {
      live = λ r. rw (e.metadata, e.participants) (ground (arith, v.live r));
      linked = λ r u. rw e.participants (
          ground (
            arith,
            e.rooms r u,
            e.rooms r user,
            member-srem r room (t.user_rooms user),
            v.linked r u,
            v.linked room u,
            member_nil u,
          ));
      distinct = λ r.
          rw e.participants
            (set_at-IsDistinct room [] s.participants r nil-IsDistinct (v.distinct r));
    })
