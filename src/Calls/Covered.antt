-- ===== src/Calls/Covered.antt =====
-- What every transaction keeps, from whatever stale reads it was planned.
use academia_backend_api.Base.{
  ℕ, String, true, false, ◌&&◌, List, [], ◌∷◌, ltb, ◌==◌, if◌then◌else◌, ◌≡◌, refl, inl, inr, arith,
  Bool-cases, member, after,
}
use academia_backend_api.Calls.Store.{Store, srem_room, run_command, exec}
use academia_backend_api.Calls.Operations.{
  is_active, count_without, start_call, join_call, leave_call, leave_rooms, end_call,
}
use academia_backend_api.Calls.Retry.{run_plan}
use academia_backend_api.Calls.Sets.{
  IsDistinct, member-sadd, member-srem, sadd-IsDistinct, srem-IsDistinct, nil-IsDistinct,
  member_nil,
}
use academia_backend_api.Calls.Invariant.{
  set_at-IsDistinct, exec-append, cleared, left_store, ended_store, Emptied, leave_rooms-Emptied,
}
use academia_backend_api.Calls.System.{
  Request, start, join, leave, end_all, commit, Foreign, commit_all,
}

-- Every participant of a room has the room among its rooms, and no participant is stored twice.
pub record Covered (s : Store) : Type 0 where
  pub reached :
      (room user : ℕ)
      → member user (s.participants room) ≡ true
      → member room (s.user_rooms user) ≡ true
  pub distinct : (room : ℕ) → IsDistinct (s.participants room)

start-Covered :
    (now room project_group_id : ℕ) (name : String) (user : ℕ) (seen s : Store)
    → Covered s
    → Covered (after (run_plan (start_call now room project_group_id name user seen) s))
unfolding start_call exec run_command
start-Covered now room project_group_id name user seen s v = record {
  reached = λ r u h. ground (
    arith,
    v.reached r u,
    v.reached room u,
    member-sadd u user (s.participants room),
    member-sadd r room (s.user_rooms user),
  );
  distinct = λ r.
      set_at-IsDistinct room _ s.participants r
        (sadd-IsDistinct user (s.participants room) (v.distinct room)) (v.distinct r);
}

join-Covered :
    (room user : ℕ) (seen s : Store)
    → Covered s
    → Covered (after (run_plan (join_call room user seen) s))
unfolding join_call exec run_command
join-Covered room user seen s v = elim (Bool-cases (is_active (seen.metadata room))) [
  | inl e ↦ rw e (record {
    reached = λ r u h. ground (
      arith,
      v.reached r u,
      v.reached room u,
      member-sadd u user (s.participants room),
      member-sadd r room (s.user_rooms user),
    );
    distinct = λ r.
        set_at-IsDistinct room _ s.participants r
          (sadd-IsDistinct user (s.participants room) (v.distinct room)) (v.distinct r);
  })
  | inr e ↦ rw e v
]

left_store-Covered : (room user : ℕ) (s : Store) → Covered s → Covered (left_store room user s)
left_store-Covered room user s v = record {
  reached = λ r u h. ground (
    arith,
    v.reached r u,
    v.reached room u,
    member-srem u user (s.participants room),
    member-srem r room (s.user_rooms user),
  );
  distinct = λ r.
      set_at-IsDistinct room _ s.participants r
        (srem-IsDistinct user (s.participants room) (v.distinct room)) (v.distinct r);
}

-- Where no one is left in the room.
emptied-Covered :
    (room : ℕ) (s t : Store)
    → Covered s
    → ((r u : ℕ)
        → (r == room) ≡ false
        → member r (s.user_rooms u) ≡ true
        → member r (t.user_rooms u) ≡ true)
    → ((r : ℕ) → t.participants r ≡ (if r == room then [] else s.participants r))
    → Covered t
emptied-Covered room s t v k p = record {
  reached = λ r u. elim (Bool-cases (r == room)) [
    | inl e ↦ rw (p r, e) λ h. absurd (ground (arith, member_nil u))
    | inr e ↦ rw (p r, e) λ h. k r u e (v.reached r u h)
  ];
  distinct = λ r. elim (Bool-cases (r == room)) [
    | inl e ↦ rw (p r, e) nil-IsDistinct
    | inr e ↦ rw (p r, e) (v.distinct r)
  ];
}

ended_store-Covered : (room user : ℕ) (s : Store) → Covered s → Covered (ended_store room user s)
ended_store-Covered room user s v =
    emptied-Covered room s (ended_store room user s) v
      (λ r u e h. ground (arith, member-srem r room (s.user_rooms user))) (λ r. ground arith)

leave-Covered :
    (room user : ℕ) (seen s : Store)
    → Covered s
    → Covered (after (run_plan (leave_call room user seen) s))
unfolding leave_call exec run_command
leave-Covered room user seen s v =
    elim (Bool-cases
      (is_active (seen.metadata room) && ltb 0 (count_without user (seen.participants room)))) [
        | inl e ↦ rw e (left_store-Covered room user s v)
        | inr e ↦ rw e (ended_store-Covered room user s v)
      ]

end-Covered :
    (now room user : ℕ) (seen s : Store)
    → Covered s
    → Covered (after (run_plan (end_call now room user seen) s))
unfolding end_call exec run_command
end-Covered now room user seen s v =
    let users = seen.participants room in
    let mid = cleared room s in
    let t = exec (leave_rooms room users) mid in
    let e : Emptied room users mid t = leave_rooms-Emptied room users mid in
    rw (exec-append (leave_rooms room users) (srem_room user room ∷ []) mid) (
      emptied-Covered room s _ v
        (λ r u ne h.
          ground (arith, e.rooms r u, e.rooms r user, member-srem r room (t.user_rooms user)))
        (λ r. rw e.participants refl))

pub commit-Covered : (r : Request) (seen s : Store) → Covered s → Covered (commit r seen s)
unfolding commit
commit-Covered (start now room project_group_id name user) seen s v =
    start-Covered now room project_group_id name user seen s v
commit-Covered (join room user) seen s v = join-Covered room user seen s v
commit-Covered (leave room user) seen s v = leave-Covered room user seen s v
commit-Covered (end_all now room user) seen s v = end-Covered now room user seen s v

pub commit_all-Covered : (fs : List Foreign) (s : Store) → Covered s → Covered (commit_all fs s)
unfolding commit_all
commit_all-Covered [] s v = v
commit_all-Covered (f ∷ fs) s v =
    commit_all-Covered fs (commit f.request f.seen s) (commit-Covered f.request f.seen s v)
