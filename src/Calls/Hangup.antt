-- ===== src/Calls/Hangup.antt =====
-- `leaveAllCallsForUser`: the rooms of a user, left one after another.
use academia_backend_api.Base.{
  subst, sym, ap, suc, ℕ, true, false, ◌&&◌, List, [], ◌∷◌, ◌≡◌, refl, inl, inr, arith, Bool-cases,
  ltb, ◌==◌, if◌then◌else◌, eq→==, member, M, pure, read, ◌>>=◌, after, Post, Post-pure, Post-bind,
  Post-read, returns, length,
}
use academia_backend_api.Calls.Store.{Store, run_command, exec}
use academia_backend_api.Calls.Operations.{LeaveResult, is_active, count_without, leave_call}
use academia_backend_api.Calls.Retry.{
  Meanwhile, attempts, execute_with_optimistic_retry, atomically,
}
use academia_backend_api.Calls.Sets.{member-srem, member_cons, member_nil}
use academia_backend_api.Calls.Invariant.{Inv, leave_call-Inv}

-- `env room` is what others do while the call of that room is left.
unfoldable pub leave_each : (ℕ → ℕ → Meanwhile) → ℕ → List ℕ → M Store (List LeaveResult)
leave_each env user [] = pure []
leave_each env user (room ∷ rooms) = do
  result ← execute_with_optimistic_retry (env room) (leave_call room user)
  results ← leave_each env user rooms
  pure (result ∷ results)

unfoldable pub leave_all_calls_for_user : (ℕ → ℕ → Meanwhile) → ℕ → M Store (List LeaveResult)
leave_all_calls_for_user env user = do
  rooms ← read (λ s. s.user_rooms user)
  leave_each env user rooms

-- Nobody else is around.
abbrev pub nobody : ℕ → ℕ → Meanwhile
nobody room n = record { seen = λ s. s; change = λ s. s; discarded = false }

rooms_left :
    (room user r : ℕ) (s : Store)
    → member r ((after (atomically (leave_call room user) s)).user_rooms user)
      ≡ (if room == r then false else member r (s.user_rooms user))
unfolding leave_call exec run_command
rooms_left room user r s =
    elim (Bool-cases
      (is_active (s.metadata room) && ltb 0 (count_without user (s.participants room)))) [
        | inl e ↦ rw (e, eq→== user user refl) (member-srem r room (s.user_rooms user))
        | inr e ↦ rw (e, eq→== user user refl) (member-srem r room (s.user_rooms user))
      ]

-- The user is in no call, and the invariant holds.
pub record Gone (user : ℕ) (t : Store) : Type 0 where
  pub outside : (room : ℕ) → member user (t.participants room) ≡ false
  pub kept : Inv t

Listed : ℕ → List ℕ → Store → Type 0
Listed user rooms s = (r : ℕ) → member r (s.user_rooms user) ≡ true → member r rooms ≡ true

leave-Listed :
    (user room : ℕ) (rooms : List ℕ) (s : Store)
    → Listed user (room ∷ rooms) s
    → Listed user rooms (after (atomically (leave_call room user) s))
unfolding Listed
leave-Listed user room rooms s h r e =
    let left = rooms_left room user r s in
    elim (Bool-cases (member r (s.user_rooms user))) [
      | inl t ↦ ground (arith, h r t, left, member_cons r room rooms)
      | inr t ↦ ground (arith, left)
    ]

left_none : (user : ℕ) (s : Store) → Inv s → Listed user [] s → Gone user s
unfolding Listed
left_none user s v h = record {
  outside = λ room. elim (Bool-cases (member room (s.user_rooms user))) [
    | inl t ↦ absurd (ground (arith, h room t, member_nil room))
    | inr t ↦ ground (arith, v.linked room user)
  ];
  kept = v;
}

leave_alone :
    (room user : ℕ) (s : Store)
    → execute_with_optimistic_retry (nobody room) (leave_call room user) s
      ≡ atomically (leave_call room user) s
unfolding execute_with_optimistic_retry attempts leave_call
leave_alone room user s = refl

first_left :
    (room user : ℕ) (s : Store)
    → Post
        (λ a t. t ≡ after (atomically (leave_call room user) s))
        (λ t. ⊥)
        (execute_with_optimistic_retry (nobody room) (leave_call room user) s)
unfolding leave_call
first_left room user s = rw (leave_alone room user s) (returns refl)

leave_each-Gone :
    (user : ℕ) (rooms : List ℕ) (s : Store)
    → Inv s
    → Listed user rooms s
    → Post
        (λ results t. Gone user t × (length results ≡ length rooms))
        (λ t. ⊥)
        (leave_each nobody user rooms s)
unfolding leave_each leave_call length
leave_each-Gone user [] s v h = Post-pure _ _ (left_none user s v h, refl)
leave_each-Gone user (room ∷ rooms) s v h =
    let t = after (atomically (leave_call room user) s) in
    Post-bind _ _ _ (first_left room user s) λ result u e.
      Post-bind _ _ _
        (subst
          (λ w.
            Post (λ results x. Gone user x × (length results ≡ length rooms)) (λ x. ⊥)
              (leave_each nobody user rooms w))
          (sym e)
          (leave_each-Gone user rooms t (leave_call-Inv room user s v)
            (leave-Listed user room rooms s h)))
        λ results w both. Post-pure _ _ (both.0, ap suc both.1)

-- With nobody else around, `leaveAllCallsForUser` returns from a store that keeps the invariant: the user
-- is in no call, the invariant is kept, and there is one answer for each room that the user was in.
pub leave_all_calls_for_user_lem :
    (user : ℕ) (s : Store)
    → Inv s
    → Post
        (λ results t. Gone user t × (length results ≡ length (s.user_rooms user)))
        (λ t. ⊥)
        (leave_all_calls_for_user nobody user s)
unfolding leave_all_calls_for_user Listed
leave_all_calls_for_user_lem user s v =
    Post-read _ _ _ (leave_each-Gone user (s.user_rooms user) s v (λ r e. e))
