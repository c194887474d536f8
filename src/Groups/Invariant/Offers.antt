-- ===== src/Groups/Invariant/Offers.antt =====
-- The handlers that make an offer, a join request or an invitation, keep the invariant.
use academia_backend_api.Base.{
  ℕ, ◌≤◌, ◌&&◌, not, String, true, false, Option, none, some, List, ◌∷◌, ◌≡◌, refl, subst, arith,
  inl, inr, ◌==◌, find, count, exists, All-update, count-update, find_of_unique, count-find-none,
  Bool-cases, ==→eq, eq→==, Post,
}
use academia_backend_api.Accounts.{Principal}
use academia_backend_api.Groups.Schema.{Db, ProjectGroup, GroupInvitation, JoinRequest, is_draft}
use academia_backend_api.Groups.Access.{Actor}
use academia_backend_api.Groups.Queries.{
  is_invitation, has_id, is_request, joins, resend, find_group_for_join_request,
  upsert_join_request,
}
use academia_backend_api.Groups.JoinRequests.{new_join_request, create_join_request}
use academia_backend_api.Groups.Invitations.{is_accepted, invite_student}
use academia_backend_api.Groups.Contracts.Offers.{create_join_request_lem, invite_student_lem}
use academia_backend_api.Groups.Invariant.{Inv, OpenOk, RequestJoined, is_draft_group}
use academia_backend_api.Groups.Invariant.Tables.{Inv-invitations, Inv-join_requests}

-- A table keeps one row for an identifier when the new row has a fresh one.
pub one-cons {ℓ} :
    {A : Type ℓ} (key : A → ℕ) (x : A) (xs : List A)
    → exists (λ y. key y == key x) xs ≡ false
    → ((id : ℕ) → count (λ y. key y == id) xs ≤ 1)
    → (id : ℕ) → count (λ y. key y == id) (x ∷ xs) ≤ 1
unfolding count
one-cons key x xs fresh one id = elim (Bool-cases (key x == id)) [
  | inl t ↦
      let none_found : find (λ y. key y == key x) xs ≡ none = ground arith in
      let absent : count (λ y. key y == id) xs ≡ 0 =
        subst (λ w. count (λ y. key y == w) xs ≡ 0) (==→eq (key x) id t)
          (count-find-none _ xs none_found) in
      rw (t, absent) (omega arith)
  | inr t ↦ rw t (one id)
]

-- The group that a join request is for is found by its identifier alone, and is a draft.
draft_found :
    (tenant_id department_id id : ℕ) (db : Db) (g : ProjectGroup)
    → ((j : ℕ) → count (has_id j) db.groups ≤ 1)
    → find_group_for_join_request tenant_id department_id id db ≡ some g
    → is_draft g.status ≡ true
    → is_draft_group db.groups g.id ≡ true
unfolding find_group_for_join_request is_draft_group
draft_found tenant_id department_id id db g one found draft =
    rw (find_of_unique _ (has_id g.id) db.groups (one g.id) found (eq→== g.id g.id refl)) draft

upsert-Inv :
    (fresh : ℕ) (actor : Actor) (g : ProjectGroup) (message : Option String) (db : Db)
    → is_draft_group db.groups g.id ≡ true
    → (not (exists (joins g.id actor.id) db.join_requests)
        && exists (is_request fresh) db.join_requests)
      ≡ false
    → Inv db
    → Inv (upsert_join_request (new_join_request fresh actor g message) db)
unfolding upsert_join_request
upsert-Inv fresh actor g message db draft free v =
    elim (Bool-cases (exists (joins g.id actor.id) db.join_requests)) [
      | inl old ↦ rw old (
          Inv-join_requests db _ v
            (λ id. omega (
              arith,
              count-update (is_request id) (joins g.id actor.id)
                  (resend (new_join_request fresh actor g message)) (λ x. refl) db.join_requests,
              v.one_request_row id,
            ))
            (All-update (OpenOk db.groups) (OpenOk db.groups) (joins g.id actor.id) _
              (λ r k t a. subst (λ j. is_draft_group db.groups j ≡ true) (ground arith) draft)
              (λ r k t. k) _ v.requests_open)
            (All-update (RequestJoined db.members) (RequestJoined db.members) (joins g.id actor.id)
              _ (λ r k t a. cc) (λ r k t. k) _ v.requests_joined))
      | inr new ↦ rw new (
          Inv-join_requests db _ v
            (one-cons (λ (r : JoinRequest). r.id) (new_join_request fresh actor g message)
              db.join_requests (ground arith) v.one_request_row)
            (λ a. draft, v.requests_open) (λ a. cc, v.requests_joined))
    ]

pub create_join_request-Inv :
    (fresh : ℕ) (user : Principal) (group_id : ℕ) (message : Option String) (db : Db)
    → Inv db
    → Post (λ a s. Inv s) Inv (create_join_request fresh user group_id message db)
create_join_request-Inv fresh user group_id message db v =
    create_join_request_lem Inv db v fresh user group_id message λ actor g e found draft room free.
      upsert-Inv fresh actor g message db (draft_found _ _ _ db g v.one_group_row found draft) free
        v

-- A pending invitation in front of the others.
invitation-Inv :
    (i : GroupInvitation) (db : Db)
    → is_accepted i.status ≡ false
    → exists (is_invitation i.id) db.invitations ≡ false
    → Inv db
    → Inv (record db { invitations = i ∷ db.invitations })
invitation-Inv i db plain free v =
    Inv-invitations db _ v
      (one-cons (λ (x : GroupInvitation). x.id) i db.invitations free v.one_invitation_row)
      (λ a. cc, v.invitations_joined)

pub invite_student-Inv :
    (lower : String → String) (fresh now sent : ℕ) (token : String) (db : Db)
    → Inv db
    → (user : Principal) (user_id : ℕ)
    → Post (λ a s. Inv s) Inv (invite_student lower fresh now sent token user user_id db)
invite_student-Inv lower fresh now sent token db v user user_id =
    invite_student_lem Inv db v fresh lower now sent token user user_id
      λ actor g invited e found draft fit room free. invitation-Inv _ db refl free v
