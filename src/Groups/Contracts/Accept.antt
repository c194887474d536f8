-- ===== src/Groups/Contracts/Accept.antt =====
-- `acceptInvitationByToken` and `rejectInvitationByToken`.
use academia_backend_api.Base.{
  ℕ, String, true, false, Option, none, some, ◌≡◌, ◌⊎◌, inl, inr, refl, ok, after, effects, Post,
  Post-pure, Post-guard, Post-require_row, Post-throw_if, Post-throw_when, Post-when_then_throw,
  Post-return_if, Post-write, Post-then_ok, Post-transaction, Post-map, Bool-cases,
}
use text.Mathlib.Text.{◌==◌ as str_eq}
use academia_backend_api.Groups.Schema.{
  Db, ProjectGroup, GroupInvitation, InvitationStatus, is_draft, invitation_pending,
}
use academia_backend_api.Groups.Queries.{
  find_group, update_invitation_status, revoke_user_invitations, is_invitation,
}
use academia_backend_api.Groups.Invitations.{
  require_token, find_invitation_by_token, is_expired, is_accepted, is_rejected_invitation,
  accept_pending, accept_in_transaction, accept_invitation, reject_in_transaction,
  reject_invitation,
}
use academia_backend_api.Groups.Contracts.Approve.{Joinable, with_member, add_member-ok, not-false}

-- The writes of an acceptance, in their order.
abbrev pub accepted_state : ℕ → GroupInvitation → Db → Db
accepted_state now i db = revoke_user_invitations now i.invited_user_id (is_invitation i.id) (
    update_invitation_status i.id InvitationStatus.accepted now
      (with_member i.project_group_id i.invited_user_id db))

-- The invitation that the token names, and the group to which it invites.
pub record Named (trim : String → String) (given : Option String) (db : Db) (i : GroupInvitation)
    (g : ProjectGroup) : Type 0 where
  pub raw : String
  pub given_raw : given ≡ some raw
  pub found : find_invitation_by_token (trim raw) db ≡ some i
  pub group_found : find_group i.project_group_id db ≡ some g
  pub open_ : is_draft g.status ≡ true

pub record Acceptance (trim : String → String) (now : ℕ) (given : Option String) (db : Db) (a : ℕ)
    (s : Db) : Type 0 where
  pub i : GroupInvitation
  pub g : ProjectGroup
  pub named : Named trim given db i g
  pub answered : a ≡ i.project_group_id
  pub effect :
      ((is_accepted i.status ≡ true) × (s ≡ db))
      ⊎ ((invitation_pending i.status ≡ true)
          × (is_expired now i ≡ false)
          × Joinable db g i.invited_user_id
          × (s ≡ accepted_state now i db))

require_token-after :
    (trim : String → String) (given : Option String) (db : Db)
    → after (require_token trim given db) ≡ db
unfolding effects require_token
require_token-after trim none db = refl
require_token-after trim (some t) db = elim (Bool-cases (str_eq (trim t) "")) [
  | inl e ↦ rw e
  | inr e ↦ rw e
]

require_token-ok :
    (trim : String → String) (given : Option String) (db : Db) {token : String}
    → require_token trim given db ≡ ok token db
    → (raw : String) × (given ≡ some raw) × (trim raw ≡ token)
unfolding effects require_token
require_token-ok trim none db h = cc
require_token-ok trim (some t) db h = elim (Bool-cases (str_eq (trim t) "")) [
  | inl e ↦ (t, refl, cc (rw e at h))
  | inr e ↦ (t, refl, cc (rw e at h))
]

accept_pending_lem :
    (now : ℕ) (i : GroupInvitation) (g : ProjectGroup) (db : Db)
    → is_draft g.status ≡ true
    → Post
        (λ a s.
          (a ≡ i.project_group_id)
          × (is_expired now i ≡ false)
          × Joinable db g i.invited_user_id
          × (s ≡ accepted_state now i db))
        (λ s. Unit {0})
        (accept_pending now i g db)
unfolding accept_pending
accept_pending_lem now i g db draft =
    Post-when_then_throw _ _ _ _ _ (λ t. tt)
      λ live.
        Post-when_then_throw _ _ _ _ _ (λ t. tt)
          λ unplaced.
            Post-when_then_throw _ _ _ _ _ (λ t. tt)
              λ leads. Post-throw_when _ _ _ tt λ room.
                Post-then_ok _ _ (add_member-ok _ _ db unplaced) (
                  Post-write _ _ _ (
                    Post-write _ _ _ (
                      Post-pure _ _ (
                        refl,
                        live,
                        record {
                          open_ = draft;
                          unplaced = unplaced;
                          leads_none = leads;
                          room = room;
                        },
                        refl,
                      ))))

pub accept_invitation_lem :
    (trim : String → String) (now : ℕ) (given : Option String) (db : Db)
    → Post (Acceptance trim now given db) (λ s. s ≡ db) (accept_invitation trim now given db)
unfolding accept_invitation accept_in_transaction
accept_invitation_lem trim now given db =
    Post-guard _ _ (require_token-after trim given db) refl λ token e.
      let (raw, given_raw, same) = require_token-ok trim given db e in
      Post-transaction (λ s. Unit {0}) _ refl
        (Post-require_row _ _ _ tt λ i found. Post-require_row _ _ _ tt λ g group_found.
          Post-throw_if _ _ tt λ draft.
            let named : Named trim given db i g = record {
              raw = raw;
              given_raw = given_raw;
              found = rw same found;
              group_found = group_found;
              open_ = not-false _ draft;
            } in
            Post-return_if _ _ _ _
              (λ before. Post-pure _ _ (record {
                i = i;
                g = g;
                named = named;
                answered = refl;
                effect = inl (before, refl);
              }))
              (λ fresh. Post-throw_if _ _ tt λ pending.
                Post-map (accept_pending_lem now i g db (not-false _ draft))
                  (λ a s c. record {
                    i = i;
                    g = g;
                    named = named;
                    answered = c.0;
                    effect = inr (not-false _ pending, c.1, c.2, c.3);
                  })
                  (λ s h. tt)))

pub record Refusal (trim : String → String) (now : ℕ) (given : Option String) (db : Db) (a : ℕ)
    (s : Db) : Type 0 where
  pub i : GroupInvitation
  pub g : ProjectGroup
  pub named : Named trim given db i g
  pub answered : a ≡ i.project_group_id
  pub effect :
      ((is_rejected_invitation i.status ≡ true) × (s ≡ db))
      ⊎ ((invitation_pending i.status ≡ true)
          × (is_expired now i ≡ false)
          × (s ≡ update_invitation_status i.id InvitationStatus.rejected now db))

-- The same for a refusal, which marks the invitation and nothing else.
pub reject_invitation_lem :
    (trim : String → String) (now : ℕ) (given : Option String) (db : Db)
    → Post (Refusal trim now given db) (λ s. s ≡ db) (reject_invitation trim now given db)
unfolding reject_invitation reject_in_transaction
reject_invitation_lem trim now given db =
    Post-guard _ _ (require_token-after trim given db) refl λ token e.
      let (raw, given_raw, same) = require_token-ok trim given db e in
      Post-transaction (λ s. Unit {0}) _ refl
        (Post-require_row _ _ _ tt λ i found. Post-require_row _ _ _ tt λ g group_found.
          Post-throw_if _ _ tt λ draft.
            let named : Named trim given db i g = record {
              raw = raw;
              given_raw = given_raw;
              found = rw same found;
              group_found = group_found;
              open_ = not-false _ draft;
            } in
            Post-return_if _ _ _ _
              (λ before. Post-pure _ _ (record {
                i = i;
                g = g;
                named = named;
                answered = refl;
                effect = inl (before, refl);
              }))
              (λ fresh. Post-throw_if _ _ tt λ pending.
                Post-when_then_throw _ _ _ _ _ (λ t. tt)
                  λ live. Post-write _ _ _ (
                    Post-pure _ _ (record {
                      i = i;
                      g = g;
                      named = named;
                      answered = refl;
                      effect = inr (not-false _ pending, live, refl);
                    }))))
