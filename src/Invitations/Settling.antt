-- ===== src/Invitations/Settling.antt =====
-- The user, the role and the advisor that an acceptance settles.
use text.Mathlib.Text.{◌==◌ as str_eq}
use text.Mathlib.TextEquality.{eq_iff}
use academia_backend_api.Base.{
  exists-none, exists-append, exists-update, ℕ, String, true, false, Option, none, some, List, [],
  ◌∷◌, ◌≡◌, refl, inl, inr, ◌∙◌, eq→==, ◌==◌, ◌&&◌, Bool, Bool-cases, exists, All, All-append,
  All-map, All-updated, Post, Post-pure, Post-throw_when, Post-write,
}
use academia_backend_api.Accounts.{UserStatus}
use academia_backend_api.Invitations.Schema.{
  Db, Invitation, Member, UserRole, Outside, RoleRow, Advisor,
}
use academia_backend_api.Invitations.Accept.{
  is_member, activated, new_member, settle_user, holds_role, granted_again, new_role, grant_role,
  put_advisor, settle_advisor, advises, moved_to, new_advisor,
}

-- The row of the user in the tenant and at the address of the invitation.
abbrev pub invitee : Outside → Invitation → ℕ → Member → Bool
invitee out i user_id u =
    u.id == user_id && (u.tenant_id == i.tenant_id && str_eq u.email (out.lower i.email))

-- The user is there, in the tenant and at the address of the invitation, and every row of it is active
-- with the new password, which it must change.
pub record Settled (out : Outside) (i : Invitation) (password : String) (user_id : ℕ)
    (users : List Member) : Type 0 where
  pub there : exists (invitee out i user_id) users ≡ true
  pub active :
      All
        (λ u.
          is_member user_id u ≡ true
          → (u.status ≡ UserStatus.active)
            × ((u.must_change_password ≡ true)
                × (u.hashed_password ≡ some (out.hash_password password))))
        users

-- The role is there, and not revoked.
pub record Holds (user_id role_id tenant_id : ℕ) (roles : List UserRole) : Type 0 where
  pub there : exists (holds_role user_id role_id tenant_id) roles ≡ true
  pub unrevoked :
      All (λ r. holds_role user_id role_id tenant_id r ≡ true → r.revoked_at ≡ none) roles

pub grant_role-Holds :
    (i : Invitation) (user_id : ℕ) (db : Db)
    → Holds user_id i.role_id i.tenant_id (grant_role i user_id db).user_roles
unfolding grant_role
grant_role-Holds i user_id db =
    let p = holds_role user_id i.role_id i.tenant_id in
    elim (Bool-cases (exists p db.user_roles)) [
      | inl t ↦ rw t (record {
        there = exists-update p p (granted_again i) db.user_roles (λ x. refl) ∙ t;
        unrevoked =
            All-updated _ p (granted_again i) (λ r e h. refl) (λ r e h. absurd (cc)) db.user_roles;
      })
      | inr t ↦ rw t (record {
        there = exists-append p db.user_roles (new_role i user_id) (
            rw
              (
                eq→== user_id user_id refl,
                eq→== i.role_id i.role_id refl,
                eq→== i.tenant_id i.tenant_id refl,
              )
              refl);
        unrevoked =
            All-append _ db.user_roles (new_role i user_id ∷ [])
              (All-map (λ r. p r ≡ false) _ (λ r e h. absurd (cc)) db.user_roles
                (exists-none p db.user_roles t))
              (λ h. refl, tt);
      })
    ]

-- The user is an advisor, and of this department.
pub record Advising (user_id department_id : ℕ) (advisors : List Advisor) : Type 0 where
  pub there : exists (λ a. a.user_id == user_id) advisors ≡ true
  pub placed : All (λ a. a.user_id == user_id ≡ true → a.department_id ≡ department_id) advisors

put_advisor-Advising :
    (user_id department_id : ℕ) (db : Db)
    → Advising user_id department_id (put_advisor user_id department_id db).advisors
unfolding put_advisor
put_advisor-Advising user_id department_id db =
    let p = advises user_id in
    elim (Bool-cases (exists p db.advisors)) [
      | inl t ↦ rw t (record {
        there = exists-update p p (moved_to department_id) db.advisors (λ x. refl) ∙ t;
        placed =
            All-updated _ p (moved_to department_id) (λ a e h. refl) (λ a e h. absurd (cc))
              db.advisors;
      })
      | inr t ↦ rw t (record {
        there =
            exists-append p db.advisors (new_advisor user_id department_id)
              (eq→== user_id user_id refl);
        placed =
            All-append _ db.advisors (new_advisor user_id department_id ∷ [])
              (All-map (λ a. p a ≡ false) _ (λ a e h. absurd (cc)) db.advisors
                (exists-none p db.advisors t))
              (λ h. refl, tt);
      })
    ]

pub settle_advisor-Advising :
    (user_id d : ℕ) (role : RoleRow) (department_id : Option ℕ) (found : Option RoleRow) (db : Db)
    → department_id ≡ some d
    → found ≡ some role
    → str_eq role.name "Advisor" ≡ true
    → Advising user_id d (settle_advisor user_id department_id found db).advisors
unfolding settle_advisor
settle_advisor-Advising user_id d role department_id found db e f advisor =
    rw (e, f, advisor) (put_advisor-Advising user_id d db)

-- What `settle_advisor` leaves alone.
pub settle_advisor-same {ℓ} :
    {B : Type ℓ} (r : Db → B) (user_id : ℕ) (department_id : Option ℕ) (role : Option RoleRow)
    (db : Db)
    → ((d : ℕ) → r (put_advisor user_id d db) ≡ r db)
    → r (settle_advisor user_id department_id role db) ≡ r db
unfolding settle_advisor
settle_advisor-same r user_id (some d) (some role) db k =
    elim (Bool-cases (str_eq role.name "Advisor")) [ inl t ↦ rw t (k d) | inr t ↦ rw t refl ]
settle_advisor-same r user_id none role db k = refl
settle_advisor-same r user_id (some d) none db k = refl

-- What the first part of the transaction leaves.
pub record First (out : Outside) (i : Invitation) (password : String) (db : Db) (user_id : ℕ)
    (t : Db) : Type 0 where
  pub settled : Settled out i password user_id t.users
  pub roles : t.roles ≡ db.roles
  pub invitations : t.invitations ≡ db.invitations
  pub departments : t.departments ≡ db.departments

pub settle_user-First :
    (out : Outside) (i : Invitation) (fresh : ℕ) (password : String) (existing : Option Member)
    (db : Db)
    → ((u : Member) → existing ≡ some u → exists (invitee out i u.id) db.users ≡ true)
    → Post (First out i password db) (λ t. Unit) (settle_user out i fresh password existing db)
unfolding settle_user
settle_user-First out i fresh password (some u) db known = Post-write _ _ _ (
    Post-pure _ _ (record {
      settled = record {
        there =
            exists-update (invitee out i u.id) (is_member u.id) (activated out i password) db.users
              (λ x. refl)
            ∙ known u refl;
        active =
            All-updated _ (is_member u.id) (activated out i password)
              (λ x e h. (refl, (refl, refl))) (λ x e h. absurd (cc)) db.users;
      };
      roles = refl;
      invitations = refl;
      departments = refl;
    }))
settle_user-First out i fresh password none db known = Post-throw_when _ _ _ tt λ unused.
    Post-write _ _ _ (
      Post-pure _ _ (record {
        settled = record {
          there = exists-append (invitee out i fresh) db.users (new_member out i fresh password) (
              rw
                (
                  eq→== fresh fresh refl,
                  eq→== i.tenant_id i.tenant_id refl,
                  (eq_iff (out.lower i.email) (out.lower i.email)).1 refl,
                )
                refl);
          active =
              All-append _ db.users (new_member out i fresh password ∷ [])
                (All-map (λ u. is_member fresh u ≡ false) _ (λ u e h. absurd (cc)) db.users
                  (exists-none (is_member fresh) db.users unused))
                (λ h. (refl, (refl, refl)), tt);
        };
        roles = refl;
        invitations = refl;
        departments = refl;
      }))
