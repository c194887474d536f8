-- ===== src/Invitations/Outcome.antt =====
-- What the acceptance of an invitation promises.
use text.Mathlib.Text.{◌==◌ as str_eq}
use academia_backend_api.Base.{
  none, exists-found, find-condition, ◌==◌, ◌&&◌, Bool, same_option, map, filter, ℕ, String, true,
  false, not, Option, some, ◌≡◌, refl, arith, ap, sym, ◌∙◌, eq→==, find, update, exists,
  find-update, ok, Post, Post-pure, Post-bind, Post-require_row, Post-throw_if,
  Post-when_then_throw, Post-read, Post-write, Post-transaction, Post-ok, subst,
}
use academia_backend_api.Invitations.Schema.{
  Db, Invitation, Member, Department, RoleRow, Outside, is_pending, has_id, has_token, role_of,
  set_invitations, expire,
}
use academia_backend_api.Invitations.Accept.{
  is_late, open_invitation, is_nameless, at_address, grant_role, put_advisor, accepted_now,
  headed_by, Acceptance, accept_in_transaction, accept_invitation, preview_accept_invitation,
}
use academia_backend_api.Invitations.Settling.{
  Settled, Holds, Advising, invitee, settle_advisor-Advising, grant_role-Holds, settle_advisor-same,
  settle_user-First,
}

-- The row of a department that waits for this invitation to name its head.
abbrev pub waiting : Invitation → Department → Bool
waiting i d = d.tenant_id == i.tenant_id && same_option d.pending_head (some i.id)

-- The invitation was pending and in time and named the invitee; it is accepted now. The user stands in
-- its tenant at its address, is active with the temporary password, holds the role, and has become the head
-- of exactly the departments that waited, whose identifiers are answered. An advisor's role with a
-- department makes the user an advisor of that department.
pub record Accepted (out : Outside) (now : ℕ) (password token : String) (db : Db) (a : Acceptance)
    (s : Db) : Type 0 where
  pub invitation : Invitation
  pub found : find (has_token token) db.invitations ≡ some invitation
  pub pending : is_pending invitation.status ≡ true
  pub in_time : is_late now invitation ≡ false
  pub named : is_nameless out invitation ≡ false
  pub invitations : s.invitations ≡ update (has_id invitation.id) (accepted_now now) db.invitations
  pub settled : Settled out invitation password a.user_id s.users
  pub holds : Holds a.user_id invitation.role_id invitation.tenant_id s.user_roles
  pub advising :
      (d : ℕ) (role : RoleRow)
      → invitation.department_id ≡ some d
      → role_of invitation.role_id db ≡ some role
      → str_eq role.name "Advisor" ≡ true
      → Advising a.user_id d s.advisors
  pub departments :
      s.departments
      ≡ update
          (waiting invitation)
          (λ d. record d { head_of_department_id = some a.user_id; pending_head = none })
          db.departments
  pub updated :
      a.updated_department_ids ≡ map (λ d. d.id) (filter (waiting invitation) db.departments)
  pub answered : (a.tenant_id ≡ invitation.tenant_id) × (a.temporary_password ≡ password)

-- Nothing changed, or a late pending invitation was marked as expired.
pub data Refused (now : ℕ) (token : String) (db : Db) (s : Db) : Type 0 where
  untouched : s ≡ db → Refused now token db s
  late :
      (i : Invitation)
      → find (has_token token) db.invitations ≡ some i
      → is_pending i.status ≡ true
      → is_late now i ≡ true
      → s ≡ set_invitations (update (has_id i.id) expire) db
      → Refused now token db s

pending-still : (i : Invitation) → not (is_pending i.status) ≡ false → is_pending i.status ≡ true
pending-still i e = ground arith

-- The invitation that a handler goes on with.
pub record Open (now : ℕ) (token : String) (db : Db) (i : Invitation) (s : Db) : Type 0 where
  pub found : find (has_token token) db.invitations ≡ some i
  pub pending : is_pending i.status ≡ true
  pub in_time : is_late now i ≡ false
  pub same : s ≡ db

pub open_invitation-Open :
    (now : ℕ) (token : String) (db : Db)
    → Post (Open now token db) (Refused now token db) (open_invitation now token db)
unfolding open_invitation
open_invitation-Open now token db = Post-require_row _ _ _ (untouched refl) λ i found.
    Post-throw_if _ _ (untouched refl) λ waiting.
      Post-when_then_throw _ _ _ _ _ (λ past. late i found (pending-still i waiting) past refl)
        λ in_time. Post-pure _ _ (record {
          found = found;
          pending = pending-still i waiting;
          in_time = in_time;
          same = refl;
        })

-- The user found at the address of the invitation is its invitee.
addressee :
    (out : Outside) (i : Invitation) (db : Db) {u : Member}
    → find (at_address i.tenant_id (out.lower i.email)) db.users ≡ some u
    → exists (invitee out i u.id) db.users ≡ true
addressee out i db {u} e =
    let p = at_address i.tenant_id (out.lower i.email) in
    let at_home : p u ≡ true = find-condition p db.users e in
    exists-found p (invitee out i u.id) db.users e (rw (eq→== u.id u.id refl, at_home) refl)

rest_of_transaction :
    (out : Outside) (now : ℕ) (password : String) (i : Invitation) (existing : Option Member)
    (fresh : ℕ) (token : String) (db : Db)
    → find (has_token token) db.invitations ≡ some i
    → is_pending i.status ≡ true
    → is_late now i ≡ false
    → is_nameless out i ≡ false
    → ((u : Member) → existing ≡ some u → exists (invitee out i u.id) db.users ≡ true)
    → Post
        (Accepted out now password token db)
        (λ t. Unit)
        (accept_in_transaction out now fresh password i existing db)
unfolding accept_in_transaction grant_role put_advisor
rest_of_transaction out now password i existing fresh token db found pending in_time named known =
    Post-bind _ _ _ (settle_user-First out i fresh password existing db known) λ user_id t f.
      let granted = grant_role i user_id t in
      let kept_invitations =
        settle_advisor-same (λ u. u.invitations) user_id i.department_id (role_of i.role_id granted)
          granted (λ d. refl) in
      let kept_users =
        settle_advisor-same (λ u. u.users) user_id i.department_id (role_of i.role_id granted)
          granted (λ d. refl) in
      let kept_roles =
        settle_advisor-same (λ u. u.user_roles) user_id i.department_id (role_of i.role_id granted)
          granted (λ d. refl) in
      let kept_departments =
        settle_advisor-same (λ u. u.departments) user_id i.department_id (role_of i.role_id granted)
          granted (λ d. refl) in
      Post-write _ _ _ (
        Post-write _ _ _ (
          Post-write _ _ _ (
            Post-read _ _ _ (
              Post-write _ _ _ (
                Post-pure _ _ (record {
                  invitation = i;
                  found = found;
                  pending = pending;
                  in_time = in_time;
                  named = named;
                  invitations =
                      ap (update (has_id i.id) (accepted_now now))
                        (kept_invitations ∙ f.invitations);
                  settled = subst (Settled out i password user_id) (sym kept_users) f.settled;
                  holds =
                      subst (Holds user_id i.role_id i.tenant_id) (sym kept_roles)
                        (grant_role-Holds i user_id t);
                  advising = λ d role e known_role.
                      settle_advisor-Advising user_id d role i.department_id
                        (role_of i.role_id granted) granted e
                        (ap (find (λ x. x.id == i.role_id)) f.roles ∙ known_role);
                  departments =
                      ap (update (waiting i) (headed_by user_id))
                        (kept_departments ∙ f.departments);
                  updated =
                      ap (λ ds. map (λ d. d.id) (filter (waiting i) ds))
                        (kept_departments ∙ f.departments);
                  answered = (refl, refl);
                }))))))

-- `acceptInvitation` returns only for a pending invitation that is in time and names the invitee: then the
-- invitation is accepted, the user stands in its tenant at its address, every row of the user is active
-- with the temporary password, to be changed, and the user holds the role unrevoked. The user becomes head
-- of the departments of the tenant that waited for this invitation, and of no others, and they wait no
-- more; their identifiers are answered. Where the role is the advisor's and the invitation names a
-- department, the user is an advisor, of that department. Otherwise the handler throws, and nothing changed
-- but that a late invitation is marked as expired.
pub accept_invitation-Accepted :
    (out : Outside) (now fresh : ℕ) (password token : String) (db : Db)
    → Post
        (Accepted out now password token db)
        (Refused now token db)
        (accept_invitation out now fresh password token db)
unfolding accept_invitation
accept_invitation-Accepted out now fresh password token db =
    Post-bind _ _ _ (open_invitation-Open now token db) λ i s o.
      Post-throw_if _ _ (untouched o.same) λ named. Post-read _ _ _ (
        Post-transaction (λ t. Unit) _ (untouched o.same)
          (subst
            (λ t.
              Post (Accepted out now password token db) (λ u. Unit)
                (accept_in_transaction out now fresh password i
                  (find (at_address i.tenant_id (out.lower i.email)) t.users) t))
            (sym o.same)
            (rest_of_transaction out now password i _ fresh token db o.found o.pending o.in_time
              named λ u e. addressee out i db e)))

still_pending :
    (i : Invitation) → is_pending i.status ≡ false → not (is_pending i.status) ≡ false → ⊥
still_pending i a b = cc

closed :
    (now : ℕ) (token : String) (db : Db) {i : Invitation}
    → find (has_token token) db.invitations ≡ some i
    → is_pending i.status ≡ false
    → Post (λ (j : Invitation) t. ⊥) (λ t. t ≡ db) (open_invitation now token db)
unfolding open_invitation
closed now token db {i} found done = Post-require_row _ _ _ refl λ j e.
    Post-throw_if _ _ refl λ waiting.
      let same : j ≡ i = cc in
      absurd (still_pending j (ap (λ x. is_pending x.status) same ∙ done) waiting)

used_up :
    (now : ℕ) (token : String) (db s : Db) (i : Invitation)
    → find (has_token token) db.invitations ≡ some i
    → s.invitations ≡ update (has_id i.id) (accepted_now now) db.invitations
    → find (has_token token) s.invitations ≡ some (accepted_now now i)
used_up now token db s i found e =
    ap (find (has_token token)) e
    ∙ find-update (has_token token) (has_id i.id) (accepted_now now) db.invitations (λ x. refl)
        found
    ∙ rw (eq→== i.id i.id refl) refl

-- An invitation is accepted once: after `acceptInvitation` returned, it throws for the same token at any
-- time and changes nothing, and so does the preview.
pub accept_invitation-once :
    (out : Outside) (now later fresh next : ℕ) (password other token : String) (db : Db)
    {a : Acceptance} {s : Db}
    → accept_invitation out now fresh password token db ≡ ok a s
    → Post (λ b t. ⊥) (λ t. t ≡ s) (accept_invitation out later next other token s)
      × Post (λ b t. ⊥) (λ t. t ≡ s) (preview_accept_invitation out later token s)
unfolding accept_invitation preview_accept_invitation
accept_invitation-once out now later fresh next password other token db {a} {s} e =
    let done = Post-ok (accept_invitation-Accepted out now fresh password token db) e in
    let shut =
      closed later token s (used_up now token db s done.invitation done.found done.invitations)
        refl in
    (Post-bind _ _ _ shut (λ i t b. absurd b), Post-bind _ _ _ shut (λ i t b. absurd b))
