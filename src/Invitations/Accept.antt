-- ===== src/Invitations/Accept.antt =====
-- `previewAcceptInvitation` and `acceptInvitation` of invitations.service.ts.
use text.Mathlib.Text.{◌==◌ as str_eq}
use academia_backend_api.Base.{
  ℕ, String, Bool, true, not, ◌&&◌, ◌||◌, Option, none, some, List, [], ◌∷◌, ◌++◌, ltb, ◌==◌,
  if◌then◌else◌, same_option, find, update, filter, exists, given, map, bad_request, database_error,
  M, ◌>>=◌, ◌>>◌, pure, throw_if, throw_when, require_row, read, write, when_then_throw,
  transaction,
}
use academia_backend_api.Accounts.{UserStatus}
use academia_backend_api.Invitations.Schema.{
  Db, Invitation, InvitationStatus, Member, UserRole, Advisor, Department, RoleRow, Outside,
  is_pending, has_id, has_token, role_of, set_invitations, expire,
}

-- `expiresAt.getTime() < Date.now()`
abbrev pub is_late : ℕ → Invitation → Bool
is_late now i = ltb i.expires_at now

-- The invitation that both handlers work with; a late one is marked before the throw.
unfoldable pub open_invitation : ℕ → String → M Db Invitation
open_invitation now token = do
  i ←
      require_row (λ db. find (has_token token) db.invitations)
        (bad_request "Invalid invitation token")
  throw_if (not (is_pending i.status)) (bad_request "Invitation is not pending")
  when_then_throw (λ db. is_late now i) (set_invitations (update (has_id i.id) expire))
      (bad_request "Invitation has expired")
  pure i

abbrev pub is_member : ℕ → Member → Bool
is_member id u = u.id == id

abbrev pub at_address : ℕ → String → Member → Bool
at_address tenant_id email u = u.tenant_id == tenant_id && str_eq u.email email

module _ (out : Outside) where
  -- `(name ?? '').trim()`
  abbrev pub name_given : Option String → String
  name_given none = out.trim ""
  name_given (some name) = out.trim name

  abbrev pub is_nameless : Invitation → Bool
  is_nameless i =
      str_eq (name_given i.invitee_first_name) "" || str_eq (name_given i.invitee_last_name) ""

  -- Answers with the invitation.
  unfoldable pub preview_accept_invitation : ℕ → String → M Db Invitation
  preview_accept_invitation now token = do
    i ← open_invitation now token
    throw_if (is_nameless i) (bad_request "Invitation is missing invitee name")
    pure i

  abbrev pub activated : Invitation → String → Member → Member
  activated i password u = record u {
    hashed_password = some (out.hash_password password);
    must_change_password = true;
    first_name = name_given i.invitee_first_name;
    last_name = name_given i.invitee_last_name;
    status = UserStatus.active;
    email_verified = true;
    department_id = given i.department_id u.department_id;
  }

  abbrev pub new_member : Invitation → ℕ → String → Member
  new_member i fresh password = record {
    id = fresh;
    tenant_id = i.tenant_id;
    department_id = i.department_id;
    email = out.lower i.email;
    hashed_password = some (out.hash_password password);
    must_change_password = true;
    first_name = name_given i.invitee_first_name;
    last_name = name_given i.invitee_last_name;
    status = UserStatus.active;
    email_verified = true;
  }

  -- Returns the identifier of the user.
  unfoldable pub settle_user : Invitation → ℕ → String → Option Member → M Db ℕ
  settle_user i fresh password (some u) = do
    write (λ db. record db { users = update (is_member u.id) (activated i password) db.users })
    pure u.id
  settle_user i fresh password none = do
    throw_when (λ db. exists (is_member fresh) db.users) database_error
    write (λ db. record db { users = db.users ++ (new_member i fresh password ∷ []) })
    pure fresh

abbrev pub holds_role : ℕ → ℕ → ℕ → UserRole → Bool
holds_role user_id role_id tenant_id r =
    r.user_id == user_id && r.role_id == role_id && r.tenant_id == tenant_id

abbrev pub granted_again : Invitation → UserRole → UserRole
granted_again i r = record r {
  revoked_at = none;
  department_id = given i.department_id r.department_id;
}

abbrev pub new_role : Invitation → ℕ → UserRole
new_role i user_id = record {
  user_id = user_id;
  role_id = i.role_id;
  tenant_id = i.tenant_id;
  department_id = i.department_id;
  revoked_at = none;
}

-- `userRole.upsert`
unfoldable pub grant_role : Invitation → ℕ → Db → Db
grant_role i user_id db = record db {
  user_roles =
      if exists (holds_role user_id i.role_id i.tenant_id) db.user_roles
      then update (holds_role user_id i.role_id i.tenant_id) (granted_again i) db.user_roles
      else db.user_roles ++ (new_role i user_id ∷ []);
}

abbrev pub advises : ℕ → Advisor → Bool
advises user_id a = a.user_id == user_id

abbrev pub moved_to : ℕ → Advisor → Advisor
moved_to department_id a = record a { department_id = department_id }

abbrev pub new_advisor : ℕ → ℕ → Advisor
new_advisor user_id department_id = record { user_id = user_id; department_id = department_id }

-- `advisor.upsert`
unfoldable pub put_advisor : ℕ → ℕ → Db → Db
put_advisor user_id department_id db = record db {
  advisors =
      if exists (advises user_id) db.advisors
      then update (advises user_id) (moved_to department_id) db.advisors
      else db.advisors ++ (new_advisor user_id department_id ∷ []);
}

-- `if (role?.name === ROLES.ADVISOR && departmentId)` and the upsert
unfoldable pub settle_advisor : ℕ → Option ℕ → Option RoleRow → Db → Db
settle_advisor user_id (some department_id) (some role) db =
    if str_eq role.name "Advisor" then put_advisor user_id department_id db else db
settle_advisor user_id none role db = db
settle_advisor user_id (some department_id) none db = db

abbrev pub accepted_now : ℕ → Invitation → Invitation
accepted_now now i = record i { status = InvitationStatus.accepted; accepted_at = some now }

abbrev pub awaits_head : Invitation → Department → Bool
awaits_head i d = d.tenant_id == i.tenant_id && same_option d.pending_head (some i.id)

abbrev pub headed_by : ℕ → Department → Department
headed_by user_id d = record d { head_of_department_id = some user_id; pending_head = none }

pub record Acceptance : Type 0 where
  pub user_id : ℕ
  pub tenant_id : ℕ
  pub email : String
  pub temporary_password : String
  pub updated_department_ids : List ℕ

module _ (out : Outside) where
  unfoldable pub accept_in_transaction :
      ℕ → ℕ → String → Invitation → Option Member → M Db Acceptance
  accept_in_transaction now fresh password i existing = do
    user_id ← settle_user out i fresh password existing
    write (grant_role i user_id)
    write (λ db. settle_advisor user_id i.department_id (role_of i.role_id db) db)
    write (set_invitations (update (has_id i.id) (accepted_now now)))
    headless ← read (λ db. filter (awaits_head i) db.departments)
    write (λ db. record db {
      departments = update (awaits_head i) (headed_by user_id) db.departments;
    })
    pure (record {
      user_id = user_id;
      tenant_id = i.tenant_id;
      email = out.lower i.email;
      temporary_password = password;
      updated_department_ids = map (λ d. d.id) headless;
    })

  -- `fresh` and `password` are what the database and the random generator draw.
  unfoldable pub accept_invitation : ℕ → ℕ → String → String → M Db Acceptance
  accept_invitation now fresh password token = do
    i ← open_invitation now token
    throw_if (is_nameless out i) (bad_request "Invitation is missing invitee name")
    existing ← read (λ db. find (at_address i.tenant_id (out.lower i.email)) db.users)
    transaction (accept_in_transaction now fresh password i existing)
