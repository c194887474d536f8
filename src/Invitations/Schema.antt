-- ===== src/Invitations/Schema.antt =====
-- The tables that an invitation to a tenant touches (prisma/schema.prisma).
use text.Mathlib.Text.{◌==◌ as str_eq}
use academia_backend_api.Base.{
  ℕ, String, Bool, true, false, ◌&&◌, Option, some, List, ◌==◌, same_option, find,
}
use academia_backend_api.Accounts.{UserStatus}

pub data InvitationStatus : Type 0 where
  pending accepted expired revoked : InvitationStatus

pub record Invitation : Type 0 where
  pub id : ℕ
  pub tenant_id : ℕ
  pub department_id : Option ℕ
  pub email : String
  pub invitee_first_name : Option String
  pub invitee_last_name : Option String
  pub role_id : ℕ
  pub token : String
  pub status : InvitationStatus
  pub expires_at : ℕ
  pub invited_by_id : Option ℕ
  pub accepted_at : Option ℕ
  pub revoked_at : Option ℕ
  pub revoked_by_id : Option ℕ
  pub last_sent_at : Option ℕ
  pub send_count : ℕ
  pub last_send_error : Option String

pub record RoleRow : Type 0 where
  pub id : ℕ
  pub name : String

pub record Member : Type 0 where
  pub id : ℕ
  pub tenant_id : ℕ
  pub department_id : Option ℕ
  pub email : String
  pub hashed_password : Option String
  pub must_change_password : Bool
  pub first_name : String
  pub last_name : String
  pub status : UserStatus
  pub email_verified : Bool

pub record UserRole : Type 0 where
  pub user_id : ℕ
  pub role_id : ℕ
  pub tenant_id : ℕ
  pub department_id : Option ℕ
  pub revoked_at : Option ℕ

pub record Advisor : Type 0 where
  pub user_id : ℕ
  pub department_id : ℕ

-- `pending_head` is `config.pendingHead.invitationId`.
pub record Department : Type 0 where
  pub id : ℕ
  pub tenant_id : ℕ
  pub head_of_department_id : Option ℕ
  pub pending_head : Option ℕ

pub record Db : Type 0 where
  pub invitations : List Invitation
  pub roles : List RoleRow
  pub users : List Member
  pub user_roles : List UserRole
  pub advisors : List Advisor
  pub departments : List Department

-- JavaScript's `trim`, `toLowerCase` and `slice(0, 500)`, and bcrypt at the configured rounds.
pub record Outside : Type 0 where
  pub trim : String → String
  pub lower : String → String
  pub clip : String → String
  pub hash_password : String → String

abbrev pub is_pending : InvitationStatus → Bool
is_pending InvitationStatus.pending = true
is_pending _ = false

abbrev pub is_accepted : InvitationStatus → Bool
is_accepted InvitationStatus.accepted = true
is_accepted _ = false

abbrev pub is_revoked : InvitationStatus → Bool
is_revoked InvitationStatus.revoked = true
is_revoked _ = false

abbrev pub has_id : ℕ → Invitation → Bool
has_id id i = i.id == id

abbrev pub has_token : String → Invitation → Bool
has_token token i = str_eq i.token token

-- The pending offers of one role to one address.
abbrev pub pending_for : ℕ → String → ℕ → Option ℕ → Invitation → Bool
pending_for tenant_id email role_id department_id i =
    i.tenant_id == tenant_id
    && str_eq i.email email
    && i.role_id == role_id
    && same_option i.department_id department_id
    && is_pending i.status

abbrev pub role_named : String → Db → Option RoleRow
role_named name db = find (λ r. str_eq r.name name) db.roles

abbrev pub role_of : ℕ → Db → Option RoleRow
role_of id db = find (λ r. r.id == id) db.roles

abbrev pub set_invitations : (List Invitation → List Invitation) → Db → Db
set_invitations f db = record db { invitations = f db.invitations }

abbrev pub expire : Invitation → Invitation
expire i = record i { status = InvitationStatus.expired }

abbrev pub revoke_by : ℕ → Option ℕ → Invitation → Invitation
revoke_by now who i = record i {
  status = InvitationStatus.revoked;
  revoked_at = some now;
  revoked_by_id = who;
}
