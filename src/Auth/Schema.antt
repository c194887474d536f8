-- ===== src/Auth/Schema.antt =====
-- The tables of modules/auth (prisma/schema.prisma) and what the service uses of other packages.
use text.Mathlib.Text.{◌==◌ as str_eq}
use academia_backend_api.Base.{ℕ, String, Bool, true, false, ◌&&◌, Option, List, ◌==◌, find, update}
use academia_backend_api.Accounts.{Role, UserStatus}

pub data TenantStatus : Type 0 where
  trial active suspended cancelled : TenantStatus

abbrev pub tenant_active : TenantStatus → Bool
tenant_active TenantStatus.active = true
tenant_active _ = false

abbrev pub user_active : UserStatus → Bool
user_active UserStatus.active = true
user_active _ = false

pub record Tenant : Type 0 where
  pub id : ℕ
  pub domain : String
  pub status : TenantStatus

-- `roles` holds all roles of the account: the queries here do not ask whether one was revoked.
pub record Account : Type 0 where
  pub id : ℕ
  pub tenant_id : ℕ
  pub email : String
  pub hashed_password : Option String
  pub must_change_password : Bool
  pub status : UserStatus
  pub email_verified : Bool
  pub first_login_at : Option ℕ
  pub status_upload_deadline : Option ℕ
  pub last_login_at : Option ℕ
  pub roles : List Role

-- A one-time code, for a password reset or for the verification of an address.
pub record Otp : Type 0 where
  pub id : ℕ
  pub tenant_id : ℕ
  pub email : String
  pub user_id : Option ℕ
  pub otp_hash : String
  pub otp_salt : String
  pub expires_at : ℕ
  pub used_at : Option ℕ
  pub attempts : ℕ
  pub locked_until : Option ℕ
  pub created_at : ℕ

pub record Db : Type 0 where
  pub tenants : List Tenant
  pub users : List Account
  pub reset_otps : List Otp
  pub verification_otps : List Otp

-- What the token for a password reset carries.
pub record ResetPayload : Type 0 where
  pub purpose : String
  pub sub : ℕ
  pub email : String
  pub tenant_id : ℕ
  pub otp_id : ℕ

-- Node's `crypto` under the pepper of the service, bcrypt at the configured number of rounds, and the
-- JWT library at the service's key; `trim` and `lower` are JavaScript's. A token is verified at a
-- time.
pub record Outside : Type 0 where
  pub hash_otp : (otp salt : String) → String
  pub hash_password : String → String
  pub compare_password : (password hashed : String) → Bool
  pub sign : (now : ℕ) → ResetPayload → String
  pub verify : (now : ℕ) → String → Option ResetPayload
  pub length_of : String → ℕ
  pub trim : String → String
  pub lower : String → String

abbrev pub find_tenant : (Tenant → Bool) → Db → Option Tenant
find_tenant p db = find p db.tenants

-- `findUserById`
abbrev pub find_account : ℕ → Db → Option Account
find_account id db = find (λ u. u.id == id) db.users

-- `findUserByEmailGlobally`
abbrev pub find_by_email : String → Db → Option Account
find_by_email email db = find (λ u. str_eq u.email email) db.users

-- `findUserByEmailAndTenant`
abbrev pub find_by_email_and_tenant : String → ℕ → Db → Option Account
find_by_email_and_tenant email tenant_id db =
    find (λ u. u.tenant_id == tenant_id && str_eq u.email email) db.users

-- `findActiveUserByEmailGlobally`
abbrev pub find_active_by_email : String → Db → Option Account
find_active_by_email email db = find (λ u. str_eq u.email email && user_active u.status) db.users

unfoldable pub update_user : ℕ → (Account → Account) → Db → Db
update_user id f db = record db { users = update (λ u. u.id == id) f db.users }
