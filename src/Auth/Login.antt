-- ===== src/Auth/Login.antt =====
-- `validateUser` and `login` of auth.service.ts. The tokens that a login signs carry what the account
-- holds, so that the answer of the model is the account.
use text.Mathlib.Text.{◌==◌ as str_eq}
use academia_backend_api.Base.{
  ℕ, ◌+◌, String, Bool, not, ◌&&◌, Option, some, if◌then◌else◌, unauthorized, M, ◌>>=◌, ◌>>◌, pure,
  require, require_row, throw_if, write,
}
use academia_backend_api.Accounts.{platform_admin, department_head, includes}
use academia_backend_api.Auth.Schema.{
  Db, Account, Outside, find_by_email_and_tenant, update_user, user_active, tenant_active,
}
use academia_backend_api.Auth.Recovery.{is_none}
use academia_backend_api.Auth.Verification.{resolve_tenant}

-- Two days.
abbrev pub upload_time : ℕ
upload_time = 172800000

abbrev pub first_login : ℕ → Account → Account
first_login now u = record u {
  first_login_at = some now;
  status_upload_deadline = some (now + upload_time);
}

abbrev pub logged_in : ℕ → Account → Account
logged_in now u = record u { last_login_at = some now }

-- `isDepartmentHead && !user.firstLoginAt`
abbrev pub is_first : Account → Bool
is_first u = includes department_head u.roles && is_none u.first_login_at

module _ (out : Outside) where
  unfoldable pub validate_user : String → String → Option String → M Db Account
  validate_user given_email password domain = do
    tenant ←
        require_row (resolve_tenant out (out.trim given_email) domain)
          (unauthorized "Invalid credentials")
    user ←
        require_row (find_by_email_and_tenant (out.trim given_email) tenant.id)
          (unauthorized "Invalid credentials")
    hashed ← require user.hashed_password (unauthorized "Invalid credentials")
    throw_if (not (out.compare_password password hashed)) (unauthorized "Invalid credentials")
    throw_if (not (user_active user.status)) (unauthorized "Account is not active")
    throw_if (not (str_eq tenant.domain "system") && not (tenant_active tenant.status))
        (unauthorized "Tenant account is not active")
    throw_if (str_eq tenant.domain "system" && not (includes platform_admin user.roles))
        (unauthorized "Invalid credentials")
    pure user

  unfoldable pub login : ℕ → String → String → Option String → M Db Account
  login now given_email password domain = do
    user ← validate_user given_email password domain
    write (update_user user.id (λ u. if is_first user then first_login now u else u))
    write (update_user user.id (logged_in now))
    pure user
