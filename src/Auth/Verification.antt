-- ===== src/Auth/Verification.antt =====
-- `requestEmailVerification` (which `resendEmailVerification` repeats), `verifyEmailVerificationOtp` and
-- `resolveTenantForEmailVerification` of auth.service.ts.
use text.Mathlib.Text.{◌==◌ as str_eq}
use academia_backend_api.Base.{
  ℕ, suc, String, true, false, not, Option, none, some, List, ◌==◌, update, bad_request, M, ◌>>=◌,
  ◌>>◌, pure, throw, require, require_row, throw_if, return_if, read, write,
}
use academia_backend_api.Accounts.{UserStatus}
use academia_backend_api.Auth.Schema.{
  Db, Tenant, Account, Otp, Outside, find_tenant, find_by_email, find_by_email_and_tenant,
  update_user,
}
use academia_backend_api.Auth.Codes.{
  find_latest, sent_to, is_unused, replace_otp, too_soon, new_otp, has_id, is_locked, is_expired,
  matches, next_lock, missed, used,
}

abbrev pub verification_codes : (List Otp → List Otp) → Db → Db
verification_codes f db = record db { verification_otps = f db.verification_otps }

abbrev pub verified_user : Account → Account
verified_user u = record u { email_verified = true; status = UserStatus.active }

module _ (out : Outside) where
  abbrev pub tenant_of : Db → Option Account → Option Tenant
  tenant_of db none = none
  tenant_of db (some u) = find_tenant (λ t. t.id == u.tenant_id) db

  -- The domain is absent where it is blank.
  abbrev pub from_domain : Db → String → String → Option Tenant
  from_domain db email domain = elim (str_eq domain "") [
    | true ↦ tenant_of db (find_by_email email db)
    | false ↦ find_tenant (λ t. str_eq t.domain (out.lower domain)) db
  ]

  unfoldable pub resolve_tenant : String → Option String → Db → Option Tenant
  resolve_tenant email none db = tenant_of db (find_by_email email db)
  resolve_tenant email (some domain) db = from_domain db email (out.trim domain)

  unfoldable pub send_verification_code :
      ℕ → ℕ → String → String → String → Tenant → Option Account → M Db (Unit {0})
  send_verification_code now fresh otp salt email tenant none = pure tt
  send_verification_code now fresh otp salt email tenant (some user) =
      return_if user.email_verified (pure tt) (do
        latest ← read (λ db. find_latest (sent_to tenant.id email) db.verification_otps)
        return_if (too_soon now latest) (pure tt) (
            write (
              verification_codes
                (replace_otp (new_otp out now fresh tenant.id email user.id otp salt)))))

  unfoldable pub request_for_tenant :
      ℕ → ℕ → String → String → String → Option Tenant → M Db (Unit {0})
  request_for_tenant now fresh otp salt email none = pure tt
  request_for_tenant now fresh otp salt email (some tenant) = do
    user ← read (find_by_email_and_tenant email tenant.id)
    send_verification_code now fresh otp salt email tenant user

  unfoldable pub request_email_verification :
      ℕ → ℕ → String → String → String → Option String → M Db (Unit {0})
  request_email_verification now fresh otp salt given_email domain = do
    tenant ← read (resolve_tenant (out.lower (out.trim given_email)) domain)
    request_for_tenant now fresh otp salt (out.lower (out.trim given_email)) tenant

  unfoldable pub miss_verification_code : ℕ → Otp → M Db (Unit {0})
  miss_verification_code now o = do
    write (verification_codes (update (has_id o.id) (missed (suc o.attempts) (next_lock now o))))
    throw (bad_request "Invalid or expired verification code")

  unfoldable pub use_verification_code : ℕ → Otp → M Db (Unit {0})
  use_verification_code now o = do
    write (verification_codes (update (has_id o.id) (used now)))
    user_id ← require o.user_id (bad_request "Invalid verification request")
    write (update_user user_id verified_user)

  unfoldable pub verify_email : ℕ → String → String → Option String → M Db (Unit {0})
  verify_email now given_email given_otp domain = do
    tenant ←
        require_row (resolve_tenant (out.lower (out.trim given_email)) domain)
          (bad_request "Invalid tenant domain")
    o ←
        require_row
          (λ db.
            find_latest (sent_to tenant.id (out.lower (out.trim given_email))) db.verification_otps)
          (bad_request "Invalid or expired verification code")
    throw_if (not (is_unused o)) (bad_request "Invalid or expired verification code")
    throw_if (is_locked now o) (bad_request "Too many attempts. Try again later.")
    throw_if (is_expired now o) (bad_request "Invalid or expired verification code")
    return_if (matches out (out.trim given_otp) o) (use_verification_code now o)
        (miss_verification_code now o)
