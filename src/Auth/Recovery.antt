-- ===== src/Auth/Recovery.antt =====
-- `requestForgotPassword`, `resendForgotPasswordOtp`, `verifyForgotPasswordOtp`,
-- `resetForgottenPassword` and `changePassword` of auth.service.ts. Mails and notifications change none
-- of the tables; whether the mail of a resent code could be sent is an argument, since its failure is
-- passed on.
use text.Mathlib.Text.{◌==◌ as str_eq}
use academia_backend_api.Base.{
  ℕ, ◌+◌, suc, String, Bool, true, false, not, ◌&&◌, ◌||◌, Option, none, some, List, ltb, ◌==◌,
  update, Exception, error, database_error, forbidden, unauthorized, bad_request, bad_request_of,
  too_many_requests, M, ◌>>=◌, ◌>>◌, pure, throw, require, require_row, throw_if, return_if, read,
  write,
}
use academia_backend_api.Auth.Schema.{
  Db, Tenant, tenant_active, Account, Otp, Outside, find_tenant, find_account, find_active_by_email,
  update_user,
}
use academia_backend_api.Auth.Codes.{
  find_latest, sent_to, is_unused, replace_otp, too_soon, new_otp, otp_lifetime, has_id, is_locked,
  is_expired, matches, next_lock, missed, used,
}

abbrev pub invalid_code : Exception
invalid_code = forbidden "Invalid or expired verification code"

abbrev pub locked_out : Exception
locked_out = too_many_requests "Too many attempts. Please try again later."

abbrev pub invalid_token : Exception
invalid_token = forbidden "Invalid or expired reset token"

abbrev pub no_active_reset : Exception
no_active_reset = bad_request "No active password reset request found"

abbrev pub is_none {ℓ} : {A : Type ℓ} → Option A → Bool
is_none none = true
is_none (some a) = false

-- `tenant.domain !== 'system' && tenant.status !== 'ACTIVE'`
abbrev pub tenant_closed : Tenant → Bool
tenant_closed t = not (str_eq t.domain "system") && not (tenant_active t.status)

abbrev pub reset_codes : (List Otp → List Otp) → Db → Db
reset_codes f db = record db { reset_otps = f db.reset_otps }

module _ (out : Outside) where
  -- The code is sent to the tenant's user unless a code was sent shortly before.
  unfoldable pub send_reset_code : ℕ → ℕ → String → String → String → Account → M Db (Unit {0})
  send_reset_code now fresh otp salt email user = do
    latest ← read (λ db. find_latest (sent_to user.tenant_id email) db.reset_otps)
    return_if (too_soon now latest) (pure tt) (
        write
          (reset_codes (replace_otp (new_otp out now fresh user.tenant_id email user.id otp salt))))

  unfoldable pub request_for : ℕ → ℕ → String → String → String → Option Account → M Db (Unit {0})
  request_for now fresh otp salt email none = pure tt
  request_for now fresh otp salt email (some user) =
      return_if (is_none user.hashed_password) (pure tt) (do
        tenant ← require_row (find_tenant (λ t. t.id == user.tenant_id)) database_error
        return_if (tenant_closed tenant) (pure tt) (send_reset_code now fresh otp salt email user))

  -- The answer is the same in all cases.
  unfoldable pub request_forgot_password : ℕ → ℕ → String → String → String → M Db (Unit {0})
  request_forgot_password now fresh otp salt given_email = do
    user ← read (find_active_by_email (out.trim given_email))
    request_for now fresh otp salt (out.trim given_email) user

  abbrev pub resent : ℕ → String → String → Otp → Otp
  resent now otp salt o = record o {
    otp_hash = out.hash_otp otp salt;
    otp_salt = salt;
    expires_at = now + otp_lifetime;
    attempts = 0;
    locked_until = none;
  }

  unfoldable pub resend_forgot_password : ℕ → String → String → Bool → String → M Db (Unit {0})
  resend_forgot_password now otp salt mailed given_email = do
    user ← require_row (find_active_by_email (out.trim given_email)) no_active_reset
    latest ←
        require_row
          (λ db. find_latest (sent_to user.tenant_id (out.trim given_email)) db.reset_otps)
          no_active_reset
    throw_if (not (is_unused latest) || is_expired now latest) no_active_reset
    throw_if (too_soon now (some latest)) no_active_reset
    write (reset_codes (update (has_id latest.id) (resent now otp salt)))
    throw_if (not mailed) (error "mail")

  -- A wrong code: the attempt is counted, and the fifth locks the code.
  unfoldable pub miss_reset_code : ℕ → Otp → M Db String
  miss_reset_code now o = do
    write (reset_codes (update (has_id o.id) (missed (suc o.attempts) (next_lock now o))))
    return_if (is_none (next_lock now o)) (throw invalid_code) (throw locked_out)

  unfoldable pub use_reset_code : ℕ → String → Otp → M Db String
  use_reset_code now email o = do
    write (reset_codes (update (has_id o.id) (used now)))
    user_id ← require o.user_id invalid_code
    pure (
        out.sign now (record {
          purpose = "password-reset";
          sub = user_id;
          email = email;
          tenant_id = o.tenant_id;
          otp_id = o.id;
        }))

  -- Returns the token for the reset.
  unfoldable pub verify_forgot_password : ℕ → String → String → M Db String
  verify_forgot_password now given_email given_otp = do
    o ←
        require_row (λ db. find_latest (λ r. str_eq r.email (out.trim given_email)) db.reset_otps)
          invalid_code
    throw_if (not (is_unused o)) invalid_code
    throw_if (is_locked now o) locked_out
    throw_if (is_expired now o) invalid_code
    return_if (matches out (out.trim given_otp) o) (use_reset_code now (out.trim given_email) o)
        (miss_reset_code now o)

  abbrev pub with_password : String → Account → Account
  with_password password u = record u {
    hashed_password = some (out.hash_password password);
    must_change_password = false;
  }

  unfoldable pub reset_forgotten_password : ℕ → ℕ → String → String → M Db (Unit {0})
  reset_forgotten_password now min_length token password = do
    payload ← require (out.verify now token) invalid_token
    throw_if (not (str_eq payload.purpose "password-reset")) invalid_token
    user ← require_row (find_account payload.sub) invalid_token
    throw_if (not (user.tenant_id == payload.tenant_id)) invalid_token
    throw_if (not (str_eq user.email payload.email)) invalid_token
    throw_if (str_eq password "" || ltb (out.length_of password) min_length)
        (bad_request_of "Password must be at least" min_length)
    write (update_user user.id (with_password password))

  unfoldable pub change_password : ℕ → String → String → M Db (Unit {0})
  change_password user_id old password = do
    user ← require_row (find_account user_id) (unauthorized "User not found")
    hashed ← require user.hashed_password (bad_request "Password is not set for this user")
    throw_if (not (out.compare_password old hashed)) (unauthorized "Current password is incorrect")
    write (update_user user_id (with_password password))
