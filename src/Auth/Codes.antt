-- ===== src/Auth/Codes.antt =====
-- One table of one-time codes, and the check of a code that both verifications make.
use text.Mathlib.Text.{◌==◌ as str_eq}
use academia_backend_api.Base.{
  ℕ, ◌+◌, suc, String, Bool, true, false, not, ◌&&◌, Option, none, some, List, [], ◌∷◌, ◌++◌, ltb,
  leb, ◌==◌, if◌then◌else◌, filter,
}
use academia_backend_api.Auth.Schema.{Otp, Outside}

-- `PASSWORD_RESET_OTP_TTL_MINUTES * 60_000`
abbrev pub otp_lifetime : ℕ
otp_lifetime = 600000

-- The least time between two mails.
abbrev pub resend_interval : ℕ
resend_interval = 60000

abbrev pub max_attempts : ℕ
max_attempts = 5

abbrev pub lock_time : ℕ
lock_time = 900000

abbrev pub later : Otp → Option Otp → Option Otp
later x none = some x
later x (some y) = if ltb x.created_at y.created_at then some y else some x

-- `findFirst` with `orderBy: { createdAt: 'desc' }`
unfoldable pub find_latest : (Otp → Bool) → List Otp → Option Otp
find_latest p [] = none
find_latest p (x ∷ xs) = if p x then later x (find_latest p xs) else find_latest p xs

abbrev pub sent_to : ℕ → String → Otp → Bool
sent_to tenant_id email o = o.tenant_id == tenant_id && str_eq o.email email

abbrev pub is_unused : Otp → Bool
is_unused o = elim o.used_at [ none ↦ true | some _ ↦ false ]

-- `deleteActive…Otps` and `create…Otp`
unfoldable pub replace_otp : Otp → List Otp → List Otp
replace_otp new os =
    filter (λ o. not (sent_to new.tenant_id new.email o && is_unused o)) os ++ (new ∷ [])

-- `Date.now() - latest.createdAt < 60_000`, for a row that exists and a clock that is not behind it
abbrev pub too_soon : ℕ → Option Otp → Bool
too_soon now none = false
too_soon now (some o) = ltb now (o.created_at + resend_interval)

abbrev pub new_otp : Outside → ℕ → ℕ → ℕ → String → ℕ → String → String → Otp
new_otp out now fresh tenant_id email user_id otp salt = record {
  id = fresh;
  tenant_id = tenant_id;
  email = email;
  user_id = some user_id;
  otp_hash = out.hash_otp otp salt;
  otp_salt = salt;
  expires_at = now + otp_lifetime;
  used_at = none;
  attempts = 0;
  locked_until = none;
  created_at = now;
}

abbrev pub has_id : ℕ → Otp → Bool
has_id id o = o.id == id

-- `record.lockedUntil && record.lockedUntil > now`
abbrev pub is_locked : ℕ → Otp → Bool
is_locked now o = elim o.locked_until [ none ↦ false | some t ↦ ltb now t ]

abbrev pub is_expired : ℕ → Otp → Bool
is_expired now o = leb o.expires_at now

-- `hashOtp(otp, record.otpSalt, pepper) === record.otpHash`
abbrev pub matches : Outside → String → Otp → Bool
matches out otp o = str_eq (out.hash_otp otp o.otp_salt) o.otp_hash

-- The lock that a wrong code brings: `nextAttempts >= 5 ? now + 15 minutes : null`.
abbrev pub next_lock : ℕ → Otp → Option ℕ
next_lock now o = if leb max_attempts (suc o.attempts) then some (now + lock_time) else none

abbrev pub missed : ℕ → Option ℕ → Otp → Otp
missed attempts locked_until o = record o { attempts = attempts; locked_until = locked_until }

abbrev pub used : ℕ → Otp → Otp
used now o = record o { used_at = some now }
