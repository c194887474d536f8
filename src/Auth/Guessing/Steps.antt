-- ===== src/Auth/Guessing/Steps.antt =====
-- Every handler keeps the bound on guesses.
use academia_backend_api.Base.{
  ℕ, suc, String, Bool, false, Option, none, some, List, [], ◌∷◌, ◌≡◌, arith, update, All,
  All-append, All-update, Run, Post, Post-pure, Post-require, Post-require_row, Post-throw_if,
  Post-return_if, Post-read, Post-write, Post-write_last, Post-throw, Post-throw_if_last,
  Post-guard, effects, after,
}
use academia_backend_api.Auth.Schema.{Db, Account, Tenant, Otp, Outside, update_user}
use academia_backend_api.Auth.Codes.{
  replace_otp, new_otp, has_id, is_locked, is_expired, next_lock, missed, used,
}
use academia_backend_api.Auth.Recovery.{
  reset_codes, send_reset_code, request_for, request_forgot_password, resent,
  resend_forgot_password, miss_reset_code, use_reset_code, verify_forgot_password,
  reset_forgotten_password, change_password,
}
use academia_backend_api.Auth.Verification.{
  verification_codes, send_verification_code, request_for_tenant, request_email_verification,
  miss_verification_code, use_verification_code, verify_email,
}
use academia_backend_api.Auth.Login.{validate_user, login}
use academia_backend_api.Auth.Guessing.{Bounded, Inv, find_latest-All, filter-All, missed-Bounded}

after-validate_user :
    (out : Outside) (email password : String) (domain : Option String) (db : Db)
    → after (validate_user out email password domain db) ≡ db
unfolding effects validate_user
after-validate_user out email password domain db = ground arith

module _ (out : Outside) (now : ℕ) where
  new_otp-Bounded :
      (fresh tenant_id : ℕ) (email : String) (user_id : ℕ) (otp salt : String)
      → Bounded now (new_otp out now fresh tenant_id email user_id otp salt)
  new_otp-Bounded fresh tenant_id email user_id otp salt = record {
    guesses = omega arith;
    spent = λ q. absurd (omega arith);
    lives = omega arith;
  }

  replace_otp-All :
      (new : Otp) (os : List Otp)
      → Bounded now new
      → All (Bounded now) os
      → All (Bounded now) (replace_otp new os)
  unfolding replace_otp
  replace_otp-All new os b h =
      All-append (Bounded now) _ (new ∷ []) (filter-All (Bounded now) _ os h) (b, tt)

  missed-All :
      (o : Otp) (os : List Otp)
      → Bounded now o
      → is_locked now o ≡ false
      → is_expired now o ≡ false
      → All (Bounded now) os
      → All (Bounded now) (update (has_id o.id) (missed (suc o.attempts) (next_lock now o)) os)
  missed-All o os b l e h =
      All-update (Bounded now) (Bounded now) _ _ (λ x w t. missed-Bounded now o x b l e w)
        (λ x w t. w) os h

  used-All :
      (id : ℕ) (os : List Otp)
      → All (Bounded now) os
      → All (Bounded now) (update (has_id id) (used now) os)
  used-All id os h =
      All-update (Bounded now) (Bounded now) _ _
        (λ x w t. record { guesses = w.guesses; spent = w.spent; lives = w.lives }) (λ x w t. w) os
        h

  resent-All :
      (id : ℕ) (otp salt : String) (os : List Otp)
      → All (Bounded now) os
      → All (Bounded now) (update (has_id id) (resent out now otp salt) os)
  resent-All id otp salt os h =
      All-update (Bounded now) (Bounded now) _ _
        (λ x w t. record {
          guesses = omega arith;
          spent = λ q. absurd (omega arith);
          lives = omega arith;
        })
        (λ x w t. w) os h

  -- The run keeps the bound, whether it returns or throws.
  abbrev pub Keeps {ℓ} : {A : Type ℓ} → Run Db A → Type ℓ
  Keeps r = Post (λ a s. Inv now s) (Inv now) r

  update_user-Inv :
      (id : ℕ) (f : Account → Account) (db : Db) → Inv now db → Inv now (update_user id f db)
  unfolding update_user
  update_user-Inv id f db v = record { reset = v.reset; verification = v.verification }

  module _ (db : Db) (v : Inv now db) where
    reset_codes-Inv :
        (f : List Otp → List Otp) → All (Bounded now) (f db.reset_otps) → Inv now (reset_codes f db)
    reset_codes-Inv f h = record { reset = h; verification = v.verification }

    verification_codes-Inv :
        (f : List Otp → List Otp)
        → All (Bounded now) (f db.verification_otps)
        → Inv now (verification_codes f db)
    verification_codes-Inv f h = record { reset = v.reset; verification = h }

    request_for-Inv :
        (fresh : ℕ) (otp salt email : String) (user : Option Account)
        → Keeps (request_for out now fresh otp salt email user db)
    unfolding request_for send_reset_code
    request_for-Inv fresh otp salt email none = Post-pure _ _ v
    request_for-Inv fresh otp salt email (some user) =
        Post-return_if _ _ _ _ (λ t. Post-pure _ _ v)
          λ has_password. Post-require_row _ _ _ v λ tenant found.
            Post-return_if _ _ _ _ (λ t. Post-pure _ _ v)
              λ open_. Post-read _ _ _ (
                Post-return_if _ _ _ _ (λ t. Post-pure _ _ v)
                  λ due. Post-write_last _ _ (
                    reset_codes-Inv
                      (replace_otp (new_otp out now fresh user.tenant_id email user.id otp salt))
                      (replace_otp-All _ db.reset_otps
                        (new_otp-Bounded fresh user.tenant_id email user.id otp salt) v.reset)))

    pub request_forgot_password-Inv :
        (fresh : ℕ) (otp salt email : String)
        → Keeps (request_forgot_password out now fresh otp salt email db)
    unfolding request_forgot_password
    request_forgot_password-Inv fresh otp salt email =
        Post-read _ _ _ (request_for-Inv fresh otp salt _ _)

    pub resend_forgot_password-Inv :
        (otp salt : String) (mailed : Bool) (email : String)
        → Keeps (resend_forgot_password out now otp salt mailed email db)
    unfolding resend_forgot_password
    resend_forgot_password-Inv otp salt mailed email = Post-require_row _ _ _ v λ user found.
        Post-require_row _ _ _ v λ o latest. Post-throw_if _ _ v λ live. Post-throw_if _ _ v λ due.
          (let kept =
              reset_codes-Inv (update (has_id o.id) (resent out now otp salt))
                (resent-All o.id otp salt db.reset_otps v.reset) in
            Post-write _ _ _ (Post-throw_if_last _ _ kept λ sent. kept))

    pub verify_forgot_password-Inv :
        (email otp : String) → Keeps (verify_forgot_password out now email otp db)
    unfolding verify_forgot_password use_reset_code miss_reset_code
    verify_forgot_password-Inv email otp = Post-require_row _ _ _ v λ o latest.
        Post-throw_if _ _ v λ unused. Post-throw_if _ _ v λ unlocked. Post-throw_if _ _ v λ live.
          Post-return_if _ _ _ _
            (λ right.
              let kept =
                reset_codes-Inv (update (has_id o.id) (used now))
                  (used-All o.id db.reset_otps v.reset) in
              Post-write _ _ _ (Post-require _ _ kept λ user_id known. Post-pure _ _ kept))
            (λ wrong.
              let b = find_latest-All (Bounded now) _ db.reset_otps v.reset latest in
              let kept =
                reset_codes-Inv (update (has_id o.id) (missed (suc o.attempts) (next_lock now o)))
                  (missed-All o db.reset_otps b unlocked live v.reset) in
              Post-write _ _ _
                (Post-return_if _ _ _ _ (λ t. Post-throw _ _ kept) (λ t. Post-throw _ _ kept)))

    pub reset_forgotten_password-Inv :
        (min_length : ℕ) (token password : String)
        → Keeps (reset_forgotten_password out now min_length token password db)
    unfolding reset_forgotten_password
    reset_forgotten_password-Inv min_length token password = Post-require _ _ v λ payload verified.
        Post-throw_if _ _ v λ purpose. Post-require_row _ _ _ v λ user found.
          Post-throw_if _ _ v λ tenant. Post-throw_if _ _ v λ address.
            Post-throw_if _ _ v λ long. Post-write_last _ _ (update_user-Inv user.id _ db v)

    pub change_password-Inv :
        (user_id : ℕ) (old password : String) → Keeps (change_password out user_id old password db)
    unfolding change_password
    change_password-Inv user_id old password = Post-require_row _ _ _ v λ user found.
        Post-require _ _ v λ hashed known.
          Post-throw_if _ _ v λ right. Post-write_last _ _ (update_user-Inv user_id _ db v)

    send_verification_code-Inv :
        (fresh : ℕ) (otp salt email : String) (tenant : Tenant) (user : Option Account)
        → Keeps (send_verification_code out now fresh otp salt email tenant user db)
    unfolding send_verification_code
    send_verification_code-Inv fresh otp salt email tenant none = Post-pure _ _ v
    send_verification_code-Inv fresh otp salt email tenant (some user) =
        Post-return_if _ _ _ _ (λ t. Post-pure _ _ v)
          λ unverified. Post-read _ _ _ (
            Post-return_if _ _ _ _ (λ t. Post-pure _ _ v)
              λ due. Post-write_last _ _ (
                verification_codes-Inv
                  (replace_otp (new_otp out now fresh tenant.id email user.id otp salt))
                  (replace_otp-All _ db.verification_otps
                    (new_otp-Bounded fresh tenant.id email user.id otp salt) v.verification)))

    request_for_tenant-Inv :
        (fresh : ℕ) (otp salt email : String) (tenant : Option Tenant)
        → Keeps (request_for_tenant out now fresh otp salt email tenant db)
    unfolding request_for_tenant
    request_for_tenant-Inv fresh otp salt email none = Post-pure _ _ v
    request_for_tenant-Inv fresh otp salt email (some tenant) =
        Post-read _ _ _ (send_verification_code-Inv fresh otp salt email tenant _)

    pub request_email_verification-Inv :
        (fresh : ℕ) (otp salt email : String) (domain : Option String)
        → Keeps (request_email_verification out now fresh otp salt email domain db)
    unfolding request_email_verification
    request_email_verification-Inv fresh otp salt email domain =
        Post-read _ _ _ (request_for_tenant-Inv fresh otp salt _ _)

    pub verify_email-Inv :
        (email otp : String) (domain : Option String)
        → Keeps (verify_email out now email otp domain db)
    unfolding verify_email use_verification_code miss_verification_code
    verify_email-Inv email otp domain = Post-require_row _ _ _ v λ tenant home.
        Post-require_row _ _ _ v λ o latest. Post-throw_if _ _ v λ unused.
          Post-throw_if _ _ v λ unlocked. Post-throw_if _ _ v λ live.
            Post-return_if _ _ _ _
              (λ right.
                let kept =
                  verification_codes-Inv (update (has_id o.id) (used now))
                    (used-All o.id db.verification_otps v.verification) in
                Post-write _ _ _ (
                  Post-require _ _ kept
                    λ user_id known. Post-write_last _ _ (update_user-Inv user_id _ _ kept)))
              (λ wrong.
                let b =
                  find_latest-All (Bounded now) _ db.verification_otps v.verification latest in
                let kept =
                  verification_codes-Inv
                    (update (has_id o.id) (missed (suc o.attempts) (next_lock now o)))
                    (missed-All o db.verification_otps b unlocked live v.verification) in
                Post-write _ _ _ (Post-throw _ _ kept))

    pub login-Inv :
        (email password : String) (domain : Option String)
        → Keeps (login out now email password domain db)
    unfolding login
    login-Inv email password domain =
        Post-guard _ _ (after-validate_user out email password domain db) v λ user valid.
          Post-write _ _ _ (
            Post-write _ _ _
              (Post-pure _ _ (update_user-Inv user.id _ _ (update_user-Inv user.id _ db v))))
