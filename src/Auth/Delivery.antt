-- ===== src/Auth/Delivery.antt =====
-- The way of a reset code: what is sent is accepted, and what it can be sent again.
use text.Mathlib.Text.{◌==◌ as str_eq}
use text.Mathlib.TextPositions.{eq_refl}
use academia_backend_api.Base.{
  ◌⊎◌, inl, inr, ℕ, ◌+◌, ◌<◌, String, Bool, true, false, not, ◌||◌, some, ◌≡◌, refl, arith, leb, ap,
  sym, ◌∙◌, ◌==◌, update, All, ok, Post, returns, throws, throw_if, Exception, Post-require_row,
  Post-throw_if, Post-write, Post-ok, subst, after, effects,
}
use academia_backend_api.Auth.Schema.{
  Db, Account, Tenant, Otp, Outside, find_tenant, find_active_by_email,
}
use academia_backend_api.Auth.Codes.{
  find_latest, sent_to, replace_otp, new_otp, too_soon, otp_lifetime, is_unused, is_expired,
  matches, has_id,
}
use academia_backend_api.Auth.Recovery.{
  tenant_closed, reset_codes, request_forgot_password, request_for, send_reset_code, resent,
  resend_forgot_password, verify_forgot_password, use_reset_code,
}
use academia_backend_api.Auth.Guessing.{filter-All}
use academia_backend_api.Auth.Latest.{find_latest-newest, latest-rewritten}
use academia_backend_api.Auth.Verify.{Accepted, sent_last}

-- The address belongs to an active user with a password in an open tenant, no code went there within the
-- last minute, and all codes kept are older than the moment.
pub record Deliverable (out : Outside) (now : ℕ) (email : String) (db : Db) : Type 0 where
  pub user : Account
  pub hashed : String
  pub tenant : Tenant
  pub known : find_active_by_email (out.trim email) db ≡ some user
  pub has_password : user.hashed_password ≡ some hashed
  pub home : find_tenant (λ t. t.id == user.tenant_id) db ≡ some tenant
  pub open_ : tenant_closed tenant ≡ false
  pub due :
      too_soon now (find_latest (sent_to user.tenant_id (out.trim email)) db.reset_otps) ≡ false
  pub older : All (λ o. o.created_at < now) db.reset_otps

module _ (out : Outside) (now fresh : ℕ) (otp salt email : String) (db : Db)
    (d : Deliverable out now email db) where
  abbrev pub sent : Otp
  sent = new_otp out now fresh d.user.tenant_id (out.trim email) d.user.id otp salt

  delivered :
      request_forgot_password out now fresh otp salt email db
      ≡ ok tt (reset_codes (replace_otp sent) db)
  unfolding request_forgot_password request_for send_reset_code effects
  delivered = rw (d.known, d.has_password, d.home, d.open_, d.due) refl

  sent-latest : sent_last (out.trim email) (reset_codes (replace_otp sent) db) ≡ some sent
  unfolding replace_otp
  sent-latest =
      find_latest-newest (λ r. str_eq r.email (out.trim email)) _ sent
        (filter-All (λ o. o.created_at < now) _ db.reset_otps d.older) (eq_refl (out.trim email))

  sent-Accepted :
      (at : ℕ)
      → out.trim otp ≡ otp
      → at < now + otp_lifetime
      → (s : Db) → sent_last (out.trim email) s ≡ some sent
      → Post (Accepted out at email otp s) (λ u. ⊥) (verify_forgot_password out at email otp s)
  unfolding verify_forgot_password use_reset_code effects
  sent-Accepted at plain soon s latest =
      let live : leb (now + otp_lifetime) at ≡ false = ground arith in
      let right : matches out (out.trim otp) sent ≡ true =
        ap (λ x. str_eq (out.hash_otp x salt) (out.hash_otp otp salt)) plain
        ∙ eq_refl (out.hash_otp otp salt) in
      rw (latest, live, right)
        (returns (record {
          code = sent;
          owner = d.user.id;
          latest = latest;
          unused = refl;
          unlocked = refl;
          live = live;
          right = right;
          owned = refl;
          consumed = refl;
          signed = refl;
        }))

-- What was sent is accepted: after `requestForgotPassword` for a deliverable address,
-- `verifyForgotPasswordOtp` with the code that was sent returns a token as long as the code lives.
pub request_forgot_password-verify :
    (out : Outside) (now fresh at : ℕ) (otp salt email : String) (db : Db)
    → Deliverable out now email db
    → out.trim otp ≡ otp
    → at < now + otp_lifetime
    → let s = after (request_forgot_password out now fresh otp salt email db) in
      Post (Accepted out at email otp s) (λ u. ⊥) (verify_forgot_password out at email otp s)
request_forgot_password-verify out now fresh at otp salt email db d plain soon =
    rw (delivered out now fresh otp salt email db d) (
      sent-Accepted out now fresh otp salt email db d at plain soon _
        (sent-latest out now fresh otp salt email db d))

-- The answer to a successful resend.
pub record Resent (out : Outside) (now : ℕ) (otp salt email : String) (db after_ : Db)
    : Type 0 where
  pub user : Account
  pub code : Otp
  pub known : find_active_by_email (out.trim email) db ≡ some user
  pub latest : find_latest (sent_to user.tenant_id (out.trim email)) db.reset_otps ≡ some code
  pub unused : is_unused code ≡ true
  pub live : is_expired now code ≡ false
  pub due : too_soon now (some code) ≡ false
  pub renewed : after_ ≡ reset_codes (update (has_id code.id) (resent out now otp salt)) db

resend_active :
    (out : Outside) (now : ℕ) (o : Otp)
    → (not (is_unused o) || is_expired now o) ≡ false
    → (is_unused o ≡ true) × (is_expired now o ≡ false)
resend_active out now o e = (ground arith, ground arith)

mail_sent :
    (mailed : Bool) (e : Exception) (s : Db) {D F : Db → Type 0}
    → D s
    → Post
        (λ u t. D t × (mailed ≡ true))
        (λ t. F t ⊎ (D t × (mailed ≡ false)))
        (throw_if (not mailed) e s)
unfolding throw_if
mail_sent true e s d = returns (d, refl)
mail_sent false e s d = throws (inr (d, refl))

-- `resendForgotPasswordOtp` returns only where the latest code of the active user is unused, unexpired and
-- was created at least a minute ago, and gives it a new hash, ten more minutes, no attempts and no lock.
-- Where it throws, the tables are as they were, or only the mail failed after that.
pub resend_forgot_password_lem :
    (out : Outside) (now : ℕ) (otp salt : String) (mailed : Bool) (email : String) (db : Db)
    → Post
        (λ u s. Resent out now otp salt email db s × (mailed ≡ true))
        (λ s. (s ≡ db) ⊎ (Resent out now otp salt email db s × (mailed ≡ false)))
        (resend_forgot_password out now otp salt mailed email db)
unfolding resend_forgot_password
resend_forgot_password_lem out now otp salt mailed email db =
    Post-require_row _ _ _ (inl refl) λ user known. Post-require_row _ _ _ (inl refl) λ o latest.
      Post-throw_if _ _ (inl refl) λ open_. Post-throw_if _ _ (inl refl) λ due.
        let (unused, live) = resend_active out now o open_ in
        let done : Resent out now otp salt email db
            (reset_codes (update (has_id o.id) (resent out now otp salt)) db) =
          record {
            user = user;
            code = o;
            known = known;
            latest = latest;
            unused = unused;
            live = live;
            due = due;
            renewed = refl;
          } in
        Post-write _ _ _ (mail_sent mailed _ _ done)

resend-resent :
    (out : Outside) (now : ℕ) (otp salt next next_salt email : String) (db : Db) {t : Db}
    (r : Resent out now otp salt email db t)
    → let s = reset_codes (update (has_id r.code.id) (resent out now otp salt)) db in
      Post
        (λ u w. Resent out now next next_salt email s w)
        (λ w. ⊥)
        (resend_forgot_password out now next next_salt true email s)
unfolding resend_forgot_password effects
resend-resent out now otp salt next next_salt email db r =
    let latest =
      latest-rewritten (sent_to r.user.tenant_id (out.trim email)) (resent out now otp salt)
        (λ x. refl) (λ x. refl) db.reset_otps r.latest in
    let live : leb (now + otp_lifetime) now ≡ false = ground arith in
    rw (r.known, latest, r.unused, live, r.due)
      (returns (record {
        user = r.user;
        code = resent out now otp salt r.code;
        known = r.known;
        latest = latest;
        unused = r.unused;
        live = live;
        due = r.due;
        renewed = refl;
      }))

-- A resend does not start the minute between two mails again, since it keeps the time of creation: right
-- after `resendForgotPasswordOtp` returned, it returns again at the same moment.
pub resend_forgot_password-again :
    (out : Outside) (now : ℕ) (otp salt next next_salt email : String) (db : Db) {s : Db}
    → resend_forgot_password out now otp salt true email db ≡ ok tt s
    → Post
        (λ u t. Resent out now next next_salt email s t)
        (λ t. ⊥)
        (resend_forgot_password out now next next_salt true email s)
resend_forgot_password-again out now otp salt next next_salt email db {s} e =
    let (r, _) = Post-ok (resend_forgot_password_lem out now otp salt true email db) e in
    subst
      (λ t.
        Post (λ u w. Resent out now next next_salt email t w) (λ w. ⊥)
          (resend_forgot_password out now next next_salt true email t))
      (sym r.renewed) (resend-resent out now otp salt next next_salt email db r)
