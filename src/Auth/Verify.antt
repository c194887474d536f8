-- ===== src/Auth/Verify.antt =====
-- What the verification of a reset code promises.
use text.Mathlib.Text.{◌==◌ as str_eq}
use academia_backend_api.Base.{
  ℕ, ◌≤◌, suc, String, true, false, not, Option, none, some, ◌≡◌, refl, arith, ap, ◌∙◌, update, ok,
  Post, Post-pure, Post-require_else, Post-require_row, Post-throw_if, Post-return_if, Post-write,
  Post-throw, Post-ok, subst,
}
use academia_backend_api.Auth.Schema.{Db, Otp, Outside}
use academia_backend_api.Auth.Codes.{
  find_latest, has_id, is_locked, is_expired, is_unused, matches, next_lock, missed, used,
  max_attempts,
}
use academia_backend_api.Auth.Recovery.{
  reset_codes, verify_forgot_password, use_reset_code, miss_reset_code,
}
use academia_backend_api.Auth.Guessing.{Bounded, Inv, Inv-later, find_latest-All, guesses_left}
use academia_backend_api.Auth.Latest.{latest-rewritten}

-- The code that a verification reads: the latest that was sent to the address.
abbrev pub sent_last : String → Db → Option Otp
sent_last email db = find_latest (λ r. str_eq r.email email) db.reset_otps

-- The refused call left the tables alone, or counted one wrong guess at the latest code.
pub data Refused (out : Outside) (now : ℕ) (email otp : String) (db after_ : Db) : Type 0 where
  untouched : after_ ≡ db → Refused out now email otp db after_
  counted :
      (o : Otp)
      → sent_last (out.trim email) db ≡ some o
      → matches out (out.trim otp) o ≡ false
      → after_ ≡ reset_codes (update (has_id o.id) (missed (suc o.attempts) (next_lock now o))) db
      → Refused out now email otp db after_
  unowned :
      (o : Otp)
      → sent_last (out.trim email) db ≡ some o
      → o.user_id ≡ none
      → after_ ≡ reset_codes (update (has_id o.id) (used now)) db
      → Refused out now email otp db after_

-- The call that returned a token: the latest code was open and matched, it is used from now on, and the
-- token is for the user that it was sent to.
pub record Accepted (out : Outside) (now : ℕ) (email otp : String) (db : Db) (token : String)
    (after_ : Db) : Type 0 where
  pub code : Otp
  pub owner : ℕ
  pub latest : sent_last (out.trim email) db ≡ some code
  pub unused : is_unused code ≡ true
  pub unlocked : is_locked now code ≡ false
  pub live : is_expired now code ≡ false
  pub right : matches out (out.trim otp) code ≡ true
  pub owned : code.user_id ≡ some owner
  pub consumed : after_ ≡ reset_codes (update (has_id code.id) (used now)) db
  pub signed :
      token
      ≡ out.sign now (record {
        purpose = "password-reset";
        sub = owner;
        email = out.trim email;
        tenant_id = code.tenant_id;
        otp_id = code.id;
      })

opened : (o : Otp) → not (is_unused o) ≡ false → is_unused o ≡ true
opened o e = ground arith

-- `verifyForgotPasswordOtp` returns a token only where the latest code sent to the address is unused,
-- neither locked nor expired, and matches; it marks that code as used, and signs the token for its user.
-- Otherwise it throws, and leaves the tables as they were but for one wrong guess counted or for a code
-- without a user marked as used.
pub verify_forgot_password_lem :
    (out : Outside) (now : ℕ) (email otp : String) (db : Db)
    → Post
        (Accepted out now email otp db)
        (Refused out now email otp db)
        (verify_forgot_password out now email otp db)
unfolding verify_forgot_password use_reset_code miss_reset_code
verify_forgot_password_lem out now email otp db =
    Post-require_row _ _ _ (untouched refl) λ o latest. Post-throw_if _ _ (untouched refl) λ unused.
      Post-throw_if _ _ (untouched refl) λ unlocked. Post-throw_if _ _ (untouched refl) λ live.
        Post-return_if _ _ _ _
          (λ right. Post-write _ _ _ (
            Post-require_else _ _ (λ nobody. unowned o latest nobody refl)
              λ owner owned. Post-pure _ _ (record {
                code = o;
                owner = owner;
                latest = latest;
                unused = opened o unused;
                unlocked = unlocked;
                live = live;
                right = right;
                owned = owned;
                consumed = refl;
                signed = refl;
              })))
          (λ wrong. Post-write _ _ _ (
            Post-return_if _ _ _ _ (λ t. Post-throw _ _ (counted o latest wrong refl))
              (λ t. Post-throw _ _ (counted o latest wrong refl))))

-- A code that was missed five times and has not been sent again is of no use to anyone: under the bound
-- on guesses, `verifyForgotPasswordOtp` throws at any later time and whatever is typed, and changes
-- nothing.
pub verify_forgot_password-spent :
    (out : Outside) (clock now : ℕ) (email otp : String) (db : Db) {o : Otp}
    → clock ≤ now
    → Inv clock db
    → sent_last (out.trim email) db ≡ some o
    → o.attempts ≡ max_attempts
    → Post (λ token s. ⊥) (λ s. s ≡ db) (verify_forgot_password out now email otp db)
unfolding verify_forgot_password
verify_forgot_password-spent out clock now email otp db {o} passed v same spent =
    Post-require_row _ _ _ refl λ r latest.
      let bounded =
        find_latest-All (Bounded now) _ db.reset_otps (Inv-later clock now db passed v).reset
          latest in
      Post-throw_if _ _ refl λ unused. Post-throw_if _ _ refl λ unlocked.
        Post-throw_if _ _ refl λ live.
          let left = guesses_left now r bounded unlocked live in
          let is : r ≡ o = cc in absurd (omega (arith, left, ap (λ x. x.attempts) is, spent))

used-latest :
    (email : String) (now : ℕ) (db : Db) {o : Otp}
    → sent_last email db ≡ some o
    → sent_last email (reset_codes (update (has_id o.id) (used now)) db) ≡ some (used now o)
used-latest email now db {o} latest =
    latest-rewritten (λ r. str_eq r.email email) (used now) (λ x. refl) (λ x. refl) db.reset_otps
      latest

still-used : (now : ℕ) (o : Otp) → not (is_unused (used now o)) ≡ false → ⊥
still-used now o e = cc

-- A code serves once: after `verifyForgotPasswordOtp` returned a token, it throws for the same address at
-- any time and whatever is typed, and changes nothing.
pub verify_forgot_password-once :
    (out : Outside) (now later_ : ℕ) (email otp again : String) (db : Db) {token : String} {s : Db}
    → verify_forgot_password out now email otp db ≡ ok token s
    → Post (λ t u. ⊥) (λ u. u ≡ s) (verify_forgot_password out later_ email again s)
unfolding verify_forgot_password
verify_forgot_password-once out now later_ email otp again db {token} {s} e =
    let a = Post-ok (verify_forgot_password_lem out now email otp db) e in
    Post-require_row _ _ _ refl λ r latest. Post-throw_if _ _ refl λ unused.
      let gone =
        ap (sent_last (out.trim email)) a.consumed ∙ used-latest (out.trim email) now db a.latest in
      let is : r ≡ used now a.code = cc in
      absurd (still-used now a.code (subst (λ x. not (is_unused x) ≡ false) is unused))
