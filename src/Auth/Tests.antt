-- ===== src/Auth/Tests.antt =====
-- One tenant, one user, and codes of hers, with the theorems at them.
use text.Mathlib.Text.{◌==◌ as str_eq}
use academia_backend_api.Base.{
  ℕ, String, true, false, none, some, List, [], ◌∷◌, ◌≡◌, refl, arith, if◌then◌else◌, ok, err,
  after, Post, effects, find, filter, update,
}
use academia_backend_api.Accounts.{UserStatus, department_head}
use academia_backend_api.Auth.Schema.{
  TenantStatus, Account, Otp, Db, ResetPayload, Outside, update_user,
}
use academia_backend_api.Auth.Codes.{find_latest, replace_otp}
use academia_backend_api.Auth.Recovery.{
  request_forgot_password, request_for, send_reset_code, resend_forgot_password,
  verify_forgot_password, use_reset_code, miss_reset_code, reset_forgotten_password, with_password,
  locked_out,
}
use academia_backend_api.Auth.Verification.{resolve_tenant}
use academia_backend_api.Auth.Login.{validate_user}
use academia_backend_api.Auth.System.{forgot, verify_code, reset, Timed, respond, respond_all}
use academia_backend_api.Auth.Guessing.{Inv}
use academia_backend_api.Auth.Guessing.Reachable.{respond_all-Inv}
use academia_backend_api.Auth.Verify.{
  Accepted, Refused, verify_forgot_password_lem, verify_forgot_password-spent,
  verify_forgot_password-once,
}
use academia_backend_api.Auth.Reset.{
  ResetDone, reset_forgotten_password_lem, reset_forgotten_password-again,
}
use academia_backend_api.Auth.Relogin.{reset_forgotten_password-login}
use academia_backend_api.Auth.Delivery.{
  Deliverable, request_forgot_password-verify, Resent, resend_forgot_password-again,
}

runs : Unit {0}
unfolding effects find filter update find_latest replace_otp request_forgot_password request_for
    send_reset_code resend_forgot_password verify_forgot_password use_reset_code miss_reset_code
    reset_forgotten_password resolve_tenant validate_user update_user respond respond_all
runs = tt

abbrev payload : ResetPayload
payload = record {
  purpose = "password-reset";
  sub = 5;
  email = "ada@uni.edu";
  tenant_id = 1;
  otp_id = 9;
}

-- Hashes that are the text itself, and one token.
abbrev outside : Outside
outside = record {
  hash_otp = λ otp salt. otp;
  hash_password = λ p. p;
  compare_password = λ p h. str_eq p h;
  sign = λ now p. "token";
  verify = λ now t. if str_eq t "token" then some payload else none;
  length_of = λ s. 8;
  trim = λ s. s;
  lower = λ s. s;
}

abbrev ada : Account
ada = record {
  id = 5;
  tenant_id = 1;
  email = "ada@uni.edu";
  hashed_password = some "forgotten";
  must_change_password = false;
  status = UserStatus.active;
  email_verified = true;
  first_login_at = none;
  status_upload_deadline = none;
  last_login_at = none;
  roles = department_head ∷ [];
}

abbrev code : ℕ → Otp
code attempts = record {
  id = 9;
  tenant_id = 1;
  email = "ada@uni.edu";
  user_id = some 5;
  otp_hash = "123456";
  otp_salt = "salt";
  expires_at = 700000;
  used_at = none;
  attempts = attempts;
  locked_until = none;
  created_at = 100000;
}

abbrev spent_code : Otp
spent_code = record (code 5) { locked_until = some 1010000 }

abbrev db_with : List Otp → Db
db_with codes = record {
  tenants = record { id = 1; domain = "uni"; status = TenantStatus.active } ∷ [];
  users = ada ∷ [];
  reset_otps = codes;
  verification_otps = [];
}

abbrev sent_db : Db
sent_db = db_with (code 4 ∷ [])

spent_db-Inv : Inv 110000 (db_with (spent_code ∷ []))
spent_db-Inv = record {
  reset = (
    record {
      guesses = omega arith;
      spent = λ e. (1010000, refl, omega arith);
      lives = omega arith;
    },
    tt,
  );
  verification = tt;
}

no_code-Inv : Inv 0 (db_with [])
no_code-Inv = record { reset = tt; verification = tt }

fifth_miss_test :
    verify_forgot_password outside 110000 "ada@uni.edu" "654321" sent_db
    ≡ err locked_out (db_with (spent_code ∷ []))
unfolding runs
fifth_miss_test = refl

abbrev requests : List Timed
requests =
    record { wait = 100000; request = forgot 9 "123456" "salt" "ada@uni.edu" }
    ∷ record { wait = 10; request = verify_code "ada@uni.edu" "111111" }
    ∷ record { wait = 10; request = verify_code "ada@uni.edu" "123456" }
    ∷ record { wait = 10; request = reset 8 "token" "remembered" }
    ∷ []

respond_all-Inv_example :
    let end_state = respond_all outside requests (record { clock = 0; db = db_with [] }) in
    Inv end_state.clock end_state.db
respond_all-Inv_example =
    respond_all-Inv outside requests (record { clock = 0; db = db_with [] }) no_code-Inv

verify_forgot_password_lem_example :
    Post
      (Accepted outside 110000 "ada@uni.edu" "123456" sent_db)
      (Refused outside 110000 "ada@uni.edu" "123456" sent_db)
      (verify_forgot_password outside 110000 "ada@uni.edu" "123456" sent_db)
verify_forgot_password_lem_example =
    verify_forgot_password_lem outside 110000 "ada@uni.edu" "123456" sent_db

verify_forgot_password-spent_example :
    Post
      (λ token s. ⊥)
      (λ s. s ≡ db_with (spent_code ∷ []))
      (verify_forgot_password outside 120000 "ada@uni.edu" "123456" (db_with (spent_code ∷ [])))
unfolding find_latest
verify_forgot_password-spent_example =
    verify_forgot_password-spent outside 110000 120000 "ada@uni.edu" "123456"
      (db_with (spent_code ∷ [])) (omega arith) spent_db-Inv refl refl

verify_forgot_password-once_example :
    let s = db_with (record (code 4) { used_at = some 110000 } ∷ []) in
    Post (λ t u. ⊥) (λ u. u ≡ s) (verify_forgot_password outside 120000 "ada@uni.edu" "123456" s)
unfolding runs
verify_forgot_password-once_example =
    verify_forgot_password-once outside 110000 120000 "ada@uni.edu" "123456" "123456" sent_db refl

abbrev with_new : String → Db
with_new password = record (db_with []) { users = with_password outside password ada ∷ [] }

reset_forgotten_password_lem_example :
    Post
      (λ u s. ResetDone outside 120000 8 "token" "remembered" (db_with []) s)
      (λ s. s ≡ db_with [])
      (reset_forgotten_password outside 120000 8 "token" "remembered" (db_with []))
reset_forgotten_password_lem_example =
    reset_forgotten_password_lem outside 120000 8 "token" "remembered" (db_with [])

reset_forgotten_password-again_example :
    Post
      (λ u t. ResetDone outside 130000 8 "token" "overruled" (with_new "remembered") t)
      (λ t. ⊥)
      (reset_forgotten_password outside 130000 8 "token" "overruled" (with_new "remembered"))
unfolding runs
reset_forgotten_password-again_example =
    reset_forgotten_password-again outside 120000 130000 8 "token" "remembered" "overruled"
      (db_with []) refl refl refl (omega arith)

reset_forgotten_password-login_example :
    validate_user outside "ada@uni.edu" "remembered" none (with_new "remembered")
    ≡ ok (with_password outside "remembered" ada) (with_new "remembered")
unfolding runs
reset_forgotten_password-login_example =
    reset_forgotten_password-login outside 120000 8 "token" "forgotten" "remembered" "ada@uni.edu"
      none (db_with []) refl refl refl refl refl

ada-Deliverable : Deliverable outside 100000 "ada@uni.edu" (db_with [])
unfolding runs
ada-Deliverable = record {
  user = ada;
  hashed = "forgotten";
  tenant = record { id = 1; domain = "uni"; status = TenantStatus.active };
  known = refl;
  has_password = refl;
  home = refl;
  open_ = refl;
  due = refl;
  older = tt;
}

request_forgot_password-verify_example :
    let s =
      after (request_forgot_password outside 100000 9 "123456" "salt" "ada@uni.edu" (db_with [])) in
    Post
      (Accepted outside 200000 "ada@uni.edu" "123456" s)
      (λ u. ⊥)
      (verify_forgot_password outside 200000 "ada@uni.edu" "123456" s)
request_forgot_password-verify_example =
    request_forgot_password-verify outside 100000 9 200000 "123456" "salt" "ada@uni.edu"
      (db_with []) ada-Deliverable refl (omega arith)

abbrev resent_db : Db
resent_db =
    db_with (record (code 0) { otp_hash = "777777"; otp_salt = "pepper"; expires_at = 800000 } ∷ [])

resend_forgot_password-again_example :
    Post
      (λ u t. Resent outside 200000 "888888" "herbs" "ada@uni.edu" resent_db t)
      (λ t. ⊥)
      (resend_forgot_password outside 200000 "888888" "herbs" true "ada@uni.edu" resent_db)
unfolding runs
resend_forgot_password-again_example =
    resend_forgot_password-again outside 200000 "777777" "pepper" "888888" "herbs" "ada@uni.edu"
      sent_db refl
