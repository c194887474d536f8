-- ===== src/Auth/System.antt =====
-- The authentication handlers as one system with a clock: before each request some time passes.
use academia_backend_api.Base.{ℕ, ◌+◌, String, Bool, Option, List, [], ◌∷◌, after}
use academia_backend_api.Auth.Schema.{Db, Outside}
use academia_backend_api.Auth.Recovery.{
  request_forgot_password, resend_forgot_password, verify_forgot_password, reset_forgotten_password,
  change_password,
}
use academia_backend_api.Auth.Verification.{request_email_verification, verify_email}
use academia_backend_api.Auth.Login.{login}

-- `fresh`, `otp` and `salt` are what the database and the random generator draw.
pub data Request : Type 0 where
  forgot : (fresh : ℕ) (otp salt email : String) → Request
  resend : (otp salt : String) (mailed : Bool) (email : String) → Request
  verify_code : (email otp : String) → Request
  reset : (min_length : ℕ) (token password : String) → Request
  change : (user_id : ℕ) (old password : String) → Request
  ask_verification : (fresh : ℕ) (otp salt email : String) → Option String → Request
  confirm_email : (email otp : String) → Option String → Request
  log_in : (email password : String) → Option String → Request

-- The state that the handler of a request leaves, whether it returned or threw.
unfoldable pub respond : Outside → ℕ → Request → Db → Db
respond out now (forgot fresh otp salt email) db =
    after (request_forgot_password out now fresh otp salt email db)
respond out now (resend otp salt mailed email) db =
    after (resend_forgot_password out now otp salt mailed email db)
respond out now (verify_code email otp) db = after (verify_forgot_password out now email otp db)
respond out now (reset min_length token password) db =
    after (reset_forgotten_password out now min_length token password db)
respond out now (change user_id old password) db =
    after (change_password out user_id old password db)
respond out now (ask_verification fresh otp salt email domain) db =
    after (request_email_verification out now fresh otp salt email domain db)
respond out now (confirm_email email otp domain) db =
    after (verify_email out now email otp domain db)
respond out now (log_in email password domain) db = after (login out now email password domain db)

pub record Timed : Type 0 where
  pub wait : ℕ
  pub request : Request

pub record State : Type 0 where
  pub clock : ℕ
  pub db : Db

unfoldable pub respond_all : Outside → List Timed → State → State
respond_all out [] st = st
respond_all out (t ∷ ts) st =
    let now = st.clock + t.wait in
    respond_all out ts (record { clock = now; db = respond out now t.request st.db })
