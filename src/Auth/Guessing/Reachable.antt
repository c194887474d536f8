-- ===== src/Auth/Guessing/Reachable.antt =====
-- The bound on guesses over all requests.
use academia_backend_api.Base.{ℕ, ◌+◌, List, [], ◌∷◌, arith, Post-after}
use academia_backend_api.Auth.Schema.{Db, Outside}
use academia_backend_api.Auth.System.{
  Request, forgot, resend, verify_code, reset, change, ask_verification, confirm_email, log_in,
  respond, Timed, State, respond_all,
}
use academia_backend_api.Auth.Guessing.{Inv, Inv-later}
use academia_backend_api.Auth.Guessing.Steps.{
  request_forgot_password-Inv, resend_forgot_password-Inv, verify_forgot_password-Inv,
  reset_forgotten_password-Inv, change_password-Inv, request_email_verification-Inv,
  verify_email-Inv, login-Inv,
}

respond-Inv :
    (out : Outside) (now : ℕ) (r : Request) (db : Db) → Inv now db → Inv now (respond out now r db)
unfolding respond
respond-Inv out now (forgot fresh otp salt email) db v =
    Post-after (request_forgot_password-Inv out now db v fresh otp salt email)
respond-Inv out now (resend otp salt mailed email) db v =
    Post-after (resend_forgot_password-Inv out now db v otp salt mailed email)
respond-Inv out now (verify_code email otp) db v =
    Post-after (verify_forgot_password-Inv out now db v email otp)
respond-Inv out now (reset min_length token password) db v =
    Post-after (reset_forgotten_password-Inv out now db v min_length token password)
respond-Inv out now (change user_id old password) db v =
    Post-after (change_password-Inv out now db v user_id old password)
respond-Inv out now (ask_verification fresh otp salt email domain) db v =
    Post-after (request_email_verification-Inv out now db v fresh otp salt email domain)
respond-Inv out now (confirm_email email otp domain) db v =
    Post-after (verify_email-Inv out now db v email otp domain)
respond-Inv out now (log_in email password domain) db v =
    Post-after (login-Inv out now db v email password domain)

-- Whatever requests come while the clock goes on: of every code kept, at most five wrong guesses were
-- counted since it was sent, after five it is locked until it has expired, and it expires within ten
-- minutes of the clock. This holds where it held at first.
pub respond_all-Inv :
    (out : Outside) (ts : List Timed) (st : State)
    → Inv st.clock st.db
    → let end_state = respond_all out ts st in Inv end_state.clock end_state.db
unfolding respond_all
respond_all-Inv out [] st v = v
respond_all-Inv out (t ∷ ts) st v =
    let now = st.clock + t.wait in
    respond_all-Inv out ts (record { clock = now; db = respond out now t.request st.db })
      (respond-Inv out now t.request st.db (Inv-later st.clock now st.db (omega arith) v))
