-- ===== src/Invitations/System.antt =====
-- The handlers of invitations as one system of requests.
use academia_backend_api.Base.{ℕ, String, Option, List, [], ◌∷◌, after}
use academia_backend_api.Accounts.{Principal}
use academia_backend_api.Invitations.Schema.{Db, Outside}
use academia_backend_api.Invitations.Sending.{Delivery, Draft, create_invitation}
use academia_backend_api.Invitations.Accept.{preview_accept_invitation, accept_invitation}
use academia_backend_api.Invitations.Manage.{revoke_invitation, resend_invitation}

-- `fresh`, `token` and `password` are what the database and the random generator draw.
pub data Request : Type 0 where
  create : (now fresh : ℕ) (token : String) → Option ℕ → Delivery → Draft → Request
  preview : (now : ℕ) (token : String) → Request
  accept : (now fresh : ℕ) (password token : String) → Request
  revoke : (now : ℕ) → Principal → (invitation_id : ℕ) → Request
  resend :
      (now fresh : ℕ) (token : String)
      → Option ℕ
      → Delivery
      → Principal
      → (invitation_id : ℕ) → Request

-- The state that the handler of a request leaves, whether it returned or threw.
unfoldable pub answer : Outside → Request → Db → Db
answer out (create now fresh token days delivery d) db =
    after (create_invitation out now fresh token days delivery d db)
answer out (preview now token) db = after (preview_accept_invitation out now token db)
answer out (accept now fresh password token) db =
    after (accept_invitation out now fresh password token db)
answer out (revoke now user invitation_id) db = after (revoke_invitation now user invitation_id db)
answer out (resend now fresh token days delivery user invitation_id) db =
    after (resend_invitation out now fresh token days delivery user invitation_id db)

unfoldable pub answer_all : Outside → List Request → Db → Db
answer_all out [] db = db
answer_all out (r ∷ rs) db = answer_all out rs (answer out r db)
