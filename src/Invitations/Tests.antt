-- ===== src/Invitations/Tests.antt =====
-- One advisor invited, and the theorems at points of the story.
use academia_backend_api.Base.{
  true, false, none, some, List, [], ◌∷◌, ◌++◌, ◌≡◌, refl, arith, ok, effects, Post, find, filter,
  update, count,
}
use academia_backend_api.Accounts.{includes, Principal, tenant, department_head, UserStatus}
use academia_backend_api.Invitations.Schema.{Db, Outside, Member}
use academia_backend_api.Invitations.Sending.{
  dispatched, failed, Draft, insert_invitation, replace_pending, create_invitation,
}
use academia_backend_api.Invitations.Accept.{
  open_invitation, preview_accept_invitation, settle_user, grant_role, put_advisor, settle_advisor,
  accept_in_transaction, accept_invitation,
}
use academia_backend_api.Invitations.Manage.{require_inviter, revoke_invitation, resend_invitation}
use academia_backend_api.Invitations.Outcome.{
  Accepted, Refused, accept_invitation-Accepted, accept_invitation-once,
}
use academia_backend_api.Invitations.Pending.{Inv}
use academia_backend_api.Invitations.System.{
  Request, create, accept, revoke, resend, answer, answer_all,
}
use academia_backend_api.Invitations.Reachable.{answer_all-Inv}

runs : Unit {0}
unfolding effects includes find filter update count insert_invitation replace_pending
    create_invitation open_invitation preview_accept_invitation settle_user grant_role put_advisor
    settle_advisor accept_in_transaction accept_invitation require_inviter revoke_invitation
    resend_invitation answer answer_all
runs = tt

abbrev outside : Outside
outside = record { trim = λ s. s; lower = λ s. s; clip = λ s. s; hash_password = λ s. s }

abbrev head : Member
head = record {
  id = 1;
  tenant_id = 7;
  department_id = some 3;
  email = "head@uni.edu";
  hashed_password = some "secret";
  must_change_password = false;
  first_name = "Hedy";
  last_name = "Lamarr";
  status = UserStatus.active;
  email_verified = true;
}

abbrev empty : Db
empty = record {
  invitations = [];
  roles = record { id = 2; name = "Advisor" } ∷ [];
  users = head ∷ [];
  user_roles = [];
  advisors = [];
  departments =
      record { id = 3; tenant_id = 7; head_of_department_id = some 1; pending_head = some 11 } ∷ [];
}

empty-Inv : Inv empty.invitations
unfolding count
empty-Inv = record { one = λ t e r d. omega arith; tokens = λ token. omega arith }

abbrev draft : Draft
draft = record {
  tenant_id = 7;
  department_id = some 3;
  email = "ada@uni.edu";
  invitee_first_name = "Ada";
  invitee_last_name = "Byron";
  role_name = "Advisor";
  invited_by_admin_id = some 1;
}

abbrev hedy : Principal
hedy = record { sub = some 1; tenant_id = tenant 7; roles = department_head ∷ [] }

abbrev sending : List Request
sending =
    create 1000 10 "aa" none (failed "timeout") draft
    ∷ resend 2000 11 "bb" (some 2) dispatched hedy 10
    ∷ []

unfoldable sent : Db
unfolding runs
sent = answer_all outside sending empty

-- The first token is revoked, the second serves.
unfoldable done : Db
unfolding runs sent
done = answer outside (accept 3000 20 "temporary" "bb") sent

accept_test :
    accept_invitation outside 3000 20 "temporary" "bb" sent
    ≡ ok
        (record {
          user_id = 20;
          tenant_id = 7;
          email = "ada@uni.edu";
          temporary_password = "temporary";
          updated_department_ids = 3 ∷ [];
        })
        done
unfolding runs sent done
accept_test = refl

answer_all-Inv_example :
    Inv
      (answer_all outside
        (sending ++ (accept 3000 20 "temporary" "aa" ∷ revoke 4000 hedy 11 ∷ []))
        empty).invitations
answer_all-Inv_example =
    answer_all-Inv outside (sending ++ (accept 3000 20 "temporary" "aa" ∷ revoke 4000 hedy 11 ∷ []))
      empty empty-Inv

accept_invitation-Accepted_example :
    Post
      (Accepted outside 3000 "temporary" "bb" sent)
      (Refused 3000 "bb" sent)
      (accept_invitation outside 3000 20 "temporary" "bb" sent)
accept_invitation-Accepted_example =
    accept_invitation-Accepted outside 3000 20 "temporary" "bb" sent

accept_invitation-once_example :
    Post (λ b t. ⊥) (λ t. t ≡ done) (accept_invitation outside 9000 21 "other" "bb" done)
    × Post (λ b t. ⊥) (λ t. t ≡ done) (preview_accept_invitation outside 9000 "bb" done)
accept_invitation-once_example =
    accept_invitation-once outside 3000 9000 20 21 "temporary" "other" "bb" sent accept_test
