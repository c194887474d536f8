-- ===== src/Invitations/Reachable.antt =====
-- Every request keeps the bound on pending invitations.
use academia_backend_api.Base.{
  ℕ, String, Option, some, List, [], ◌∷◌, ◌≡◌, refl, arith, sym, subst, update, Run, Post, returns,
  read, Post-pure, Post-bind, Post-then, Post-require_row, Post-throw_if, Post-throw_when,
  Post-return_if, Post-write, Post-write_last, Post-transaction, Post-map, Post-after, Post-guard,
  effects, after,
}
use academia_backend_api.Accounts.{Principal}
use academia_backend_api.Invitations.Schema.{
  Db, Invitation, Outside, has_id, pending_for, expire, revoke_by,
}
use academia_backend_api.Invitations.Sending.{
  Delivery, dispatched, failed, Draft, audited, new_invitation, insert_invitation, replace_pending,
  create_invitation,
}
use academia_backend_api.Invitations.Accept.{
  accepted_now, preview_accept_invitation, accept_invitation,
}
use academia_backend_api.Invitations.Outcome.{
  Refused, untouched, late, accept_invitation-Accepted, open_invitation-Open,
}
use academia_backend_api.Invitations.Manage.{require_inviter, revoke_invitation, resend_invitation}
use academia_backend_api.Invitations.Pending.{Inv, update-Inv, closing, replaced-Inv}
use academia_backend_api.Invitations.System.{
  Request, create, preview, accept, revoke, resend, answer, answer_all,
}

-- The run keeps the bound, whether it returns or throws.
abbrev Keeps {ℓ} : {A : Type ℓ} → Run Db A → Type ℓ
Keeps r = Post (λ a s. Inv s.invitations) (λ s. Inv s.invitations) r

audited-Inv :
    (out : Outside) (now id : ℕ) (delivery : Delivery) (is : List Invitation)
    → Inv is
    → Inv (update (has_id id) (audited out now delivery) is)
audited-Inv out now id dispatched is v = update-Inv _ _ is (λ x. refl) (λ t e r d x h. h) v
audited-Inv out now id (failed m) is v = update-Inv _ _ is (λ x. refl) (λ t e r d x h. h) v

replace_pending-Inv :
    (now : ℕ) (new : Invitation) (db : Db) → Inv db.invitations → Keeps (replace_pending now new db)
unfolding replace_pending insert_invitation
replace_pending-Inv now new db v =
    let cleared =
      update-Inv (pending_for new.tenant_id new.email new.role_id new.department_id)
        (revoke_by now new.invited_by_id) db.invitations (λ x. refl)
        (closing (revoke_by now new.invited_by_id) (λ x. refl)) v in
    Post-write _ _ _ (
      Post-throw_when _ _ _ cleared
        λ unused. Post-write_last _ _ (replaced-Inv now new db.invitations (ground arith) v))

read-Keeps : {A : Type 0} (g : Db → A) (db : Db) → Inv db.invitations → Keeps (read g db)
unfolding read
read-Keeps g db v = returns v

create_invitation-Inv :
    (out : Outside) (now fresh : ℕ) (token : String) (days : Option ℕ) (delivery : Delivery)
    (d : Draft) (db : Db)
    → Inv db.invitations
    → Keeps (create_invitation out now fresh token days delivery d db)
unfolding create_invitation
create_invitation-Inv out now fresh token days delivery d db v =
    Post-require_row _ _ _ v λ role found.
      Post-then _ _ _
        (Post-transaction _ _ v
          (replace_pending-Inv now (new_invitation out now fresh token days role.id d) db v))
        λ t w.
          Post-write _ _ _ (read-Keeps _ _ (audited-Inv out now fresh delivery t.invitations w))

late-Inv :
    (now : ℕ) (token : String) (db s : Db)
    → Inv db.invitations
    → Refused now token db s
    → Inv s.invitations
late-Inv now token db s v (untouched e) = subst (λ t. Inv t.invitations) (sym e) v
late-Inv now token db s v (late i found pending past e) =
    subst (λ t. Inv t.invitations) (sym e)
      (update-Inv _ expire db.invitations (λ x. refl) (closing expire (λ x. refl)) v)

preview-Inv :
    (out : Outside) (now : ℕ) (token : String) (db : Db)
    → Inv db.invitations
    → Keeps (preview_accept_invitation out now token db)
unfolding preview_accept_invitation
preview-Inv out now token db v =
    Post-bind _ _ _
      (Post-map (open_invitation-Open now token db)
        (λ i s o. subst (λ t. Inv t.invitations) (sym o.same) v)
        (λ s r. late-Inv now token db s v r))
      λ i s w. Post-throw_if _ _ w λ named. Post-pure _ _ w

accept-Inv :
    (out : Outside) (now fresh : ℕ) (password token : String) (db : Db)
    → Inv db.invitations
    → Keeps (accept_invitation out now fresh password token db)
accept-Inv out now fresh password token db v =
    Post-map (accept_invitation-Accepted out now fresh password token db)
      (λ a s k. subst Inv (sym k.invitations) (
        update-Inv _ (accepted_now now) db.invitations (λ x. refl)
          (closing (accepted_now now) (λ x. refl)) v))
      (λ s r. late-Inv now token db s v r)

after-require_inviter : (user : Principal) (db : Db) → after (require_inviter user db) ≡ db
unfolding effects require_inviter
after-require_inviter user db = ground arith

revoked-Inv :
    (now who id : ℕ) (db : Db)
    → Inv db.invitations
    → Inv (update (has_id id) (revoke_by now (some who)) db.invitations)
revoked-Inv now who id db v =
    update-Inv _ (revoke_by now (some who)) db.invitations (λ x. refl)
      (closing (revoke_by now (some who)) (λ x. refl)) v

revoke-Inv :
    (now : ℕ) (user : Principal) (id : ℕ) (db : Db)
    → Inv db.invitations
    → Keeps (revoke_invitation now user id db)
unfolding revoke_invitation
revoke-Inv now user id db v = Post-guard _ _ (after-require_inviter user db) v λ inviter valid.
    Post-require_row _ _ _ v λ i found. Post-throw_if _ _ v λ unaccepted.
      Post-return_if _ _ _ _ (λ done. Post-pure _ _ v)
        λ open_. Post-write _ _ _ (Post-pure _ _ (revoked-Inv now inviter.0 i.id db v))

resend-Inv :
    (out : Outside) (now fresh : ℕ) (token : String) (days : Option ℕ) (delivery : Delivery)
    (user : Principal) (id : ℕ) (db : Db)
    → Inv db.invitations
    → Keeps (resend_invitation out now fresh token days delivery user id db)
unfolding resend_invitation
resend-Inv out now fresh token days delivery user id db v =
    Post-guard _ _ (after-require_inviter user db) v λ inviter valid.
      Post-require_row _ _ _ v λ i found. Post-throw_if _ _ v λ unaccepted.
        Post-throw_if _ _ v λ unrevoked.
          let w = revoked-Inv now inviter.0 i.id db v in
          Post-write _ _ _ (
            Post-require_row _ _ _ w λ role known.
              Post-throw_if _ _ w
                λ named. create_invitation-Inv out now fresh token days delivery _ _ w)

answer-Inv :
    (out : Outside) (r : Request) (db : Db) → Inv db.invitations → Inv (answer out r db).invitations
unfolding answer
answer-Inv out (create now fresh token days delivery d) db v =
    Post-after (create_invitation-Inv out now fresh token days delivery d db v)
answer-Inv out (preview now token) db v = Post-after (preview-Inv out now token db v)
answer-Inv out (accept now fresh password token) db v =
    Post-after (accept-Inv out now fresh password token db v)
answer-Inv out (revoke now user id) db v = Post-after (revoke-Inv now user id db v)
answer-Inv out (resend now fresh token days delivery user id) db v =
    Post-after (resend-Inv out now fresh token days delivery user id db v)

-- Whatever invitations are created, previewed, accepted, revoked and sent again, there is at most one
-- pending invitation of an address to a role in a department of a tenant, and no token stands twice. This
-- holds where it held at first.
pub answer_all-Inv :
    (out : Outside) (rs : List Request) (db : Db)
    → Inv db.invitations
    → Inv (answer_all out rs db).invitations
unfolding answer_all
answer_all-Inv out [] db v = v
answer_all-Inv out (r ∷ rs) db v = answer_all-Inv out rs (answer out r db) (answer-Inv out r db v)
