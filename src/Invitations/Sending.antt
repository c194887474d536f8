-- ===== src/Invitations/Sending.antt =====
-- `createInvitation` of invitations.service.ts. What became of the mail is an argument.
use academia_backend_api.Base.{
  ℕ, zero, suc, ◌+◌, ◌*◌, String, ◌||◌, Option, none, some, [], ◌∷◌, ◌++◌, find, update, exists,
  or_else, bad_request_with, database_error, M, ◌>>=◌, ◌>>◌, require_row, throw_when, read, write,
  transaction,
}
use academia_backend_api.Invitations.Schema.{
  Db, Invitation, InvitationStatus, Outside, has_id, has_token, pending_for, role_named,
  set_invitations, revoke_by,
}

-- The mail was handed over, or the last attempt failed with a message.
pub data Delivery : Type 0 where
  dispatched : Delivery
  failed : String → Delivery

-- The configured number of days, or seven where it is missing or zero.
abbrev pub expiry_days : Option ℕ → ℕ
expiry_days none = 7
expiry_days (some zero) = 7
expiry_days (some (suc n)) = suc n

abbrev pub expiry_time : Option ℕ → ℕ
expiry_time days = expiry_days days * 86400000

-- What the caller of `createInvitation` gives.
pub record Draft : Type 0 where
  pub tenant_id : ℕ
  pub department_id : Option ℕ
  pub email : String
  pub invitee_first_name : String
  pub invitee_last_name : String
  pub role_name : String
  pub invited_by_admin_id : Option ℕ

-- The identifier and the token are unique.
unfoldable pub insert_invitation : Invitation → M Db (Unit {0})
insert_invitation new = do
  throw_when
      (λ db. exists (has_id new.id) db.invitations || exists (has_token new.token) db.invitations)
      database_error
  write (set_invitations (λ is. is ++ (new ∷ [])))

unfoldable pub replace_pending : ℕ → Invitation → M Db (Unit {0})
replace_pending now new = do
  write (
      set_invitations (
        update (pending_for new.tenant_id new.email new.role_id new.department_id)
          (revoke_by now new.invited_by_id)))
  insert_invitation new

module _ (out : Outside) where
  -- The audit columns after the mail.
  abbrev pub audited : ℕ → Delivery → Invitation → Invitation
  audited now dispatched i = record i {
    last_sent_at = some now;
    send_count = i.send_count + 1;
    last_send_error = none;
  }
  audited now (failed message) i = record i { last_send_error = some (out.clip message) }

  abbrev pub new_invitation : ℕ → ℕ → String → Option ℕ → ℕ → Draft → Invitation
  new_invitation now fresh token days role_id d = record {
    id = fresh;
    tenant_id = d.tenant_id;
    department_id = d.department_id;
    email = out.lower d.email;
    invitee_first_name = some (out.trim d.invitee_first_name);
    invitee_last_name = some (out.trim d.invitee_last_name);
    role_id = role_id;
    token = token;
    status = InvitationStatus.pending;
    expires_at = now + expiry_time days;
    invited_by_id = d.invited_by_admin_id;
    accepted_at = none;
    revoked_at = none;
    revoked_by_id = none;
    last_sent_at = none;
    send_count = 0;
    last_send_error = none;
  }

  -- Returns the invitation as it is stored at the end.
  unfoldable pub create_invitation : ℕ → ℕ → String → Option ℕ → Delivery → Draft → M Db Invitation
  create_invitation now fresh token days delivery d = do
    role ← require_row (role_named d.role_name) (bad_request_with "Role not found" d.role_name)
    transaction (replace_pending now (new_invitation now fresh token days role.id d))
    write (set_invitations (update (has_id fresh) (audited now delivery)))
    read (λ db.
        or_else (find (has_id fresh) db.invitations)
          (new_invitation now fresh token days role.id d))
