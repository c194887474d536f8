-- ===== src/Invitations/Manage.antt =====
-- `revokeInvitation` and `resendInvitation` of tenant.service.ts.
use academia_backend_api.Base.{
  ℕ, String, Bool, true, false, not, ◌&&◌, Option, some, ◌==◌, same_option, find, update,
  bad_request, not_found, unauthorized_access, insufficient_permissions, database_error, M, ◌>>=◌,
  ◌>>◌, pure, throw_if, require, require_row, return_if, write,
}
use academia_backend_api.Accounts.{
  Principal, TenantClaim, absent, tenant, department_head, includes,
}
use academia_backend_api.Invitations.Schema.{
  Db, Invitation, Outside, is_accepted, is_revoked, has_id, role_of, set_invitations, revoke_by,
}
use academia_backend_api.Invitations.Accept.{name_given, is_nameless, is_member}
use academia_backend_api.Invitations.Sending.{Delivery, create_invitation}

abbrev pub no_claim : TenantClaim → Bool
no_claim absent = true
no_claim _ = false

abbrev pub claims : TenantClaim → ℕ → Bool
claims (tenant t) id = id == t
claims _ id = false

-- The department head who calls, and the department.
unfoldable pub require_inviter : Principal → M Db (ℕ × ℕ)
require_inviter user = do
  throw_if (no_claim user.tenant_id) unauthorized_access
  throw_if (not (includes department_head user.roles))
      (insufficient_permissions "Insufficient permissions")
  sub ← require user.sub database_error
  inviter ←
      require_row (λ db. find (is_member sub) db.users)
        (bad_request "Inviter is not assigned to a department")
  department_id ←
      require inviter.department_id (bad_request "Inviter is not assigned to a department")
  pure (inviter.id, department_id)

abbrev pub in_department : Principal → ℕ → ℕ → Invitation → Bool
in_department user department_id invitation_id i =
    i.id == invitation_id
    && claims user.tenant_id i.tenant_id
    && same_option i.department_id (some department_id)

-- Answers with the invitation.
unfoldable pub revoke_invitation : ℕ → Principal → ℕ → M Db Invitation
revoke_invitation now user invitation_id = do
  inviter ← require_inviter user
  i ←
      require_row (λ db. find (in_department user inviter.1 invitation_id) db.invitations)
        (not_found "Invitation not found")
  throw_if (is_accepted i.status) (bad_request "Cannot revoke an accepted invitation")
  return_if (is_revoked i.status) (pure i) (do
    write (set_invitations (update (has_id i.id) (revoke_by now (some inviter.0))))
    pure (revoke_by now (some inviter.0) i))

module _ (out : Outside) where
  unfoldable pub resend_invitation :
      ℕ → ℕ → String → Option ℕ → Delivery → Principal → ℕ → M Db Invitation
  resend_invitation now fresh token days delivery user invitation_id = do
    inviter ← require_inviter user
    i ←
        require_row (λ db. find (in_department user inviter.1 invitation_id) db.invitations)
          (not_found "Invitation not found")
    throw_if (is_accepted i.status) (bad_request "Cannot resend an accepted invitation")
    throw_if (is_revoked i.status) (bad_request "Cannot resend a revoked invitation")
    write (set_invitations (update (has_id i.id) (revoke_by now (some inviter.0))))
    role ← require_row (role_of i.role_id) (bad_request "Invitation role is missing")
    throw_if (is_nameless out i) (bad_request "Invitation is missing invitee name")
    create_invitation out now fresh token days delivery (record {
      tenant_id = i.tenant_id;
      department_id = i.department_id;
      email = i.email;
      invitee_first_name = name_given out i.invitee_first_name;
      invitee_last_name = name_given out i.invitee_last_name;
      role_name = role.name;
      invited_by_admin_id = some inviter.0;
    })
