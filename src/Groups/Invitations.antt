-- ===== src/Groups/Invitations.antt =====
-- `inviteStudentToMyGroup`, `acceptInvitationByToken` and `rejectInvitationByToken` of
-- project-group.service.ts. `trim` and `lower` are JavaScript's `trim` and `toLowerCase`; `token`
-- and `fresh` are what `randomBytes` and the database draw, `now` and `sent` the two readings of the
-- clock. The e-mail that is sent at the end changes no table, and its failure is caught.
use academia_backend_api.Base.{
  ℕ, ◌+◌, ◌*◌, String, Bool, true, false, not, ◌&&◌, Option, none, some, ◌∷◌, ◌==◌, leb,
  if◌then◌else◌, same_option, bad_request, bad_request_with, database_error, find, exists, M, ◌>>=◌,
  ◌>>◌, pure, throw, when_then_throw, return_if, require_row, throw_if, throw_when, read, write,
  transaction,
}
use text.Mathlib.Text.{◌==◌ as str_eq}
use academia_backend_api.Accounts.{Principal, User, student, includes}
use academia_backend_api.Groups.Schema.{
  Db, ProjectGroup, GroupInvitation, InvitationStatus, is_draft, invitation_pending,
  invitation_status_text,
}
use academia_backend_api.Groups.Access.{Actor, find_user_by_id, require_approved_group_leader}
use academia_backend_api.Groups.Queries.{
  find_group, find_by_leader_user_id, user_is_member_of_any_group, count_group_members,
  department_max_group_size, add_member, count_active_pending_invites,
  find_active_pending_invite_for_user, update_invitation_status, revoke_user_invitations,
  is_invitation,
}
use academia_backend_api.Groups.JoinRequests.{is_some, is_full}

-- `!invitedUser || invitedUser.deletedAt`
abbrev present_user : Option User → Option User
present_user none = none
present_user (some u) = if is_some u.deleted_at then none else some u

-- What the handler asks of the invited user; the answer is the user's e-mail address.
unfoldable pub require_invitable : Actor → ℕ → M Db User
require_invitable actor user_id = do
  invited ←
      require_row (λ db. present_user (find_user_by_id user_id db))
        (bad_request "Invited student not found")
  throw_if
      (not (
        invited.tenant_id == actor.tenant_id
        && same_option invited.department_id (some actor.department_id)))
      (bad_request "Invited student must be in the same department")
  throw_if (not (includes student invited.roles)) (bad_request "Invited user is not a student")
  throw_when (λ db. is_some (find_by_leader_user_id invited.id db))
      (bad_request "Invited student is already a group leader")
  throw_when (user_is_member_of_any_group invited.id)
      (bad_request "Invited student has already joined a group")
  pure invited

pub record InvitationAnswer : Type 0 where
  pub id : ℕ
  pub status : InvitationStatus
  pub expires_at : ℕ
  pub already_sent : Bool

-- Three days.
abbrev pub invitation_lifetime : ℕ
invitation_lifetime = 3 * 24 * 60 * 60 * 1000

abbrev pub has_token : String → GroupInvitation → Bool
has_token token i = str_eq i.token token

-- `reservedSize >= maxGroupSize`
abbrev pub is_reserved : ℕ → ProjectGroup → Db → Bool
is_reserved now g db =
    leb (department_max_group_size db.size_settings g.department_id)
      (1 + count_group_members g.id db + count_active_pending_invites now g.id db)

abbrev pub new_invitation : ℕ → ProjectGroup → ℕ → String → String → ℕ → GroupInvitation
new_invitation fresh g user_id email token expires_at = record {
  id = fresh;
  tenant_id = g.tenant_id;
  department_id = g.department_id;
  project_group_id = g.id;
  leader_user_id = g.leader_user_id;
  invited_user_id = user_id;
  invited_email = email;
  token = token;
  status = InvitationStatus.pending;
  expires_at = expires_at;
  decided_at = none;
}

-- `createInvitation`; the schema makes `id` and `token` unique
unfoldable pub create_invitation : GroupInvitation → M Db (Unit {0})
create_invitation i = do
  throw_when (λ db. exists (is_invitation i.id) db.invitations) database_error
  throw_when (λ db. exists (has_token i.token) db.invitations) database_error
  write λ db. record db { invitations = i ∷ db.invitations }

module _ (lower : String → String) (fresh now sent : ℕ) (token : String) where
  -- The end of the handler: answer with the open invitation, or send one.
  unfoldable pub send_invitation :
      ProjectGroup → User → Option GroupInvitation → M Db InvitationAnswer
  send_invitation g invited (some i) =
      pure (record { id = i.id; status = i.status; expires_at = i.expires_at; already_sent = true })
  send_invitation g invited none = do
    throw_when (is_reserved now g) (bad_request "Group has reached the maximum size")
    create_invitation
        (new_invitation fresh g invited.id (lower invited.email) token (sent + invitation_lifetime))
    pure (record {
      id = fresh;
      status = InvitationStatus.pending;
      expires_at = sent + invitation_lifetime;
      already_sent = false;
    })

  unfoldable pub invite_student : Principal → ℕ → M Db InvitationAnswer
  unfolding send_invitation
  invite_student user invited_user_id = do
    actor ← require_approved_group_leader user
    throw_if (invited_user_id == actor.id) (bad_request "You cannot invite yourself")
    g ←
        require_row (find_by_leader_user_id actor.id)
          (bad_request "Group not found for this group leader")
    throw_if (not (is_draft g.status)) (bad_request "Group is not accepting invitations")
    invited ← require_invitable actor invited_user_id
    pending ← read (find_active_pending_invite_for_user now g.id invited.id)
    send_invitation g invited pending

abbrev pub is_accepted : InvitationStatus → Bool
is_accepted InvitationStatus.accepted = true
is_accepted _ = false

abbrev pub is_rejected_invitation : InvitationStatus → Bool
is_rejected_invitation InvitationStatus.rejected = true
is_rejected_invitation _ = false

-- `const token = (params.token ?? '').trim(); if (!token) throw …`
unfoldable pub require_token : (String → String) → Option String → M Db String
require_token trim none = throw (bad_request "token is required")
require_token trim (some t) =
    return_if (str_eq (trim t) "") (throw (bad_request "token is required")) (pure (trim t))

abbrev pub find_invitation_by_token : String → Db → Option GroupInvitation
find_invitation_by_token token db = find (has_token token) db.invitations

abbrev pub is_expired : ℕ → GroupInvitation → Bool
is_expired now i = leb i.expires_at now

-- The part of the transaction that runs for a pending invitation.
unfoldable pub accept_pending : ℕ → GroupInvitation → ProjectGroup → M Db ℕ
accept_pending now i g = do
  when_then_throw (λ db. is_expired now i)
      (update_invitation_status i.id InvitationStatus.expired now)
      (bad_request "Invitation has expired")
  when_then_throw (user_is_member_of_any_group i.invited_user_id)
      (update_invitation_status i.id InvitationStatus.revoked now)
      (bad_request "Student has already joined a group")
  when_then_throw (λ db. is_some (find_by_leader_user_id i.invited_user_id db))
      (update_invitation_status i.id InvitationStatus.revoked now)
      (bad_request "Student is already a group leader")
  throw_when (is_full g) (bad_request "Group is full")
  add_member i.project_group_id i.invited_user_id
  write (update_invitation_status i.id InvitationStatus.accepted now)
  write (revoke_user_invitations now i.invited_user_id (is_invitation i.id))
  pure i.project_group_id

unfoldable pub accept_in_transaction : ℕ → String → M Db ℕ
accept_in_transaction now token = do
  i ← require_row (find_invitation_by_token token) (bad_request "Invalid invitation token")
  g ← require_row (find_group i.project_group_id) database_error
  throw_if (not (is_draft g.status)) (bad_request "Group is not accepting invitations")
  return_if (is_accepted i.status) (pure i.project_group_id) do
    throw_if (not (invitation_pending i.status))
        (bad_request_with "Invitation is" (invitation_status_text i.status))
    accept_pending now i g

-- The answer's `groupId`.
unfoldable pub accept_invitation : (String → String) → ℕ → Option String → M Db ℕ
accept_invitation trim now given_token = do
  token ← require_token trim given_token
  transaction (accept_in_transaction now token)

unfoldable pub reject_in_transaction : ℕ → String → M Db ℕ
reject_in_transaction now token = do
  i ← require_row (find_invitation_by_token token) (bad_request "Invalid invitation token")
  g ← require_row (find_group i.project_group_id) database_error
  throw_if (not (is_draft g.status)) (bad_request "Group is not accepting invitations")
  return_if (is_rejected_invitation i.status) (pure i.project_group_id) do
    throw_if (not (invitation_pending i.status))
        (bad_request_with "Invitation is" (invitation_status_text i.status))
    when_then_throw (λ db. is_expired now i)
        (update_invitation_status i.id InvitationStatus.expired now)
        (bad_request "Invitation has expired")
    write (update_invitation_status i.id InvitationStatus.rejected now)
    pure i.project_group_id

unfoldable pub reject_invitation : (String → String) → ℕ → Option String → M Db ℕ
reject_invitation trim now given_token = do
  token ← require_token trim given_token
  transaction (reject_in_transaction now token)
