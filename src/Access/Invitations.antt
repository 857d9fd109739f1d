-- ===== src/Access/Invitations.antt =====
-- Invitations by email and their redemption at login (access/services.py, second half;
-- access/models.py).
pub mod Redemption
pub mod Login
pub mod Roundtrip
use advisoryhub.Prelude.{
  ℕ, ◌+◌, Bool, true, false, not, ◌&&◌, Option, none, some, List, [], ◌∷◌, Text, text_eq, is_blank,
  strip, leb, oldest_row, select, modify_row, delete_row, if◌then◌else◌, is_some,
}
use advisoryhub.Accounts.{Actor, Account, actor_or_none, stored_actor}
use advisoryhub.Tasks.{PermissionName, PrincipalType, AdvisoryAccessGrant, PendingInvitation}
use advisoryhub.Db.{
  Action, Db, M, ok, Message, ◌>>=◌, ◌>>◌, pure, gets, modify, take_pk, record_action, on_commit,
}
use advisoryhub.Access.{
  Principal, validate_grantable_permission, same_permission, set_grant, grant_to_user,
}

-- `timedelta(days=14)`, in microseconds
abbrev pub lifetime : ℕ
lifetime = 1209600000000

-- `_default_invitation_expiry`
abbrev pub default_invitation_expiry : Db → ℕ
default_invitation_expiry db = db.now + lifetime

-- `PendingInvitation.is_expired`
pub is_expired : ℕ → PendingInvitation → Bool
is_expired now i = leb i.expires_at now

-- `PendingInvitation.is_pending`
abbrev pub is_pending : ℕ → PendingInvitation → Bool
is_pending now i = not (is_some i.redeemed_at) && not (is_expired now i)

abbrev pub invitation_key : PendingInvitation → ℕ
invitation_key i = i.pk

abbrev pub write_invitation : ℕ → (PendingInvitation → PendingInvitation) → M (Unit {0})
write_invitation pk f =
    modify (λ db. record db { invitations = modify_row invitation_key pk f db.invitations })

abbrev pub with_permission : PermissionName → PendingInvitation → PendingInvitation
with_permission p i = record i { permission = p }

abbrev pub with_expiry : ℕ → PendingInvitation → PendingInvitation
with_expiry t i = record i { expires_at = t }

abbrev pub redeemed : ℕ → Account → PendingInvitation → PendingInvitation
redeemed now u i = record i { redeemed_at = some now; redeemed_by = some u.pk }

pub update_invitation_permission : PendingInvitation → PermissionName → Actor → M PendingInvitation
unfolding record_action
update_invitation_permission i p by = do
  validate_grantable_permission p
  if same_permission i.permission p
      then pure i
      else write_invitation i.pk (with_permission p)
        >> record_action Action.invitation_created by i.advisory
        >> pure (with_permission p i)

pub revoke_invitation : PendingInvitation → Actor → M (Unit {0})
unfolding record_action
revoke_invitation i by = do
  record_action Action.invitation_revoked by i.advisory
  modify (λ db. record db { invitations = delete_row invitation_key i.pk db.invitations })

pub resend_invitation : PendingInvitation → Actor → M (Unit {0})
unfolding record_action on_commit
resend_invitation i by db =
    if is_some i.redeemed_at
    then pure tt db
    else (do
      write_invitation i.pk (with_expiry (default_invitation_expiry db))
      record_action Action.invitation_resent by i.advisory
      on_commit (Message.send_invitation_email i.pk))
        db

abbrev pub redeem : Account → ℕ → PendingInvitation → M AdvisoryAccessGrant
redeem u now i = do
  grant ← grant_to_user i.advisory u.pk i.permission (stored_actor i.created_by)
  write_invitation i.pk (redeemed now u)
  record_action Action.invitation_redeemed (Actor.account u) i.advisory
  pure grant

-- `for invite in pending`
pub redeem_each : Account → ℕ → List PendingInvitation → M (List AdvisoryAccessGrant)
unfolding grant_to_user record_action
redeem_each u now [] = pure []
redeem_each u now (i ∷ is) =
    let rest = redeem_each u now is in
    if is_expired now i
    then rest
    else (do grant ← redeem u now i; grants ← rest; pure (grant ∷ grants))

-- `upper` is the case folding of the database's `iexact`.
module _ (upper : Text → Text) where
  -- `email__iexact`
  abbrev pub iexact : Text → Text → Bool
  iexact s t = text_eq (upper s) (upper t)

  abbrev pub new_invitation : ℕ → Text → PermissionName → Actor → ℕ → Db → PendingInvitation
  new_invitation advisory email p by pk db = record {
    pk = pk;
    advisory = advisory;
    email = email;
    permission = p;
    expires_at = default_invitation_expiry db;
    created_by = actor_or_none by;
    redeemed_at = none;
    redeemed_by = none;
  }

  abbrev pub create_invitation : ℕ → Text → PermissionName → Actor → M PendingInvitation
  create_invitation advisory email p by = do
    pk ← take_pk
    invitation ← gets (new_invitation advisory email p by pk)
    modify (λ db. record db { invitations = invitation ∷ db.invitations })
    record_action Action.invitation_created by advisory
    pure invitation

  -- The instance that is not saved: it has no primary key, for which 0 stands.
  abbrev pub transient : ℕ → Text → PermissionName → Account → Db → PendingInvitation
  transient advisory email p u db = record (new_invitation advisory email p Actor.nobody 0 db) {
    redeemed_at = some db.now;
    redeemed_by = some u.pk;
  }

  abbrev pub grant_or_invite :
      ℕ → Text → PermissionName → Actor → Option Account → M PendingInvitation
  grant_or_invite advisory email p by (some u) = do
    grant_to_user advisory u.pk p by
    gets (transient advisory email p u)
  grant_or_invite advisory email p by none = create_invitation advisory email p by

  pub invite_email : ℕ → Text → PermissionName → Actor → M PendingInvitation
  unfolding record_action grant_to_user
  invite_email advisory email p by = do
    validate_grantable_permission p
    existing ← gets (λ db. oldest_row (λ (u : Account). iexact u.email (strip email)) db.users)
    grant_or_invite advisory (strip email) p by existing

  abbrev pub is_unredeemed_for : Account → PendingInvitation → Bool
  is_unredeemed_for u i = iexact i.email u.email && not (is_some i.redeemed_at)

  -- `scan` is the order in which the database answers a query that asks for none.
  module _ (scan : List PendingInvitation → List PendingInvitation) where
    pub redeem_invitations_for_user : Account → M (List AdvisoryAccessGrant)
    unfolding redeem_each
    redeem_invitations_for_user u db =
        if is_blank u.email
        then ok [] db
        else redeem_each u db.now (scan (select (is_unredeemed_for u) db.invitations)) db
