-- ===== src/Access.antt =====
-- Granting and revoking access to an advisory (access/services.py, first half). An advisory is
-- named by its primary key; `unique_together` holds of the grants, so that a query by principal has
-- one answer at most.
pub mod Rows
pub mod Refine
pub mod Invitations
use advisoryhub.Prelude.{
  ℕ, Bool, true, false, ◌&&◌, Option, none, some, ◌∷◌, Text, text_eq, ◌==◌, oldest_row, modify_row,
  delete_row, if◌then◌else◌,
}
use advisoryhub.Accounts.{Actor, actor_or_none}
use advisoryhub.Tasks.{
  Permission, PermissionName, named, other, PrincipalType, AdvisoryAccessGrant, viewer,
  collaborator, owner,
}
use advisoryhub.Db.{
  Action, Db, M, Error, ◌>>=◌, ◌>>◌, pure, raise, gets, modify, take_pk, record_action,
}

-- `Permission.values`, and the refusal of "owner"
abbrev pub is_grantable : PermissionName → Bool
is_grantable (named viewer) = true
is_grantable (named collaborator) = true
is_grantable _ = false

-- `_validate_grantable_permission`
abbrev pub validate_grantable_permission : PermissionName → M (Unit {0})
validate_grantable_permission (named owner) = raise Error.value_error
validate_grantable_permission (other name) = raise Error.value_error
validate_grantable_permission (named _) = pure tt

abbrev pub same_level : Permission → Permission → Bool
same_level viewer viewer = true
same_level collaborator collaborator = true
same_level owner owner = true
same_level _ _ = false

-- `==` on the strings
abbrev pub same_permission : PermissionName → PermissionName → Bool
same_permission (named p) (named q) = same_level p q
same_permission (other s) (other t) = text_eq s t
same_permission _ _ = false

abbrev pub same_type : PrincipalType → PrincipalType → Bool
same_type PrincipalType.user PrincipalType.user = true
same_type PrincipalType.group PrincipalType.group = true
same_type _ _ = false

-- An advisory and a principal: what a grant is unique by.
pub record Principal : Type 0 where
  pub advisory : ℕ
  pub principal_type : PrincipalType
  pub principal_id : ℕ

abbrev pub same_principal : Principal → Principal → Bool
same_principal k j =
    k.advisory == j.advisory
    && same_type k.principal_type j.principal_type
    && k.principal_id == j.principal_id

abbrev pub principal_of : AdvisoryAccessGrant → Principal
principal_of g = record {
  advisory = g.advisory;
  principal_type = g.principal_type;
  principal_id = g.principal_id;
}

-- `filter(advisory=…, principal_type=…, principal_id=…)`
abbrev pub is_for : Principal → AdvisoryAccessGrant → Bool
is_for k g = same_principal (principal_of g) k

abbrev pub set_permission : PermissionName → AdvisoryAccessGrant → AdvisoryAccessGrant
set_permission p g = record g { permission = p }

abbrev pub new_grant : Principal → PermissionName → Actor → ℕ → AdvisoryAccessGrant
new_grant k p by pk = record {
  pk = pk;
  advisory = k.advisory;
  principal_type = k.principal_type;
  principal_id = k.principal_id;
  permission = p;
  created_by = actor_or_none by;
}

-- `AdvisoryAccessGrant.objects.create`
abbrev pub create_grant : Principal → PermissionName → Actor → M AdvisoryAccessGrant
create_grant k p by = do
  pk ← take_pk
  modify (λ db. record db { grants = new_grant k p by pk ∷ db.grants })
  record_action Action.access_granted by k.advisory
  pure (new_grant k p by pk)

abbrev pub update_grant :
    Principal → PermissionName → Actor → AdvisoryAccessGrant → M AdvisoryAccessGrant
update_grant k p by g = do
  modify (λ db. record db {
    grants = modify_row (λ (g : AdvisoryAccessGrant). g.pk) g.pk (set_permission p) db.grants;
  })
  record_action Action.access_granted by k.advisory
  pure (set_permission p g)

-- The three ways on from the query for an existing row.
abbrev pub create_or_update :
    Principal → PermissionName → Actor → Option AdvisoryAccessGrant → M AdvisoryAccessGrant
create_or_update k p by none = create_grant k p by
create_or_update k p by (some g) =
    if same_permission g.permission p then pure g else update_grant k p by g

-- `_set_grant`
pub set_grant : Principal → PermissionName → Actor → M AdvisoryAccessGrant
unfolding record_action
set_grant k p by = do
  validate_grantable_permission p
  existing ← gets (λ db. oldest_row (is_for k) db.grants)
  create_or_update k p by existing

pub grant_to_user : ℕ → ℕ → PermissionName → Actor → M AdvisoryAccessGrant
grant_to_user advisory user permission by =
    set_grant
      (record { advisory = advisory; principal_type = PrincipalType.user; principal_id = user })
      permission by

pub grant_to_group : ℕ → ℕ → PermissionName → Actor → M AdvisoryAccessGrant
grant_to_group advisory group permission by =
    set_grant
      (record { advisory = advisory; principal_type = PrincipalType.group; principal_id = group })
      permission by

pub revoke : AdvisoryAccessGrant → Actor → M (Unit {0})
unfolding record_action
revoke g by = do
  record_action Action.access_revoked by g.advisory
  modify
      (λ db. record db { grants = delete_row (λ (g : AdvisoryAccessGrant). g.pk) g.pk db.grants })
