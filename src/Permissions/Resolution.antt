-- ===== src/Permissions/Resolution.antt =====
-- What `resolved_permission` answers (advisories/permissions.py).
use advisoryhub.Prelude.{
  ℕ, suc, ◌≡◌, ◌↔◌, ◌⊎◌, Bool, true, ◌&&◌, ◌||◌, none, some, List, [], ◌∷◌, ◌==◌, leb, select,
  exists_row, map, Text, text_eq, refl, ap, if◌then◌else◌, arith,
}
use advisoryhub.Accounts.{Actor, Account, Group}
use advisoryhub.Advisory.{Advisory}
use advisoryhub.Tasks.{Permission, viewer, collaborator, owner, AdvisoryAccessGrant, PrincipalType}
use advisoryhub.Db.{Db}
use advisoryhub.Permissions.{
  rank, rank_or_zero, max_rank, explicit_grant_rank, applies_to, is_global_admin,
  is_security_team_member, resolved_permission, contains, any_named, matches_principal,
  user_or_group_filter, group_state,
}

module _ (p : AdvisoryAccessGrant → Bool) (k : ℕ) where
  -- The highest rank reaches `k + 1` just if one row does.
  leb-max_rank :
      (gs : List AdvisoryAccessGrant)
      → leb (suc k) (max_rank (select p gs))
        ≡ exists_row (λ g. p g && leb (suc k) (rank_or_zero g.permission)) gs
  unfolding max_rank
  leb-max_rank [] = ground arith
  leb-max_rank (g ∷ gs) = ground (arith, leb-max_rank gs)

abbrev pub has_applicable : Db → Account → Advisory → Permission → Bool
has_applicable db u a level =
    exists_row (λ g. applies_to db u a g && leb (rank level) (rank_or_zero g.permission)) db.grants

-- The answer by the grants that apply.
pub resolved_permission_lem :
    (db : Db) (u : Account) (a : Advisory)
    → resolved_permission db (Actor.account u) a ≡ (
        if is_global_admin db (Actor.account u)
          || is_security_team_member db (Actor.account u) a.project
        then some owner
        else if has_applicable db u a collaborator
        then some collaborator
        else if has_applicable db u a viewer
        then some viewer
        else none)
unfolding resolved_permission explicit_grant_rank
resolved_permission_lem db u a = ground (
  arith,
  leb-max_rank (applies_to db u a) 1 db.grants,
  leb-max_rank (applies_to db u a) 0 db.grants,
)

-- A principal of a grant is the user, or one of the user's groups.
abbrev pub is_principal : Account → PrincipalType → ℕ → Bool
is_principal u PrincipalType.user id = id == u.pk
is_principal u PrincipalType.group id = exists_row (λ g. g.pk == id) u.groups

-- Some grant on the advisory that names the user, or a group of the user's, gives `level` or more.
abbrev pub has_grant : Db → Account → Advisory → Permission → Bool
has_grant db u a level =
    exists_row
      (λ g.
        g.advisory == a.pk
        && is_principal u g.principal_type g.principal_id
        && leb (rank level) (rank_or_zero g.permission))
      db.grants

contains_lem :
    (k : ℕ) (gs : List Group)
    → contains k (map (λ (g : Group). g.pk) gs) ≡ exists_row (λ g. g.pk == k) gs
unfolding contains
contains_lem k [] = refl
contains_lem k (g ∷ gs) = ground (arith, contains_lem k gs)

any_named_lem :
    (t : Text) (gs : List Group) → any_named t gs ≡ exists_row (λ g. text_eq g.name t) gs
unfolding any_named
any_named_lem t [] = refl
any_named_lem t (g ∷ gs) = ground (arith, any_named_lem t gs)

applies_to_lem :
    (db : Db) (u : Account) (a : Advisory) (g : AdvisoryAccessGrant)
    → applies_to db u a g ≡ g.advisory == a.pk && is_principal u g.principal_type g.principal_id
unfolding applies_to user_or_group_filter matches_principal group_state
applies_to_lem db u a g = go g.principal_type
  where
    go :
        (p : PrincipalType)
        → g.advisory == a.pk
            && matches_principal u.pk (map (λ (g : Group). g.pk) u.groups) p g.principal_id
          ≡ g.advisory == a.pk && is_principal u p g.principal_id
    go PrincipalType.user = refl
    go PrincipalType.group =
        ap (λ b. g.advisory == a.pk && b) (contains_lem g.principal_id u.groups)

has_grant_lem :
    (db : Db) (u : Account) (a : Advisory) (level : Permission) (gs : List AdvisoryAccessGrant)
    → exists_row (λ g. applies_to db u a g && leb (rank level) (rank_or_zero g.permission)) gs
      ≡ exists_row
          (λ g.
            g.advisory == a.pk
            && is_principal u g.principal_type g.principal_id
            && leb (rank level) (rank_or_zero g.permission))
          gs
has_grant_lem db u a level [] = refl
has_grant_lem db u a level (g ∷ gs) =
    ground (arith, applies_to_lem db u a g, has_grant_lem db u a level gs)

-- A user's permission, as the rows give it, is owner if one of the user's groups has the name of the
-- administrators' group or is the security team of the advisory's project; else collaborator if some
-- grant on that advisory, to the user or to one of its groups, reaches that rank; else viewer if
-- some such grant reaches that; else there is none.
pub resolved_permission_iff_grants :
    (db : Db) (u : Account) (a : Advisory)
    → resolved_permission db (Actor.account u) a ≡ (
        if exists_row (λ g. text_eq g.name db.settings.oidc_admin_group) u.groups
          || exists_row (λ g. g.pk == a.project.security_team_id) u.groups
        then some owner
        else if has_grant db u a collaborator
        then some collaborator
        else if has_grant db u a viewer
        then some viewer
        else none)
unfolding is_global_admin is_security_team_member group_state
resolved_permission_iff_grants db u a = ground (
  arith,
  any_named_lem db.settings.oidc_admin_group u.groups,
  contains_lem a.project.security_team_id u.groups,
  has_grant_lem db u a collaborator db.grants,
  has_grant_lem db u a viewer db.grants,
  resolved_permission_lem db u a,
)

-- Owner is derived and never granted: a caller of any kind is owner exactly when it is a global
-- admin or a member of the security team of the advisory's project, whatever grants there are.
pub owner_iff :
    (db : Db) (by : Actor) (a : Advisory)
    → (resolved_permission db by a ≡ some owner)
      ↔ ((is_global_admin db by ≡ true) ⊎ (is_security_team_member db by a.project ≡ true))
unfolding resolved_permission is_global_admin is_security_team_member
owner_iff db Actor.nobody a = ground arith
owner_iff db Actor.anonymous a = ground arith
owner_iff db (Actor.account u) a = ground arith
