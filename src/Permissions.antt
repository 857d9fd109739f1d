-- ===== src/Permissions.antt =====
-- Who holds which permission on an advisory (advisories/permissions.py, first half). The snapshot
-- of a user's groups is computed anew at each call: within a request they do not change.
pub mod Rules
pub mod Review
pub mod Routing
pub mod Resolution
pub mod Visibility
pub mod Lifecycle
use Prim.Native.Nat.{max}
use advisoryhub.Prelude.{
  ℕ, Bool, true, false, ◌&&◌, ◌||◌, Option, none, some, List, [], ◌∷◌, map, Text, text_eq, leb,
  ◌==◌, select, if◌then◌else◌, is_some,
}
use advisoryhub.Accounts.{Actor, Account, Group, Project}
use advisoryhub.Advisory.{Advisory}
use advisoryhub.Tasks.{
  Permission, PermissionName, named, other, PrincipalType, AdvisoryAccessGrant, viewer,
  collaborator, owner,
}
use advisoryhub.Db.{Db}

-- `_RANK`
abbrev pub rank : Permission → ℕ
rank viewer = 1
rank collaborator = 2
rank owner = 3

-- `_RANK.get(name, 0)`
abbrev pub rank_or_zero : PermissionName → ℕ
rank_or_zero (named p) = rank p
rank_or_zero (other t) = 0

pub record GroupState : Type 0 where
  pub pks : List ℕ
  pub is_admin : Bool

unfoldable pub contains : ℕ → List ℕ → Bool
contains k [] = false
contains k (x ∷ xs) = x == k || contains k xs

any_named : Text → List Group → Bool
any_named t [] = false
any_named t (g ∷ gs) = text_eq g.name t || any_named t gs

unfoldable pub group_state : Db → Actor → GroupState
unfolding any_named
group_state db (Actor.account u) = record {
  pks = map (λ (g : Group). g.pk) u.groups;
  is_admin = any_named db.settings.oidc_admin_group u.groups;
}
group_state db _ = record { pks = []; is_admin = false }

unfoldable pub is_global_admin : Db → Actor → Bool
unfolding group_state
is_global_admin db (Actor.account u) = (group_state db (Actor.account u)).is_admin
is_global_admin db _ = false

unfoldable pub is_security_team_member : Db → Actor → Project → Bool
unfolding group_state contains
is_security_team_member db (Actor.account u) p =
    contains p.security_team_id (group_state db (Actor.account u)).pks
is_security_team_member db _ p = false

unfoldable pub is_mature_publisher_member : Db → Actor → Project → Bool
is_mature_publisher_member db by p =
    if p.is_mature_publisher then is_security_team_member db by p else false

matches_principal : ℕ → List ℕ → PrincipalType → ℕ → Bool
unfolding contains
matches_principal user_pk group_ids PrincipalType.user id = id == user_pk
matches_principal user_pk group_ids PrincipalType.group id = contains id group_ids

-- `models_user_or_group_filter`
unfoldable pub user_or_group_filter : ℕ → List ℕ → AdvisoryAccessGrant → Bool
unfolding matches_principal
user_or_group_filter user_pk group_ids g =
    matches_principal user_pk group_ids g.principal_type g.principal_id

max_rank : List AdvisoryAccessGrant → ℕ
max_rank [] = 0
max_rank (g ∷ gs) = max (rank_or_zero g.permission) (max_rank gs)

-- The grants of an advisory that name the user or one of its groups.
unfoldable pub applies_to : Db → Account → Advisory → AdvisoryAccessGrant → Bool
unfolding user_or_group_filter group_state
applies_to db u a g =
    g.advisory == a.pk && user_or_group_filter u.pk (group_state db (Actor.account u)).pks g

-- `_explicit_grant_rank`, for a user with a primary key
unfoldable pub explicit_grant_rank : Db → Account → Advisory → ℕ
unfolding max_rank applies_to
explicit_grant_rank db u a = max_rank (select (applies_to db u a) db.grants)

abbrev pub granted : ℕ → Option Permission
granted n =
    if leb (rank collaborator) n
    then some collaborator
    else if leb (rank viewer) n
    then some viewer
    else none

unfoldable pub resolved_permission : Db → Actor → Advisory → Option Permission
resolved_permission db (Actor.account u) a =
    if is_global_admin db (Actor.account u)
    then some owner
    else if is_security_team_member db (Actor.account u) a.project
    then some owner
    else granted (explicit_grant_rank db u a)
resolved_permission db _ a = none

abbrev pub is_owner : Option Permission → Bool
is_owner (some owner) = true
is_owner _ = false

abbrev pub at_least_collaborator : Option Permission → Bool
at_least_collaborator none = false
at_least_collaborator (some p) = leb (rank collaborator) (rank p)

-- `require_advisory_permission`: the level that a view asks for.
pub has_advisory_permission : Db → Actor → Advisory → Permission → Bool
unfolding resolved_permission
has_advisory_permission db by a level = elim (resolved_permission db by a) [
  | none ↦ false
  | some p ↦ leb (rank level) (rank p)
]

pub can_view : Db → Actor → Advisory → Bool
can_view db by a = is_some (resolved_permission db by a)
