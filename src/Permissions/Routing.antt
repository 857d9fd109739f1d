-- ===== src/Permissions/Routing.antt =====
-- The predicates on triage, routing, reassignment and GHSA actions (advisories/permissions.py).
use advisoryhub.Prelude.{
  Bool, true, false, not, ◌&&◌, ◌||◌, Option, none, some, exists_row, is_some, is_none,
  if◌then◌else◌,
}
use advisoryhub.Accounts.{Actor, Project, Repository, same_project, is_unsorted}
use advisoryhub.Advisory.{Advisory, is_triage, is_draft, is_ghsa_linked}
use advisoryhub.Db.{Db}
use advisoryhub.Permissions.{
  resolved_permission, is_owner, is_global_admin, is_security_team_member,
}
use advisoryhub.Permissions.Rules.{needs_routing}

unfoldable pub can_triage : Db → Actor → Advisory → Bool
can_triage db by a =
    if not (is_triage a.state)
    then false
    else if is_ghsa_linked a.kind
    then false
    else if needs_routing a.intake && not (is_global_admin db by)
    then false
    else is_owner (resolved_permission db by a)

unfoldable pub can_flag_for_admin_routing : Db → Actor → Advisory → Bool
can_flag_for_admin_routing db by a =
    if not (is_triage a.state)
    then false
    else if is_ghsa_linked a.kind
    then false
    else if is_unsorted a.project
    then false
    else if needs_routing a.intake
    then false
    else if is_global_admin db by
    then false
    else is_owner (resolved_permission db by a)

pub can_clear_admin_routing_flag : Db → Actor → Advisory → Bool
can_clear_admin_routing_flag db by a =
    if not (is_triage a.state)
    then false
    else if is_unsorted a.project
    then false
    else is_owner (resolved_permission db by a)

pub can_reassign_triage : Db → Actor → Advisory → Bool
can_reassign_triage db by a =
    if not (is_triage a.state)
    then false
    else if is_ghsa_linked a.kind
    then false
    else is_global_admin db by

unfoldable pub can_request_reassignment : Db → Actor → Advisory → Bool
can_request_reassignment db by a =
    if not (is_draft a.state)
    then false
    else if is_ghsa_linked a.kind
    then false
    else if is_some a.reassignment_requested_at
    then false
    else if is_global_admin db by
    then false
    else is_owner (resolved_permission db by a)

pub can_withdraw_reassignment_request : Db → Actor → Advisory → Bool
can_withdraw_reassignment_request db by a =
    if is_none a.reassignment_requested_at
    then false
    else if is_global_admin db by
    then true
    else is_owner (resolved_permission db by a)

-- Authority at the destination.
abbrev pub has_authority_on : Db → Actor → Project → Bool
has_authority_on db by p = if is_global_admin db by then true else is_security_team_member db by p

can_accept_onto : Db → Actor → Option Project → Bool
can_accept_onto db by none = false
can_accept_onto db by (some target) = has_authority_on db by target

unfoldable pub can_accept_reassignment_suggestion : Db → Actor → Advisory → Bool
unfolding can_accept_onto
can_accept_reassignment_suggestion db by a =
    if is_none a.reassignment_requested_at
    then false
    else can_accept_onto db by a.reassignment_suggested_project

can_resolve_onto : Db → Actor → Advisory → Option Project → Bool
can_resolve_onto db by a none = false
can_resolve_onto db by a (some target) =
    if same_project target a.project then false else has_authority_on db by target

unfoldable pub can_resolve_reassignment : Db → Actor → Advisory → Option Project → Bool
unfolding can_resolve_onto
can_resolve_reassignment db by a new_project =
    if is_none a.reassignment_requested_at then false else can_resolve_onto db by a new_project

pub can_pick_reassignment_target : Db → Actor → Advisory → Bool
can_pick_reassignment_target db by a =
    if is_none a.reassignment_requested_at then false else is_global_admin db by

-- `filter(soft_removed_at__isnull=True, pvr_enabled=True)`
accepts_reports : Repository → Bool
accepts_reports r = is_none r.soft_removed_at && r.pvr_enabled

pub can_move_to_ghsa : Db → Actor → Advisory → Bool
unfolding accepts_reports
can_move_to_ghsa db by a =
    if not db.settings.ghsa_feature_enabled
    then false
    else if is_ghsa_linked a.kind
    then false
    else if not (is_triage a.state || is_draft a.state)
    then false
    else if not (is_owner (resolved_permission db by a))
    then false
    else exists_row accepts_reports a.project.github_repositories
