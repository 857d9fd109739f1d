-- ===== src/Permissions/Rules.antt =====
-- The predicates on comments, editing and CVE requests (advisories/permissions.py).
use advisoryhub.Prelude.{
  Bool, true, false, not, ◌&&◌, ◌||◌, Option, none, some, is_blank, ◌==◌, exists_row, if◌then◌else◌,
  is_none,
}
use advisoryhub.Accounts.{Actor, Project}
use advisoryhub.Advisory.{
  Advisory, Intake, is_triage, is_published, is_dismissed, is_submitted, is_from_published,
}
use advisoryhub.Tasks.{CveRequestTask, is_queued_request}
use advisoryhub.Db.{Db}
use advisoryhub.Permissions.{
  resolved_permission, is_owner, at_least_collaborator, is_global_admin, is_security_team_member,
  is_mature_publisher_member,
}

pub can_see_user_emails : Db → Actor → Advisory → Bool
can_see_user_emails db by a = is_owner (resolved_permission db by a)

unfoldable pub can_comment : Db → Actor → Advisory → Bool
can_comment db by a =
    if is_none (resolved_permission db by a)
    then false
    else if a.comments_locked
    then is_owner (resolved_permission db by a)
    else true

unfoldable pub can_lock_comments : Db → Actor → Advisory → Bool
can_lock_comments db by a = is_owner (resolved_permission db by a)

unfoldable pub can_post_internal_comment : Db → Actor → Advisory → Bool
can_post_internal_comment db by a = at_least_collaborator (resolved_permission db by a)

pub can_see_internal_comment : Db → Actor → Advisory → Bool
unfolding can_post_internal_comment
can_see_internal_comment db by a = can_post_internal_comment db by a

-- `intake is not None and intake.needs_admin_routing`
abbrev pub needs_routing : Option Intake → Bool
needs_routing none = false
needs_routing (some i) = i.needs_admin_routing

unfoldable pub can_edit : Db → Actor → Advisory → Bool
can_edit db by a =
    if is_dismissed a.state
    then false
    else if not (at_least_collaborator (resolved_permission db by a))
    then false
    else if is_triage a.state && not (is_owner (resolved_permission db by a))
    then false
    else if is_triage a.state && needs_routing a.intake && not (is_global_admin db by)
    then false
    else if is_submitted a.review_status && not (is_global_admin db by)
    then false
    else true

pub can_change_project : Db → Actor → Advisory → Project → Bool
can_change_project db by a new_project =
    if not (is_owner (resolved_permission db by a))
    then false
    else if is_global_admin db by
    then true
    else is_security_team_member db by new_project

pub can_grant_access : Db → Actor → Advisory → Bool
can_grant_access db by a = is_owner (resolved_permission db by a)

-- `advisory.cve_requests.filter(status=QUEUED)`
abbrev pub is_open_request_of : Advisory → CveRequestTask → Bool
is_open_request_of a t = t.advisory == a.pk && is_queued_request t.status

unfoldable pub can_request_cve : Db → Actor → Advisory → Bool
can_request_cve db by a =
    if is_triage a.state || is_dismissed a.state
    then false
    else if not (is_owner (resolved_permission db by a))
    then false
    else if a.cve_requests_banned
    then false
    else if not (is_blank a.assigned_cve_id)
    then false
    else not (exists_row (is_open_request_of a) db.cve_requests)

unfoldable pub can_unassign_cve : Db → Actor → Bool
can_unassign_cve db by = is_global_admin db by

pub can_manage_orphan_cves : Db → Actor → Bool
can_manage_orphan_cves db by = is_global_admin db by

pub can_dismiss : Db → Actor → Advisory → Bool
can_dismiss db by a =
    if not (is_owner (resolved_permission db by a))
    then false
    else if is_published a.state
    then false
    else if not (is_blank a.assigned_cve_id) && not (is_global_admin db by)
    then false
    else true

unfoldable pub can_reopen : Db → Actor → Advisory → Bool
can_reopen db by a =
    if not (is_dismissed a.state)
    then false
    else if is_from_published a.dismissed_from_state
    then (if is_global_admin db by
        then true
        else if not (is_security_team_member db by a.project)
        then false
        else is_mature_publisher_member db by a.project)
    else is_owner (resolved_permission db by a)
