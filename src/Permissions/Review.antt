-- ===== src/Permissions/Review.antt =====
-- The predicates on review, publication and withdrawal (advisories/permissions.py).
use advisoryhub.Prelude.{Bool, true, false, not, is_some, is_none, if◌then◌else◌}
use advisoryhub.Accounts.{Actor, Project}
use advisoryhub.Advisory.{
  Advisory, is_triage, is_draft, is_published, is_dismissed, is_submitted, is_approved,
  is_ghsa_linked,
}
use advisoryhub.Db.{Db}
use advisoryhub.Permissions.{
  resolved_permission, is_owner, is_global_admin, is_security_team_member,
  is_mature_publisher_member,
}

unfoldable pub can_submit_for_review : Db → Actor → Advisory → Bool
can_submit_for_review db by a =
    if is_ghsa_linked a.kind
    then false
    else if is_global_admin db by
    then false
    else if not (is_owner (resolved_permission db by a))
    then false
    else if not (is_draft a.state)
    then false
    else if is_submitted a.review_status
    then false
    else true

unfoldable pub can_review : Db → Actor → Bool
can_review db by = is_global_admin db by

pub can_revoke_approval : Db → Actor → Advisory → Bool
can_revoke_approval db by a =
    if is_ghsa_linked a.kind
    then false
    else if not (is_global_admin db by)
    then false
    else is_approved a.review_status

-- `Advisory.is_mature_publisher_eligible_review_status`
pub is_mature_publisher_eligible_review_status : Advisory → Bool
is_mature_publisher_eligible_review_status a =
    if is_approved a.review_status then true else a.project.is_mature_publisher

unfoldable pub can_publish : Db → Actor → Advisory → Bool
unfolding is_mature_publisher_eligible_review_status
can_publish db by a =
    if is_dismissed a.state
    then false
    else if is_triage a.state
    then false
    else if is_submitted a.review_status
    then false
    else if is_global_admin db by
    then true
    else if is_ghsa_linked a.kind
    then false
    else if not (is_security_team_member db by a.project)
    then false
    else if is_mature_publisher_eligible_review_status a
    then true
    else is_mature_publisher_member db by a.project

unfoldable pub can_withdraw_published : Db → Actor → Advisory → Bool
can_withdraw_published db by a =
    if not (is_published a.state)
    then false
    else if is_global_admin db by
    then true
    else if not (is_security_team_member db by a.project)
    then false
    else is_mature_publisher_member db by a.project

unfoldable pub can_request_withdrawal : Db → Actor → Advisory → Bool
can_request_withdrawal db by a =
    if not (is_published a.state)
    then false
    else if is_some a.withdrawal_requested_at
    then false
    else if is_global_admin db by
    then false
    else if not (is_security_team_member db by a.project)
    then false
    else not (is_mature_publisher_member db by a.project)

pub can_cancel_withdrawal_request : Db → Actor → Advisory → Bool
can_cancel_withdrawal_request db by a =
    if is_none a.withdrawal_requested_at
    then false
    else if is_global_admin db by
    then true
    else is_security_team_member db by a.project

pub can_approve_withdrawal : Db → Actor → Advisory → Bool
can_approve_withdrawal db by a =
    if is_none a.withdrawal_requested_at then false else is_global_admin db by

unfoldable pub can_withdraw_review : Db → Actor → Advisory → Bool
can_withdraw_review db by a =
    if is_ghsa_linked a.kind
    then false
    else if is_global_admin db by
    then false
    else if not (is_owner (resolved_permission db by a))
    then false
    else is_submitted a.review_status

pub can_create_advisory_for_project : Db → Actor → Project → Bool
can_create_advisory_for_project db by p =
    if is_global_admin db by then true else is_security_team_member db by p
