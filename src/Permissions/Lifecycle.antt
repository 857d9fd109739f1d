-- ===== src/Permissions/Lifecycle.antt =====
-- How the predicates fit together over an advisory's life (advisories/permissions.py).
use advisoryhub.Prelude.{◌≡◌, ◌≢◌, ◌↔◌, ◌⊎◌, true, false, not, none, some, arith}
use advisoryhub.Accounts.{Actor, Project, same_project}
use advisoryhub.Advisory.{Advisory, Intake, State, ReviewStatus, Kind}
use advisoryhub.Tasks.{owner}
use advisoryhub.Db.{Db}
use advisoryhub.Permissions.{
  resolved_permission, is_global_admin, is_security_team_member, is_mature_publisher_member,
  can_view,
}
use advisoryhub.Permissions.Resolution.{owner_iff}
use advisoryhub.Permissions.Rules.{
  can_comment, can_lock_comments, can_edit, can_request_cve, can_post_internal_comment,
}
use advisoryhub.Permissions.Review.{
  can_submit_for_review, can_review, can_publish, can_withdraw_published, can_request_withdrawal,
  can_withdraw_review,
}
use advisoryhub.Permissions.Routing.{
  can_triage, can_flag_for_admin_routing, can_accept_reassignment_suggestion,
  can_resolve_reassignment, can_request_reassignment,
}

-- A caller may publish exactly when the advisory is a draft or published, no review is pending, and
-- it is a global admin, or the advisory is native, the caller is on the project's security team,
-- and the review is approved or the project is a mature publisher.
pub can_publish_iff :
    (db : Db) (by : Actor) (a : Advisory)
    → (can_publish db by a ≡ true) ↔ (
        ((a.state ≡ State.draft) ⊎ (a.state ≡ State.published))
        × (a.review_status ≢ ReviewStatus.submitted)
        × ((is_global_admin db by ≡ true)
            ⊎ ((a.kind ≡ Kind.native)
                × (is_security_team_member db by a.project ≡ true)
                × ((a.review_status ≡ ReviewStatus.approved)
                    ⊎ (a.project.is_mature_publisher ≡ true)))))
unfolding can_publish is_mature_publisher_member
can_publish_iff db by a = ground arith

-- Who may submit an advisory for review or withdraw its review may not decide a review; and while a
-- review is pending nobody may publish the advisory or submit it again, and only a global admin may
-- edit it.
pub review_separation :
    (db : Db) (by : Actor) (a : Advisory)
    → (can_submit_for_review db by a ≡ true → can_review db by ≡ false)
      × (can_withdraw_review db by a ≡ true → can_review db by ≡ false)
      × (a.review_status ≡ ReviewStatus.submitted
          → (can_publish db by a ≡ false)
            × (can_submit_for_review db by a ≡ false)
            × (can_edit db by a ≡ true → is_global_admin db by ≡ true))
unfolding can_submit_for_review can_withdraw_review can_review can_publish can_edit
review_separation db by a = ground arith

-- A published advisory with no pending request: an owner either may withdraw it or may request
-- its withdrawal, and never both; who is no owner may do neither.
pub withdrawal_paths :
    (db : Db) (by : Actor) (a : Advisory)
    → a.state ≡ State.published
    → a.withdrawal_requested_at ≡ none
    → (resolved_permission db by a ≡ some owner
        → can_withdraw_published db by a ≡ not (can_request_withdrawal db by a))
      × (resolved_permission db by a ≢ some owner
          → (can_withdraw_published db by a ≡ false) × (can_request_withdrawal db by a ≡ false))
unfolding can_withdraw_published can_request_withdrawal is_mature_publisher_member
withdrawal_paths db by a s w = ground (arith, owner_iff db by a)

-- Accepting the suggested project and resolving the request onto it are the same decision, where
-- the suggestion is another project than the current one.
pub accept-eq-resolve :
    (db : Db) (by : Actor) (a : Advisory) (target : Project)
    → a.reassignment_suggested_project ≡ some target
    → same_project target a.project ≡ false
    → can_accept_reassignment_suggestion db by a
      ≡ can_resolve_reassignment db by a a.reassignment_suggested_project
unfolding can_accept_reassignment_suggestion can_resolve_reassignment
accept-eq-resolve db by a target s n = rw s (ground arith)

-- A dismissed advisory is frozen for every caller: no edit, no publication, no CVE request, no
-- triage, no submission, no reassignment request, no withdrawal.
pub dismissed_frozen :
    (db : Db) (by : Actor) (a : Advisory)
    → a.state ≡ State.dismissed
    → (can_edit db by a ≡ false)
      × (can_publish db by a ≡ false)
      × (can_request_cve db by a ≡ false)
      × (can_triage db by a ≡ false)
      × (can_submit_for_review db by a ≡ false)
      × (can_request_reassignment db by a ≡ false)
      × (can_withdraw_published db by a ≡ false)
unfolding can_edit can_publish can_request_cve can_triage can_submit_for_review
    can_request_reassignment can_withdraw_published
dismissed_frozen db by a s = ground arith

-- While an advisory is flagged for admin routing, who may edit it, triage it or flag it is a global
-- admin, if the advisory is in triage.
pub routing_lock :
    (db : Db) (by : Actor) (a : Advisory) (intake : Intake)
    → a.state ≡ State.triage
    → a.intake ≡ some intake
    → intake.needs_admin_routing ≡ true
    → (can_edit db by a ≡ true → is_global_admin db by ≡ true)
      × (can_triage db by a ≡ true → is_global_admin db by ≡ true)
      × (can_flag_for_admin_routing db by a ≡ false)
unfolding can_edit can_triage can_flag_for_admin_routing
routing_lock db by a intake s i n = ground arith

-- Comments: who may view an advisory may comment on it, but while comments are locked only an owner
-- may; who may lock them may always comment; who may post an internal comment may view.
pub comment_access :
    (db : Db) (by : Actor) (a : Advisory)
    → (can_comment db by a ≡ true → can_view db by a ≡ true)
      × (a.comments_locked ≡ false → can_comment db by a ≡ can_view db by a)
      × (a.comments_locked ≡ true → can_comment db by a ≡ can_lock_comments db by a)
      × (can_lock_comments db by a ≡ true → can_comment db by a ≡ true)
      × (can_post_internal_comment db by a ≡ true → can_view db by a ≡ true)
unfolding can_comment can_lock_comments can_view can_post_internal_comment
comment_access db by a = ground arith
