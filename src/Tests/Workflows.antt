-- ===== src/Tests/Workflows.antt =====
-- The CVE and review workflows at concrete rows.
use advisoryhub.Prelude.{
  ℕ, ◌≤◌, ◌≡◌, ◌≢◌, refl, none, some, false, codes, blank, [], ◌∷◌, get_row, arith, exists_row,
}
use advisoryhub.Accounts.{Actor}
use advisoryhub.Advisory.{ReviewStatus}
use advisoryhub.Tasks.{CveRequestStatus, OrphanCveStatus}
use advisoryhub.Db.{Db, Error, Returns, Post, err, Action, save_advisory, record_action, on_commit}
use advisoryhub.Permissions.{
  is_global_admin, is_security_team_member, group_state, resolved_permission, contains,
}
use advisoryhub.Permissions.Review.{can_review, can_submit_for_review}
use advisoryhub.Permissions.Rules.{can_request_cve}
use advisoryhub.Versions.{latest_version}
use advisoryhub.Workflows.{is_cve_id}
use advisoryhub.Workflows.Cve.{request_cve, transition_cve_request}
use advisoryhub.Workflows.Cve.Requests.{
  open_requests, request_cve_outcome, transition_cve_request-open,
}
use advisoryhub.Workflows.Cve.Decision.{reserve_outcome, Has, Reserved, request_key}
use advisoryhub.Workflows.Orphan.{orphan_cve, reassign_orphan_cve, without_cve, holds_elsewhere}
use advisoryhub.Workflows.Orphan.Receipts.{
  find_advisory, orphan_cve_outcome, reassign_orphan_cve_outcome, reassigned_orphan_again,
}
use advisoryhub.Workflows.Review.{
  submit_for_review, create_review_task, cancel_pending_review, withdrawn_task, close_open_review,
  save_review_task,
}
use advisoryhub.Workflows.Review.Pending.{find, open_reviews}
use advisoryhub.Workflows.Review.Steps.{ReviewStep, cancel}
use advisoryhub.Workflows.Review.Runs.{Sound, Reaches-Sound, start, next}
use advisoryhub.Tests.Data.{
  admin, member, draft, busy, published, busy_db, with_rows, orphan, orphan_db, request, review,
}

request_cve_outcome_example :
    Returns (request_cve draft (Actor.account member) (with_rows draft)) (λ t db'.
      (t.advisory ≡ 7)
      × (t.status ≡ CveRequestStatus.queued)
      × (open_requests 7 db' ≡ 1)
      × ((k : ℕ) → k ≢ 7 → open_requests k db' ≡ open_requests k (with_rows draft)))
unfolding can_request_cve resolved_permission is_global_admin is_security_team_member group_state
    contains
request_cve_outcome_example =
    (request_cve_outcome draft (Actor.account member) (with_rows draft)).0 refl

transition_cve_request-open_example :
    Post
      (transition_cve_request request
        (Actor.account admin)
        CveRequestStatus.rejected
        none
        (some (codes "no"))
        false
        busy_db)
      (λ t db'. open_requests 7 db' ≤ open_requests 7 busy_db)
transition_cve_request-open_example =
    transition_cve_request-open request (Actor.account admin) CveRequestStatus.rejected none
      (some (codes "no")) false busy_db 7

reserve_outcome_example :
    Returns
      (transition_cve_request request
        (Actor.account admin)
        CveRequestStatus.reserved
        (some (codes "CVE-2025-0001"))
        none
        false
        busy_db)
      (λ t db'.
        (t.status ≡ CveRequestStatus.reserved)
        × (t.cve_id ≡ codes "CVE-2025-0001")
        × (t.finished_at ≡ some 5000000000)
        × Has (find 7 db') (Reserved busy (codes "CVE-2025-0001"))
        × (get_row request_key 11 db'.cve_requests ≡ some t))
unfolding can_review is_global_admin group_state is_cve_id
reserve_outcome_example =
    (reserve_outcome request (Actor.account admin) (codes "CVE-2025-0001") none busy_db refl refl
        refl).0
      2 busy refl refl refl

orphan_cve_outcome_example :
    Returns
      (orphan_cve published (Actor.account admin) (codes "dup") (with_rows published))
      (λ r db'.
        (r.0.cve_id ≡ codes "CVE-2025-0001")
        × (r.0.status ≡ OrphanCveStatus.orphaned)
        × (db'.orphans ≡ r.0 ∷ [])
        × (r.1.assigned_cve_id ≡ blank)
        × (find_advisory 7 db' ≡ some (without_cve published published)))
orphan_cve_outcome_example =
    (orphan_cve_outcome published (Actor.account admin) (codes "dup") (with_rows published)).0 refl

reassign_orphan_cve_outcome_example :
    Post (reassign_orphan_cve orphan (Actor.account admin) draft orphan_db) (λ held db'.
      (draft.assigned_cve_id ≡ blank)
      × (held.assigned_cve_id ≡ orphan.cve_id)
      × (exists_row (holds_elsewhere orphan.cve_id 7) orphan_db.advisories ≡ false)
      × (find_advisory 7 db' ≡ some (record draft { assigned_cve_id = orphan.cve_id })))
reassign_orphan_cve_outcome_example =
    reassign_orphan_cve_outcome orphan (Actor.account admin) draft orphan_db

reassigned_orphan_again_example :
    Post (reassign_orphan_cve orphan (Actor.account admin) draft orphan_db) (λ held db'.
      orphan_cve held (Actor.account member) (codes "dup") db' ≡ err Error.integrity_error)
reassigned_orphan_again_example =
    reassigned_orphan_again orphan (Actor.account admin) draft orphan_db (Actor.account member)
      (codes "dup") refl

-- The rows after the open review of the busy draft is withdrawn.
abbrev settled_db : Db
settled_db = record busy_db {
  advisories = record busy { review_status = ReviewStatus.none } ∷ [];
  review_tasks = withdrawn_task 5000000000 review ∷ [];
  audit =
      record { action = Action.review_task_status_changed; actor = some 1; advisory = 7 }
      ∷ record { action = Action.advisory_review_withdrawn; actor = some 1; advisory = 7 }
      ∷ [];
}

busy-cancel : ReviewStep busy_db 7 settled_db
unfolding cancel_pending_review close_open_review save_review_task save_advisory record_action
busy-cancel = cancel busy (Actor.account admin) refl refl

Reaches-Sound_example : Sound 7 settled_db
Reaches-Sound_example =
    Reaches-Sound {k = 7} {db = busy_db} {db' = settled_db} (next start busy-cancel)
      ((omega arith, refl, tt), refl)

-- Two submissions with copies from before the first one leave two open reviews.
submitted_twice :
    Returns (submit_for_review draft (Actor.account member) (with_rows draft)) (λ _ db1.
      Returns
        (submit_for_review draft (Actor.account member) db1)
        (λ _ db2. open_reviews 7 db2 ≡ 2))
unfolding submit_for_review create_review_task can_submit_for_review resolved_permission
    is_global_admin is_security_team_member group_state contains latest_version save_advisory
    record_action on_commit
submitted_twice = refl
