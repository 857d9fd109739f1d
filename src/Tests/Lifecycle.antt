-- ===== src/Tests/Lifecycle.antt =====
-- Dismissal, reopening and versions at concrete rows.
use advisoryhub.Prelude.{
  ◌≡◌, refl, not, false, true, exists_row, some, codes, inr, [], ◌∷◌, strip, arith,
}
use advisoryhub.Accounts.{Actor}
use advisoryhub.Advisory.{Advisory, ReviewStatus, State}
use advisoryhub.Db.{Db, Returns, Post}
use advisoryhub.Lifecycle.Dismissal.{dismiss_advisory}
use advisoryhub.Lifecycle.Cascade.Dismissed.{Closed, Ready, dismiss_advisory-Closed}
use advisoryhub.Lifecycle.Cycle.{IsAt, reopen_advisory-IsAt, dismiss-reopen}
use advisoryhub.Lifecycle.Reopen.{reopen_advisory}
use advisoryhub.Lifecycle.Reopen.Conflict.{find}
use advisoryhub.Lifecycle.Edit.{apply_advisory_edit}
use advisoryhub.Lifecycle.Edit.Outcome.{Edited, find as find_edited, apply_advisory_edit_outcome}
use advisoryhub.Lifecycle.Reopen.Restored.{reopen_advisory-orphan, reopen_advisory-twofold}
use advisoryhub.Workflows.Cve.{is_open_request}
use advisoryhub.Tasks.{CveRequestStatus}
use advisoryhub.Permissions.{
  is_global_admin, group_state, resolved_permission, is_security_team_member, contains,
}
use advisoryhub.Permissions.Rules.{can_reopen, can_unassign_cve, can_request_cve}
use advisoryhub.Publication.{Export}
use advisoryhub.Versions.{record_advisory_version}
use advisoryhub.Versions.History.{Recorded, record_advisory_version_outcome}
use advisoryhub.Tests.Data.{
  request, published, admin, member, busy, busy_db, draft, dismissed, with_rows, ending, orphan,
}

busy-Ready : Ready busy (Actor.account admin) busy_db
unfolding can_unassign_cve is_global_admin group_state
busy-Ready = ((omega arith, refl, tt), (omega arith, refl, tt), refl, omega arith, inr (refl, refl))

dismiss_advisory-Closed_example :
    Returns
      (dismiss_advisory 7 (Actor.account admin) (codes "duplicate") busy_db)
      (Closed 7 (some State.draft))
unfolding strip
dismiss_advisory-Closed_example =
    dismiss_advisory-Closed busy (Actor.account admin) (codes "duplicate") busy_db refl refl refl
      busy-Ready

reopen_advisory-IsAt_example :
    Post
      (reopen_advisory (ending (Export.pushed [])) 7 (Actor.account admin) (with_rows dismissed))
      (λ _ db'. IsAt 7 State.triage db')
reopen_advisory-IsAt_example =
    reopen_advisory-IsAt (ending (Export.pushed [])) 7 dismissed (Actor.account admin)
      (with_rows dismissed) refl refl

dismiss-reopen_example :
    Returns (dismiss_advisory 7 (Actor.account admin) (codes "duplicate") busy_db) (λ _ db'.
      (by' : Actor)
      → Post
          (reopen_advisory (ending (Export.pushed [])) 7 by' db')
          (λ _ db''. IsAt 7 State.draft db''))
unfolding strip
dismiss-reopen_example =
    dismiss-reopen (ending (Export.pushed [])) busy (Actor.account admin) (codes "duplicate")
      busy_db refl refl (inr refl) busy-Ready

record_advisory_version_outcome_example :
    Returns
      (record_advisory_version busy (Actor.account member) true busy_db)
      (Recorded busy (Actor.account member) true busy_db)
record_advisory_version_outcome_example =
    record_advisory_version_outcome busy (Actor.account member) true busy_db

-- A dismissed draft whose CVE was orphaned, and whose later request for another one was cancelled.
abbrev put_away : Advisory
put_away = record draft { state = State.dismissed; dismissed_from_state = some State.draft }

abbrev away_db : Db
away_db = record (with_rows put_away) { orphans = orphan ∷ [] }

may_reopen : can_reopen away_db (Actor.account member) put_away ≡ true
unfolding can_reopen resolved_permission is_global_admin is_security_team_member group_state
    contains
may_reopen = refl

reopen_advisory-orphan_example :
    Returns
      (reopen_advisory (ending (Export.pushed [])) 7 (Actor.account member) away_db)
      (λ r db'. (r.assigned_cve_id ≡ orphan.cve_id) × (find 7 db' ≡ some r))
reopen_advisory-orphan_example =
    (reopen_advisory-orphan (ending (Export.pushed [])) put_away (Actor.account member) orphan
        away_db refl may_reopen refl refl refl refl refl refl).0
      refl

-- An approved and published advisory, edited by a member of its security team.
abbrev approved : Advisory
approved = record published { review_status = ReviewStatus.approved }

apply_advisory_edit_outcome_example :
    Returns
      (apply_advisory_edit approved (Actor.account member) false false (with_rows approved))
      (λ r db'.
        (r.approval_invalidated ≡ not (is_global_admin (with_rows approved) (Actor.account member)))
        × ((x : Advisory) × (find_edited 7 db' ≡ some x)
            × Edited (with_rows approved) (Actor.account member) approved x))
apply_advisory_edit_outcome_example =
    apply_advisory_edit_outcome approved approved (Actor.account member) false false
      (with_rows approved) refl

abbrev twofold_db : Db
twofold_db = record away_db {
  cve_requests = record request { status = CveRequestStatus.cancelled } ∷ [];
}

reopen_advisory-twofold_example :
    Returns
      (reopen_advisory (ending (Export.pushed [])) 7 (Actor.account member) twofold_db)
      (λ r db'.
        (r.assigned_cve_id ≡ orphan.cve_id)
        × (find 7 db' ≡ some r)
        × (exists_row (is_open_request 7) db'.cve_requests ≡ true))
unfolding can_reopen can_request_cve resolved_permission is_global_admin is_security_team_member
    group_state contains
reopen_advisory-twofold_example =
    reopen_advisory-twofold (ending (Export.pushed [])) put_away (Actor.account member) orphan
      twofold_db refl refl refl refl refl refl refl refl refl refl refl refl refl
