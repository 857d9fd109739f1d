-- ===== src/Workflows/Review.antt =====
-- The review workflow (workflows/services.py).
pub mod Pending
pub mod Steps
pub mod Keys
pub mod Runs
use advisoryhub.Prelude.{
  ℕ, suc, Bool, true, false, not, blank, ◌&&◌, ◌||◌, Option, none, some, List, [], ◌∷◌, Text, ◌==◌,
  select, first_row, modify_row, is_some, if◌then◌else◌,
}
use advisoryhub.Accounts.{Actor, actor_or_none}
use advisoryhub.Advisory.{
  Advisory, ReviewStatus, is_draft, is_submitted, is_approved, is_changes_requested, is_unreviewed,
  is_ghsa_linked,
}
use advisoryhub.Tasks.{AdvisoryVersion, ReviewTask, ReviewTaskStatus, is_open_task}
use advisoryhub.Versions.{latest_version}
use advisoryhub.Db.{
  Db, M, Error, Action, Message, ok, err, pure, raise, or_raise, ◌>>=◌, ◌>>◌, require, require_not,
  gets, modify, take_pk, when, save_advisory, record_action, record_action_note, on_commit,
}
use advisoryhub.Permissions.{is_global_admin, is_security_team_member}
use advisoryhub.Permissions.Review.{
  can_submit_for_review, can_review, can_revoke_approval, can_withdraw_review,
}
use advisoryhub.Workflows.{load_advisory}

-- `status=OPEN` among the review tasks of one advisory
abbrev pub is_open_review : ℕ → ReviewTask → Bool
is_open_review advisory t = t.advisory == advisory && is_open_task t.status

abbrev pub set_review_status : ReviewStatus → Advisory → Advisory
set_review_status status a = record a { review_status = status }

-- `task.save(update_fields=…)`
unfoldable pub save_review_task : ℕ → (ReviewTask → ReviewTask) → M (Unit {0})
save_review_task pk f =
    modify (λ db. record db {
      review_tasks = modify_row (λ (t : ReviewTask). t.pk) pk f db.review_tasks;
    })

unfoldable pub create_review_task : ℕ → AdvisoryVersion → Actor → M ReviewTask
create_review_task advisory version by = do
  db ← gets (λ db. db)
  pk ← take_pk
  let task : ReviewTask = record {
    pk = pk;
    advisory = advisory;
    version = version.pk;
    status = ReviewTaskStatus.open_task;
    submitted_by = actor_or_none by;
    reviewer = none;
    decision_notes = blank;
    decided_at = none;
  }
  modify (λ db. record db { review_tasks = task ∷ db.review_tasks })
  pure task

unfoldable pub submit_for_review : Advisory → Actor → M ReviewTask
submit_for_review advisory by = do
  require_not (is_ghsa_linked advisory.kind) Error.permission_denied
  db ← gets (λ db. db)
  require (can_submit_for_review db by advisory) Error.permission_denied
  require (is_draft advisory.state) Error.permission_denied
  require_not (is_submitted advisory.review_status) Error.permission_denied
  version ← or_raise (latest_version advisory.pk db) Error.permission_denied
  save_advisory advisory.pk (λ a. record a {
    review_status = ReviewStatus.submitted;
    submitted_for_review_at = some db.now;
    submitted_for_review_by = actor_or_none by;
  })
  task ← create_review_task advisory.pk version by
  record_action Action.advisory_submitted_for_review by advisory.pk
  on_commit (Message.submitted_for_review advisory.pk)
  pure task

-- The two decisions, with the status that each gives the task and the advisory.
pub data Decision : Type 0 where
  approve request : Decision

abbrev pub task_status : Decision → ReviewTaskStatus
task_status approve = ReviewTaskStatus.approved
task_status request = ReviewTaskStatus.changes_requested

abbrev pub new_review_status : Decision → ReviewStatus
new_review_status approve = ReviewStatus.approved
new_review_status request = ReviewStatus.changes_requested

abbrev pub audit_action : Decision → Action
audit_action approve = Action.advisory_review_approved
audit_action request = Action.advisory_review_changes_requested

pub decided_task : ℕ → Actor → Decision → Text → ReviewTask → ReviewTask
decided_task now by decision notes t = record t {
  status = task_status decision;
  reviewer = actor_or_none by;
  decision_notes = notes;
  decided_at = some now;
}

pub decide_review : ReviewTask → Actor → Decision → Text → M ReviewTask
decide_review task by decision notes = do
  db ← gets (λ db. db)
  require (can_review db by) Error.permission_denied
  require (is_open_task task.status) Error.permission_denied
  advisory ← load_advisory task.advisory
  save_review_task task.pk (decided_task db.now by decision notes)
  save_advisory advisory.pk (set_review_status (new_review_status decision))
  record_action (audit_action decision) by advisory.pk
  record_action Action.review_task_status_changed by advisory.pk
  record_action_note advisory.pk by notes false
  pure (decided_task db.now by decision notes task)

pub approve_review : ReviewTask → Actor → Text → M ReviewTask
approve_review task by notes = decide_review task by approve notes

pub request_changes : ReviewTask → Actor → Text → M ReviewTask
request_changes task by notes = decide_review task by request notes

pub reopen_review : Advisory → Actor → M Advisory
reopen_review advisory by = do
  db ← gets (λ db. db)
  require (is_global_admin db by || is_security_team_member db by advisory.project)
      Error.permission_denied
  require (is_changes_requested advisory.review_status) Error.permission_denied
  save_advisory advisory.pk (set_review_status ReviewStatus.none)
  record_action Action.advisory_state_changed by advisory.pk
  pure (set_review_status ReviewStatus.none advisory)

pub revoke_approval : Advisory → Actor → Text → M Advisory
revoke_approval advisory by reason = do
  db ← gets (λ db. db)
  require (can_revoke_approval db by advisory) Error.permission_denied
  require (is_approved advisory.review_status) Error.permission_denied
  save_advisory advisory.pk (set_review_status ReviewStatus.none)
  record_action Action.advisory_review_approval_revoked by advisory.pk
  record_action_note advisory.pk by reason true
  pure (set_review_status ReviewStatus.none advisory)

-- `get(…)`: exactly one row, or an exception.
abbrev pub the_only : List ReviewTask → M ReviewTask
the_only [] = raise Error.does_not_exist
the_only (t ∷ []) = pure t
the_only _ = raise Error.multiple_objects_returned

abbrev pub withdrawn_task : ℕ → ReviewTask → ReviewTask
withdrawn_task now t = record t { status = ReviewTaskStatus.withdrawn; decided_at = some now }

pub withdraw_review : Advisory → Actor → M Advisory
withdraw_review advisory by = do
  db ← gets (λ db. db)
  require (can_withdraw_review db by advisory) Error.permission_denied
  require (is_submitted advisory.review_status) Error.permission_denied
  task ← the_only (select (is_open_review advisory.pk) db.review_tasks)
  save_advisory advisory.pk (set_review_status ReviewStatus.none)
  save_review_task task.pk (withdrawn_task db.now)
  record_action Action.advisory_review_withdrawn by advisory.pk
  record_action Action.review_task_status_changed by advisory.pk
  on_commit (Message.review_withdrawn advisory.pk)
  pure (set_review_status ReviewStatus.none advisory)

-- The open task of the advisory, if any, is closed as withdrawn.
unfoldable pub close_open_review : Advisory → Actor → M (Option ReviewTask)
close_open_review advisory by = do
  db ← gets (λ db. db)
  elim (first_row (is_open_review advisory.pk) db.review_tasks) [
    | none ↦ record_action Action.advisory_review_withdrawn by advisory.pk >> pure none
    | some task ↦
        save_review_task task.pk (withdrawn_task db.now)
        >> record_action Action.advisory_review_withdrawn by advisory.pk
        >> record_action Action.review_task_status_changed by advisory.pk
        >> pure (some (withdrawn_task db.now task))
  ]

-- Returns the closed task and the advisory as the caller now holds it.
unfoldable pub cancel_pending_review : Advisory → Actor → M (Option ReviewTask × Advisory)
cancel_pending_review advisory by =
    if is_unreviewed advisory.review_status then pure (none, advisory) else do
      save_advisory advisory.pk (set_review_status ReviewStatus.none)
      task ← close_open_review advisory by
      pure (task, set_review_status ReviewStatus.none advisory)
