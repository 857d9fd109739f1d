-- ===== src/Workflows/Cve.antt =====
-- The CVE request workflow (workflows/services.py): request, decision, cancellation, unban, and the
-- push that a reservation queues (ghsa/services.py, `enqueue_cve_push`).
pub mod Requests
pub mod Decision
use advisoryhub.Prelude.{
  ℕ, suc, Bool, true, false, not, blank, ◌&&◌, Option, none, some, ◌∷◌, Text, is_blank, strip, ◌==◌,
  ◌||◌, is_some, exists_row, first_row, modify_row, if◌then◌else◌,
}
use advisoryhub.Accounts.{Actor, actor_or_none}
use advisoryhub.Advisory.{Advisory, GhsaCvePushStatus, is_published, is_ghsa_linked}
use advisoryhub.Tasks.{
  CveRequestTask, CveRequestStatus, GhsaCvePushTask, GhsaCvePushTaskStatus, is_queued_request,
}
use advisoryhub.Db.{
  Db, M, Error, Action, Message, ok, err, pure, raise, ◌>>=◌, ◌>>◌, require, require_not, gets,
  modify, take_pk, when, save_advisory, record_action, record_action_note, on_commit,
}
use advisoryhub.Permissions.Rules.{can_request_cve}
use advisoryhub.Permissions.Review.{can_review}
use advisoryhub.Workflows.{load_advisory, validate_cve_id}

-- `status=QUEUED` among the requests of one advisory
abbrev pub is_open_request : ℕ → CveRequestTask → Bool
is_open_request advisory t = t.advisory == advisory && is_queued_request t.status

-- `CveRequestTask.objects.create`, with the unique constraint on an advisory's queued requests
unfoldable pub create_cve_request :
    ℕ → CveRequestStatus → Option ℕ → Option ℕ → Text → Text → Option ℕ → M CveRequestTask
create_cve_request advisory status requested_by assignee cve_id notes finished_at = do
  db ← gets (λ db. db)
  require_not (is_queued_request status && exists_row (is_open_request advisory) db.cve_requests)
      Error.integrity_error
  pk ← take_pk
  let task : CveRequestTask = record {
    pk = pk;
    advisory = advisory;
    status = status;
    requested_by = requested_by;
    assignee = assignee;
    cve_id = cve_id;
    notes = notes;
    finished_at = finished_at;
  }
  modify (λ db. record db { cve_requests = task ∷ db.cve_requests })
  pure task

unfoldable pub request_cve : Advisory → Actor → M CveRequestTask
unfolding create_cve_request record_action
request_cve advisory by = do
  db ← gets (λ db. db)
  require (can_request_cve db by advisory) Error.permission_denied
  require_not advisory.cve_requests_banned Error.permission_denied
  require (is_blank advisory.assigned_cve_id) Error.permission_denied
  require_not (exists_row (is_open_request advisory.pk) db.cve_requests) Error.permission_denied
  task ←
      create_cve_request advisory.pk CveRequestStatus.queued (actor_or_none by) none blank blank
        none
  record_action Action.cve_requested by advisory.pk
  pure task

-- `_is_valid_cve_transition`
pub is_valid_cve_transition : CveRequestStatus → CveRequestStatus → Bool
is_valid_cve_transition CveRequestStatus.queued CveRequestStatus.reserved = true
is_valid_cve_transition CveRequestStatus.queued CveRequestStatus.rejected = true
is_valid_cve_transition CveRequestStatus.queued CveRequestStatus.cancelled = true
is_valid_cve_transition _ _ = false

abbrev pub is_reserved : CveRequestStatus → Bool
is_reserved CveRequestStatus.reserved = true
is_reserved _ = false

abbrev pub is_rejected : CveRequestStatus → Bool
is_rejected CveRequestStatus.rejected = true
is_rejected _ = false

-- `not text`, of a text that may be `None`
abbrev pub is_missing : Option Text → Bool
is_missing none = true
is_missing (some t) = is_blank t

-- `text or ""`
abbrev pub or_blank : Option Text → Text
or_blank none = blank
or_blank (some t) = t

-- `if value is not None: field = value`
abbrev pub or_keep : Option Text → Text → Text
or_keep none t = t
or_keep (some s) t = s

-- `task.full_clean()`: the requester is a foreign key that may not be blank, and a CVE id that is
-- set has to be one.
pub full_clean_request : CveRequestTask → M (Unit {0})
unfolding validate_cve_id
full_clean_request task = do
  require (is_some task.requested_by) Error.validation_error
  when (not (is_blank task.cve_id)) (validate_cve_id task.cve_id)

-- The task as the decision leaves it.
pub decided_request :
    ℕ → CveRequestTask → Actor → CveRequestStatus → Option Text → Option Text → CveRequestTask
decided_request now task by new_status cve_id notes =
    let is_final = is_reserved new_status || is_rejected new_status in
    record task {
      status = new_status;
      cve_id = or_keep cve_id task.cve_id;
      notes = or_keep notes task.notes;
      assignee = if is_final then actor_or_none by else task.assignee;
      finished_at = if is_final then some now else task.finished_at;
    }

-- `task.save()`
pub save_request : CveRequestTask → M (Unit {0})
save_request task = modify (λ db. record db {
  cve_requests = modify_row (λ (t : CveRequestTask). t.pk) task.pk (λ t. task) db.cve_requests;
})

abbrev pub new_push : ℕ → ℕ → Text → Actor → ℕ → GhsaCvePushTask
new_push pk advisory cve_id by now = record {
  pk = pk;
  advisory = advisory;
  cve_id = cve_id;
  requested_by = actor_or_none by;
  status = GhsaCvePushTaskStatus.queued;
  attempts = 0;
  last_error = blank;
  started_at = none;
  finished_at = none;
  created_at = now;
}

-- `ghsa.services.enqueue_cve_push`
unfoldable pub enqueue_cve_push : Advisory → Text → Actor → M ℕ
unfolding save_advisory record_action
enqueue_cve_push advisory cve_id by = do
  require (is_ghsa_linked advisory.kind) Error.value_error
  save_advisory advisory.pk (λ a. record a { ghsa_cve_push_status = GhsaCvePushStatus.pending })
  pk ← take_pk
  modify (λ db. record db { cve_pushes = new_push pk advisory.pk cve_id by db.now ∷ db.cve_pushes })
  record_action Action.ghsa_cve_push_requested by advisory.pk
  pure pk

-- A reservation: the id goes to the advisory, which is flagged if it is published already, and is
-- pushed to GitHub if it is linked.
pub assign_cve : Advisory → Actor → Text → M (Unit {0})
unfolding save_advisory enqueue_cve_push on_commit
assign_cve advisory by cve_id = do
  save_advisory advisory.pk (λ a. record a {
    assigned_cve_id = cve_id;
    republish_required =
        if is_published advisory.state && not advisory.republish_required
        then true
        else a.republish_required;
  })
  when (is_ghsa_linked advisory.kind)
      (do push ← enqueue_cve_push advisory cve_id by; on_commit (Message.run_cve_push push))

-- A rejection: the notes become a comment, and the advisory may be banned from asking again.
pub reject_cve : Advisory → Actor → Text → Bool → M (Unit {0})
unfolding record_action_note save_advisory record_action
reject_cve advisory by notes ban_future_requests = do
  record_action_note advisory.pk by notes false
  when (ban_future_requests && not advisory.cve_requests_banned) (do
    save_advisory advisory.pk (λ a. record a { cve_requests_banned = true })
    record_action Action.cve_request_banned by advisory.pk)

-- The writes of a decision, once its arguments have been checked.
pub write_decision :
    CveRequestTask → Actor → CveRequestStatus → Option Text → Option Text → Bool → M CveRequestTask
write_decision decided by new_status cve_id notes ban_future_requests = do
  full_clean_request decided
  save_request decided
  advisory ← load_advisory decided.advisory
  when (is_reserved new_status && not (is_missing cve_id))
      (assign_cve advisory by (or_blank cve_id))
  when (is_rejected new_status) (reject_cve advisory by (or_blank notes) ban_future_requests)
  record_action Action.cve_task_status_changed by advisory.pk
  pure decided

pub transition_cve_request :
    CveRequestTask → Actor → CveRequestStatus → Option Text → Option Text → Bool → M CveRequestTask
unfolding is_valid_cve_transition
transition_cve_request task by new_status cve_id notes ban_future_requests = do
  db ← gets (λ db. db)
  require (can_review db by) Error.permission_denied
  require (is_valid_cve_transition task.status new_status) Error.value_error
  require_not (is_reserved new_status && is_missing cve_id) Error.value_error
  require_not (is_rejected new_status && is_blank (strip (or_blank notes))) Error.value_error
  require_not (ban_future_requests && not (is_rejected new_status)) Error.value_error
  write_decision (decided_request db.now task by new_status cve_id notes) by new_status cve_id notes
      ban_future_requests

pub unban_cve_requests : Advisory → Actor → M Bool
unban_cve_requests advisory by = do
  db ← gets (λ db. db)
  require (can_review db by) Error.permission_denied
  if not advisory.cve_requests_banned then pure false else do
    save_advisory advisory.pk (λ a. record a { cve_requests_banned = false })
    record_action Action.cve_request_unbanned by advisory.pk
    pure true

unfoldable pub cancel_request : CveRequestTask → Actor → ℕ → Text → M (Option CveRequestTask)
unfolding record_action
cancel_request task by advisory reason = do
  modify (λ db. record db {
    cve_requests =
        modify_row (λ (t : CveRequestTask). t.pk) task.pk
          (λ t. record t {
            status = CveRequestStatus.cancelled;
            notes = reason;
            finished_at = some db.now;
          })
          db.cve_requests;
  })
  record_action Action.cve_request_cancelled by advisory
  db ← gets (λ db. db)
  pure (
      some (record task {
        status = CveRequestStatus.cancelled;
        notes = reason;
        finished_at = some db.now;
      }))

unfoldable pub cancel_open_cve_request : ℕ → Actor → Text → M (Option CveRequestTask)
unfolding cancel_request
cancel_open_cve_request advisory by reason = do
  open_task ← gets (λ db. first_row (is_open_request advisory) db.cve_requests)
  elim open_task [ none ↦ pure none | some task ↦ cancel_request task by advisory reason ]
