-- ===== src/Lifecycle/Reopen.antt =====
-- Reopening a dismissed advisory (advisories/services.py, `reopen_advisory`).
pub mod Conflict
pub mod Restored
pub mod Twofold
use advisoryhub.Prelude.{
  ℕ, suc, Bool, true, false, not, blank, ◌&&◌, Option, none, some, ◌∷◌, ◌==◌, is_blank, exists_row,
  first_row, if◌then◌else◌,
}
use advisoryhub.Accounts.{Actor, actor_or_none}
use advisoryhub.Advisory.{Advisory, State, is_draft, is_dismissed, is_from_published}
use advisoryhub.Tasks.{
  CveRequestTask, CveRequestStatus, OrphanCve, OrphanCveStatus, OrphanCveReassignmentTask,
  OrphanCveReassignmentStatus, is_queued_reassignment,
}
use advisoryhub.Versions.{record_advisory_version}
use advisoryhub.Db.{
  Db, M, Error, Action, Message, pure, ◌>>=◌, ◌>>◌, require, require_not, gets, modify, take_pk,
  when, except_value_error, save_advisory, record_action, on_commit,
}
use advisoryhub.Permissions.Rules.{can_reopen}
use advisoryhub.Workflows.{load_advisory}
use advisoryhub.Workflows.Cve.{is_open_request, request_cve}
use advisoryhub.Workflows.Orphan.{reassign_orphan_cve}
use advisoryhub.Publication.{Externals, publish}

-- `status=QUEUED` among the reassignment tasks of one orphan
abbrev pub is_queued_for : ℕ → OrphanCveReassignmentTask → Bool
is_queued_for orphan t = t.orphan_cve == orphan && is_queued_reassignment t.status

-- `OrphanCveReassignmentTask.objects.create`, with the unique constraint on queued tasks
unfoldable pub create_reassignment : OrphanCve → Advisory → Actor → M (Unit {0})
create_reassignment orphan advisory by = do
  db ← gets (λ db. db)
  require_not (exists_row (is_queued_for orphan.pk) db.reassignments) Error.integrity_error
  pk ← take_pk
  let task : OrphanCveReassignmentTask = record {
    pk = pk;
    orphan_cve = orphan.pk;
    advisory = advisory.pk;
    status = OrphanCveReassignmentStatus.queued;
    requested_by = actor_or_none by;
    resolved_by = none;
    replacement_cve_id = blank;
    resolution_notes = blank;
    finished_at = none;
  }
  modify (λ db. record db { reassignments = task ∷ db.reassignments })

pub data Disposition : Type 0 where
  no_orphan reassigned_direct queued_admin_task already_reassigned : Disposition

abbrev pub is_queued_admin_task : Disposition → Bool
is_queued_admin_task Disposition.queued_admin_task = true
is_queued_admin_task _ = false

unfoldable pub reattach : OrphanCve → Advisory → Actor → M (Disposition × Advisory)
reattach orphan locked by = do
  advisory ← reassign_orphan_cve orphan by locked
  pure (Disposition.reassigned_direct, advisory)

unfoldable pub queue_admin_task : OrphanCve → Advisory → Actor → M (Disposition × Advisory)
queue_admin_task orphan locked by = do
  create_reassignment orphan locked by
  pure (Disposition.queued_admin_task, locked)

unfoldable pub restore_by_status :
    OrphanCveStatus → OrphanCve → Advisory → Actor → M (Disposition × Advisory)
restore_by_status OrphanCveStatus.orphaned orphan locked by =
    except_value_error (reattach orphan locked by) (queue_admin_task orphan locked by)
restore_by_status OrphanCveStatus.marked_rejected orphan locked by = do
  db ← gets (λ db. db)
  if exists_row (is_queued_for orphan.pk) db.reassignments
      then pure (Disposition.queued_admin_task, locked)
      else queue_admin_task orphan locked by
restore_by_status OrphanCveStatus.reassigned orphan locked by =
    pure (Disposition.already_reassigned, locked)

abbrev pub is_orphan_of : ℕ → OrphanCve → Bool
is_orphan_of advisory o = o.previous_advisory == advisory

-- The newest orphan of the advisory decides; returns the advisory as the caller now holds it.
unfoldable pub restore_orphan : Advisory → Actor → M (Disposition × Advisory)
restore_orphan locked by = do
  db ← gets (λ db. db)
  elim (first_row (is_orphan_of locked.pk) db.orphans) [
    | none ↦ pure (Disposition.no_orphan, locked)
    | some orphan ↦ restore_by_status orphan.status orphan locked by
  ]

abbrev pub is_request_of : ℕ → CveRequestTask → Bool
is_request_of advisory t = t.advisory == advisory

abbrev pub is_cancelled_task : Option CveRequestTask → Bool
is_cancelled_task none = false
is_cancelled_task (some t) = elim t.status [ CveRequestStatus.cancelled ↦ true | _ ↦ false ]

-- An auto-cancelled request comes back.
unfoldable pub restore_cve_request : Advisory → Actor → M (Unit {0})
restore_cve_request locked by = do
  db ← gets (λ db. db)
  when
      (is_draft locked.state
        && is_blank locked.assigned_cve_id
        && not (exists_row (is_open_request locked.pk) db.cve_requests)
        && is_cancelled_task (first_row (is_request_of locked.pk) db.cve_requests))
      (do request_cve locked by; pure tt)

-- `dismissed_from_state or DRAFT`, and draft for what is neither triage nor draft
abbrev pub target_state : Option State → State
target_state (some State.triage) = State.triage
target_state _ = State.draft

abbrev pub with_state : State → Advisory → Advisory
with_state state a = record a { state = state }

unfoldable pub reopen_to : Advisory → State → Actor → M Advisory
reopen_to locked target by = do
  save_advisory locked.pk (with_state target)
  restore_cve_request (with_state target locked) by
  restored ← restore_orphan (with_state target locked) by
  when (is_queued_admin_task restored.0)
      (record_action Action.orphan_reassignment_requested by locked.pk)
  record_action Action.advisory_reopened by locked.pk
  record_action Action.advisory_state_changed by locked.pk
  on_commit (Message.reopened locked.pk)
  pure restored.1

abbrev pub without_withdrawn_reason : Advisory → Advisory
without_withdrawn_reason a = record a { withdrawn_reason = blank }

module _ (ext : Externals) where
  -- The un-withdraw: the state stays dismissed until the run has pushed.
  pub unwithdraw : Advisory → Actor → M Advisory
  unwithdraw locked by = do
    save_advisory locked.pk without_withdrawn_reason
    restored ←
        (if is_blank locked.assigned_cve_id
          then restore_orphan (without_withdrawn_reason locked) by
          else pure (Disposition.no_orphan, without_withdrawn_reason locked))
    record_advisory_version restored.1 by true
    record_action Action.advisory_reopened by locked.pk
    publish ext restored.1 by true true
    pure restored.1

  unfoldable pub reopen_advisory : ℕ → Actor → M Advisory
  reopen_advisory pk by = do
    locked ← load_advisory pk
    db ← gets (λ db. db)
    require (can_reopen db by locked) Error.permission_denied
    require (is_dismissed locked.state) Error.value_error
    if is_from_published locked.dismissed_from_state
        then unwithdraw locked by
        else reopen_to locked (target_state locked.dismissed_from_state) by
