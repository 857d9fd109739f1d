-- ===== src/Workflows/Orphan.antt =====
-- The orphan CVE workflow (workflows/services.py): a CVE that leaves its advisory keeps a receipt,
-- and may be marked rejected, reattached or replaced.
pub mod Receipts
use advisoryhub.Prelude.{
  ℕ, suc, Bool, true, false, not, blank, ◌&&◌, ◌||◌, Option, none, some, List, ◌∷◌, Text, text_eq,
  is_blank, strip, ◌==◌, exists_row, get_row, modify_row, if◌then◌else◌,
}
use advisoryhub.Accounts.{Actor, actor_or_none}
use advisoryhub.Advisory.{Advisory, is_published}
use advisoryhub.Tasks.{
  OrphanCve, OrphanCveStatus, OrphanCveReassignmentTask, OrphanCveReassignmentStatus,
  CveRequestStatus, is_queued_reassignment,
}
use advisoryhub.Db.{
  Db, M, Error, Action, ok, err, pure, raise, or_raise, ◌>>=◌, ◌>>◌, require, require_not, gets,
  modify, take_pk, save_advisory, record_action, record_action_note,
}
use advisoryhub.Permissions.Rules.{can_unassign_cve, can_manage_orphan_cves}
use advisoryhub.Workflows.{load_advisory, validate_cve_id}
use advisoryhub.Workflows.Cve.{create_cve_request}

abbrev pub has_cve : Text → OrphanCve → Bool
has_cve cve_id o = text_eq o.cve_id cve_id

-- `OrphanCve.objects.create`; `cve_id` is unique in the table.
unfoldable pub create_orphan : Advisory → Actor → Text → M OrphanCve
create_orphan advisory by reason = do
  db ← gets (λ db. db)
  require_not (exists_row (has_cve advisory.assigned_cve_id) db.orphans) Error.integrity_error
  pk ← take_pk
  let orphan : OrphanCve = record {
    pk = pk;
    cve_id = advisory.assigned_cve_id;
    previous_advisory = advisory.pk;
    previous_advisory_label = advisory.advisory_id;
    status = OrphanCveStatus.orphaned;
    unassigned_by = actor_or_none by;
    unassign_reason = reason;
    marked_rejected_by = none;
    marked_rejected_at = none;
    marked_rejected_notes = blank;
  }
  modify (λ db. record db { orphans = orphan ∷ db.orphans })
  pure orphan

-- What `orphan_cve` writes to the row, and to the object that the caller holds.
unfoldable pub without_cve : Advisory → Advisory → Advisory
without_cve held a = record a {
  assigned_cve_id = blank;
  republish_required =
      if is_published held.state && not held.republish_required then true else a.republish_required;
}

-- Returns the receipt and the advisory as the caller now holds it.
unfoldable pub orphan_cve : Advisory → Actor → Text → M (OrphanCve × Advisory)
orphan_cve advisory by reason = do
  orphan ← create_orphan advisory by reason
  save_advisory advisory.pk (without_cve advisory)
  record_action Action.cve_unassigned by advisory.pk
  pure (orphan, without_cve advisory advisory)

unfoldable pub unassign_cve : Advisory → Actor → Text → M (OrphanCve × Advisory)
unassign_cve advisory by reason = do
  db ← gets (λ db. db)
  require (can_unassign_cve db by) Error.permission_denied
  require_not (is_blank advisory.assigned_cve_id) Error.value_error
  require_not (is_blank (strip reason)) Error.value_error
  orphaned ← orphan_cve advisory by reason
  record_action_note advisory.pk by reason true
  pure orphaned

-- `status in (ORPHANED, MARKED_REJECTED)`
abbrev pub is_reassignable : OrphanCveStatus → Bool
is_reassignable OrphanCveStatus.reassigned = false
is_reassignable _ = true

abbrev pub is_orphaned : OrphanCveStatus → Bool
is_orphaned OrphanCveStatus.orphaned = true
is_orphaned _ = false

-- Another advisory holds the CVE.
abbrev pub holds_elsewhere : Text → ℕ → Advisory → Bool
holds_elsewhere cve_id pk a = text_eq a.assigned_cve_id cve_id && not (a.pk == pk)

-- `orphan.save(…)`
unfoldable pub save_orphan : ℕ → (OrphanCve → OrphanCve) → M (Unit {0})
save_orphan pk f =
    modify (λ db. record db { orphans = modify_row (λ (o : OrphanCve). o.pk) pk f db.orphans })

-- Returns the advisory as the caller now holds it.
unfoldable pub reassign_orphan_cve : OrphanCve → Actor → Advisory → M Advisory
reassign_orphan_cve orphan by advisory = do
  require (orphan.previous_advisory == advisory.pk) Error.value_error
  require (is_reassignable orphan.status) Error.value_error
  require (is_blank advisory.assigned_cve_id) Error.value_error
  db ← gets (λ db. db)
  require_not (exists_row (holds_elsewhere orphan.cve_id advisory.pk) db.advisories)
      Error.value_error
  save_orphan orphan.pk (λ o. record o { status = OrphanCveStatus.reassigned })
  save_advisory advisory.pk (λ a. record a { assigned_cve_id = orphan.cve_id })
  record_action Action.cve_reassigned_from_orphan by advisory.pk
  pure (record advisory { assigned_cve_id = orphan.cve_id })

-- The `outcome` string: one of the two words, or any other.
pub data Outcome : Type 0 where
  reassigned replaced unknown : Outcome

-- `task.save(update_fields=…)`
pub save_reassignment : ℕ → (OrphanCveReassignmentTask → OrphanCveReassignmentTask) → M (Unit {0})
save_reassignment pk f = modify (λ db. record db {
  reassignments = modify_row (λ (t : OrphanCveReassignmentTask). t.pk) pk f db.reassignments;
})

-- Outcome "reassigned".
pub resolve_reassigned : OrphanCveReassignmentTask → Actor → M OrphanCveReassignmentTask
resolve_reassigned task by = do
  db ← gets (λ db. db)
  orphan ←
      or_raise (get_row (λ (o : OrphanCve). o.pk) task.orphan_cve db.orphans) Error.does_not_exist
  advisory ← load_advisory task.advisory
  reassign_orphan_cve orphan by advisory
  pure (record task { status = OrphanCveReassignmentStatus.resolved_reassigned })

-- Outcome "replaced": a reservation of the new id, made by hand.
pub resolve_replaced : OrphanCveReassignmentTask → Actor → Text → Text → M OrphanCveReassignmentTask
resolve_replaced task by clean_cve clean_notes = do
  require_not (is_blank clean_cve) Error.value_error
  validate_cve_id clean_cve
  advisory ← load_advisory task.advisory
  require (is_blank advisory.assigned_cve_id) Error.value_error
  db ← gets (λ db. db)
  require_not (exists_row (holds_elsewhere clean_cve advisory.pk) db.advisories) Error.value_error
  create_cve_request advisory.pk CveRequestStatus.reserved task.requested_by (actor_or_none by)
      clean_cve clean_notes (some db.now)
  save_advisory advisory.pk (λ a. record a { assigned_cve_id = clean_cve })
  record_action Action.cve_task_status_changed by advisory.pk
  pure (record task {
    replacement_cve_id = clean_cve;
    status = OrphanCveReassignmentStatus.resolved_replaced;
  })

pub resolve_outcome :
    OrphanCveReassignmentTask → Actor → Outcome → Text → Text → M OrphanCveReassignmentTask
resolve_outcome task by reassigned cve notes = resolve_reassigned task by
resolve_outcome task by replaced cve notes = resolve_replaced task by cve notes
resolve_outcome task by unknown cve notes = raise Error.value_error

-- The task as it is saved at the end.
pub resolved_task :
    ℕ
    → Actor
    → Text
    → OrphanCveReassignmentTask
    → OrphanCveReassignmentTask
    → OrphanCveReassignmentTask
resolved_task now by notes held t = record t {
  status = held.status;
  resolved_by = actor_or_none by;
  replacement_cve_id = held.replacement_cve_id;
  resolution_notes = notes;
  finished_at = some now;
}

pub resolve_reassignment_task :
    OrphanCveReassignmentTask → Actor → Outcome → Text → Text → M OrphanCveReassignmentTask
resolve_reassignment_task task by outcome replacement_cve_id notes = do
  db ← gets (λ db. db)
  require (can_manage_orphan_cves db by) Error.permission_denied
  require (is_queued_reassignment task.status) Error.permission_denied
  held ← resolve_outcome task by outcome (strip replacement_cve_id) (strip notes)
  save_reassignment task.pk (resolved_task db.now by (strip notes) held)
  record_action Action.orphan_reassignment_resolved by task.advisory
  pure (resolved_task db.now by (strip notes) held held)

pub rejected_orphan : ℕ → Actor → Text → OrphanCve → OrphanCve
rejected_orphan now by notes o = record o {
  status = OrphanCveStatus.marked_rejected;
  marked_rejected_by = actor_or_none by;
  marked_rejected_at = some now;
  marked_rejected_notes = notes;
}

pub mark_orphan_rejected : OrphanCve → Actor → Text → M OrphanCve
mark_orphan_rejected orphan by notes = do
  db ← gets (λ db. db)
  require (can_manage_orphan_cves db by) Error.permission_denied
  require (is_orphaned orphan.status) Error.permission_denied
  save_orphan orphan.pk (rejected_orphan db.now by notes)
  record_action Action.cve_marked_rejected_at_cve_org by orphan.previous_advisory
  pure (rejected_orphan db.now by notes orphan)
