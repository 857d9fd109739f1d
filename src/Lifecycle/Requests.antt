-- ===== src/Lifecycle/Requests.antt =====
-- Reassignment and withdrawal requests (advisories/services.py).
use advisoryhub.Prelude.{
  ℕ, Bool, true, false, blank, Option, none, some, Text, is_blank, is_none, strip, if◌then◌else◌,
}
use advisoryhub.Accounts.{Actor, Project, actor_or_none, same_project}
use advisoryhub.Advisory.{Advisory}
use advisoryhub.Versions.{record_advisory_version}
use advisoryhub.Db.{
  M, Error, Action, pure, or_raise, ◌>>=◌, ◌>>◌, require, require_not, gets, save_advisory,
  record_action, record_action_note,
}
use advisoryhub.Permissions.Review.{can_request_withdrawal, can_cancel_withdrawal_request}
use advisoryhub.Permissions.Routing.{
  can_request_reassignment, can_withdraw_reassignment_request, can_resolve_reassignment,
}
use advisoryhub.Workflows.{load_advisory}

abbrev pub without_withdrawal_request : Advisory → Advisory
without_withdrawal_request a = record a {
  withdrawal_requested_at = none;
  withdrawal_requested_by = none;
  withdrawal_request_note = blank;
}

-- Returns whether it cleared, and the advisory as the caller now holds it.
unfoldable pub clear_withdrawal_request_if_pending : Advisory → Actor → M (Bool × Advisory)
clear_withdrawal_request_if_pending advisory by =
    if is_none advisory.withdrawal_requested_at then pure (false, advisory) else do
      save_advisory advisory.pk without_withdrawal_request
      record_action Action.advisory_withdrawal_request_cleared by advisory.pk
      pure (true, without_withdrawal_request advisory)

abbrev pub with_withdrawal_request : ℕ → Actor → Text → Advisory → Advisory
with_withdrawal_request now by note a = record a {
  withdrawal_requested_at = some now;
  withdrawal_requested_by = actor_or_none by;
  withdrawal_request_note = note;
}

pub request_withdrawal : ℕ → Actor → Text → M Advisory
request_withdrawal pk by note = do
  require_not (is_blank (strip note)) Error.value_error
  locked ← load_advisory pk
  db ← gets (λ db. db)
  require (can_request_withdrawal db by locked) Error.permission_denied
  save_advisory pk (with_withdrawal_request db.now by (strip note))
  record_action Action.advisory_withdrawal_requested by pk
  record_action_note pk by (strip note) true
  pure (with_withdrawal_request db.now by (strip note) locked)

pub cancel_withdrawal_request : ℕ → Actor → Text → M Advisory
cancel_withdrawal_request pk by note = do
  locked ← load_advisory pk
  db ← gets (λ db. db)
  require (can_cancel_withdrawal_request db by locked) Error.permission_denied
  cleared ← clear_withdrawal_request_if_pending locked by
  record_action_note pk by (strip note) true
  pure cleared.1

abbrev pub without_reassignment_request : Advisory → Advisory
without_reassignment_request a = record a {
  reassignment_requested_at = none;
  reassignment_requested_by = none;
  reassignment_request_note = blank;
  reassignment_suggested_project = none;
}

unfoldable pub clear_reassignment_request_if_pending : Advisory → Actor → M (Bool × Advisory)
clear_reassignment_request_if_pending advisory by =
    if is_none advisory.reassignment_requested_at then pure (false, advisory) else do
      save_advisory advisory.pk without_reassignment_request
      record_action Action.advisory_reassignment_request_cleared by advisory.pk
      pure (true, without_reassignment_request advisory)

abbrev pub is_current : Option Project → Project → Bool
is_current none current = false
is_current (some p) current = same_project p current

abbrev pub with_reassignment_request : ℕ → Actor → Text → Option Project → Advisory → Advisory
with_reassignment_request now by note suggested a = record a {
  reassignment_requested_at = some now;
  reassignment_requested_by = actor_or_none by;
  reassignment_request_note = note;
  reassignment_suggested_project = suggested;
}

pub request_admin_reassignment : ℕ → Actor → Text → Option Project → M Advisory
request_admin_reassignment pk by note suggested_project = do
  locked ← load_advisory pk
  db ← gets (λ db. db)
  require (can_request_reassignment db by locked) Error.permission_denied
  require_not (is_blank (strip note)) Error.value_error
  require_not (is_current suggested_project locked.project) Error.value_error
  save_advisory pk (with_reassignment_request db.now by (strip note) suggested_project)
  record_action Action.advisory_reassignment_requested by pk
  record_action_note pk by (strip note) true
  pure (with_reassignment_request db.now by (strip note) suggested_project locked)

pub withdraw_admin_reassignment : ℕ → Actor → Text → M Advisory
withdraw_admin_reassignment pk by note = do
  locked ← load_advisory pk
  db ← gets (λ db. db)
  require (can_withdraw_reassignment_request db by locked) Error.permission_denied
  cleared ← clear_reassignment_request_if_pending locked by
  record_action_note pk by (strip note) true
  pure cleared.1

-- `new_project if new_project is not None else advisory.reassignment_suggested_project`
abbrev pub or_suggested : Option Project → Advisory → Option Project
or_suggested none a = a.reassignment_suggested_project
or_suggested (some p) a = some p

abbrev pub moved_to : Project → ℕ → Advisory → Advisory
moved_to project now a = record a { project = project; access_review_required_at = some now }

pub accept_reassignment_suggestion : ℕ → Actor → Option Project → M Advisory
accept_reassignment_suggestion pk by new_project = do
  locked ← load_advisory pk
  db ← gets (λ db. db)
  require (can_resolve_reassignment db by locked (or_suggested new_project locked))
      Error.permission_denied
  target ← or_raise (or_suggested new_project locked) Error.permission_denied
  save_advisory pk (moved_to target db.now)
  record_advisory_version (moved_to target db.now locked) by true
  record_action Action.advisory_project_changed by pk
  cleared ← clear_reassignment_request_if_pending (moved_to target db.now locked) by
  pure cleared.1
