-- ===== src/Lifecycle/Dismissal.antt =====
-- Dismissal and withdrawal (advisories/services.py).
use advisoryhub.Prelude.{ℕ, true, false, codes, some, ◌++◌, Text, is_blank, strip, if◌then◌else◌}
use advisoryhub.Accounts.{Actor}
use advisoryhub.Advisory.{Advisory, is_dismissed, is_published}
use advisoryhub.Tasks.{PublicationTask}
use advisoryhub.Versions.{record_advisory_version}
use advisoryhub.Db.{
  M, Error, Action, pure, ◌>>=◌, ◌>>◌, require, require_not, save_advisory, record_action,
  record_action_note,
}
use advisoryhub.Workflows.{load_advisory}
use advisoryhub.Workflows.Cve.{cancel_open_cve_request}
use advisoryhub.Workflows.Orphan.{unassign_cve}
use advisoryhub.Workflows.Review.{cancel_pending_review}
use advisoryhub.Lifecycle.Requests.{
  clear_reassignment_request_if_pending, clear_withdrawal_request_if_pending,
}
use advisoryhub.Lifecycle.Triage.{dismissed_as}
use advisoryhub.Publication.{Externals, publish}

-- f"Advisory dismissed: {reason}"
abbrev pub dismissal_note : Text → Text
dismissal_note reason = codes "Advisory dismissed: " ++ reason

-- An assigned CVE becomes an orphan.
unfoldable pub release_cve : Advisory → Actor → Text → M Advisory
release_cve locked by reason =
    if is_blank locked.assigned_cve_id
    then pure locked
    else do orphaned ← unassign_cve locked by (dismissal_note reason); pure orphaned.1

-- What follows the change of state: the cascade over the sub-machines.
unfoldable pub dismissal_cascade : Advisory → Actor → Text → M Advisory
dismissal_cascade locked by reason = do
  cleared ← clear_reassignment_request_if_pending locked by
  cancel_open_cve_request locked.pk by (dismissal_note reason)
  cancelled ← cancel_pending_review cleared.1 by
  release_cve cancelled.1 by reason

unfoldable pub dismiss_locked : Advisory → Actor → Text → M Advisory
dismiss_locked locked by reason = do
  save_advisory locked.pk (dismissed_as reason (some locked.state))
  record_action Action.advisory_dismissed by locked.pk
  record_action Action.advisory_state_changed by locked.pk
  record_action_note locked.pk by reason false
  dismissal_cascade (dismissed_as reason (some locked.state) locked) by reason

unfoldable pub dismiss_advisory : ℕ → Actor → Text → M Advisory
dismiss_advisory pk by reason = do
  require_not (is_blank (strip reason)) Error.value_error
  locked ← load_advisory pk
  if is_dismissed locked.state then pure locked else dismiss_locked locked by (strip reason)

abbrev pub with_withdrawn_reason : Text → Advisory → Advisory
with_withdrawn_reason reason a = record a { withdrawn_reason = reason }

module _ (ext : Externals) where
  unfoldable pub withdraw_advisory : ℕ → Actor → Text → M PublicationTask
  withdraw_advisory pk by reason = do
    require_not (is_blank (strip reason)) Error.value_error
    locked ← load_advisory pk
    require (is_published locked.state) Error.value_error
    save_advisory pk (with_withdrawn_reason (strip reason))
    record_advisory_version (with_withdrawn_reason (strip reason) locked) by true
    cleared ← clear_withdrawal_request_if_pending (with_withdrawn_reason (strip reason) locked) by
    record_action_note pk by (strip reason) false
    publish ext cleared.1 by true false
