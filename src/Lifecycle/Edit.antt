-- ===== src/Lifecycle/Edit.antt =====
-- Edits and the comment lock (advisories/services.py).
pub mod Outcome
use advisoryhub.Prelude.{
  ℕ, Bool, true, false, not, blank, ◌&&◌, Option, none, some, Text, strip, if◌then◌else◌,
}
use advisoryhub.Accounts.{Actor, actor_or_none}
use advisoryhub.Advisory.{Advisory, ReviewStatus, is_published, is_approved}
use advisoryhub.Tasks.{AdvisoryVersion}
use advisoryhub.Versions.{record_advisory_version}
use advisoryhub.Db.{
  M, Error, Action, pure, ◌>>=◌, ◌>>◌, require, require_not, gets, save_advisory, record_action,
  record_action_note,
}
use advisoryhub.Permissions.{is_global_admin}
use advisoryhub.Permissions.Rules.{can_lock_comments}
use advisoryhub.Workflows.{load_advisory}

pub record AdvisoryEditResult : Type 0 where
  pub version : Option AdvisoryVersion
  pub approval_invalidated : Bool

-- The advisory as the three rules of an edit leave it.
pub edited : ℕ → Advisory → Bool → Bool → Bool → Advisory
edited now a invalidated project_changed is_triage = record a {
  republish_required = if is_published a.state then true else a.republish_required;
  review_status = if invalidated then ReviewStatus.none else a.review_status;
  access_review_required_at =
      if project_changed && not is_triage then some now else a.access_review_required_at;
}

-- `advisory.save()` writes every column; the intake sidecar is another row.
pub apply_advisory_edit : Advisory → Actor → Bool → Bool → M AdvisoryEditResult
apply_advisory_edit advisory editor project_changed is_triage = do
  db ← gets (λ db. db)
  let invalidated = is_approved advisory.review_status && not (is_global_admin db editor)
  let saved = edited db.now advisory invalidated project_changed is_triage
  save_advisory advisory.pk (λ row. record saved { intake = row.intake })
  version ← record_advisory_version saved editor true
  pure (record { version = version; approval_invalidated = invalidated })

abbrev pub with_lock : ℕ → Actor → Text → Advisory → Advisory
with_lock now by reason a = record a {
  comments_locked = true;
  comments_locked_at = some now;
  comments_locked_by = actor_or_none by;
  comments_lock_reason = reason;
}

pub lock_advisory_comments : ℕ → Actor → Text → M Advisory
lock_advisory_comments pk by reason = do
  locked ← load_advisory pk
  db ← gets (λ db. db)
  require (can_lock_comments db by locked) Error.permission_denied
  require_not locked.comments_locked Error.value_error
  save_advisory pk (with_lock db.now by (strip reason))
  record_action Action.advisory_comments_locked by pk
  record_action_note pk by (strip reason) false
  pure (with_lock db.now by (strip reason) locked)

abbrev pub without_lock : Advisory → Advisory
without_lock a = record a {
  comments_locked = false;
  comments_locked_at = none;
  comments_locked_by = none;
  comments_lock_reason = blank;
}

pub unlock_advisory_comments : ℕ → Actor → M Advisory
unlock_advisory_comments pk by = do
  locked ← load_advisory pk
  db ← gets (λ db. db)
  require (can_lock_comments db by locked) Error.permission_denied
  require locked.comments_locked Error.value_error
  save_advisory pk without_lock
  record_action Action.advisory_comments_unlocked by pk
  pure (without_lock locked)
