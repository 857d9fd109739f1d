-- ===== src/Publication.antt =====
-- Publication runs (publication/services.py, publication/tasks.py). The documents, their validation,
-- Git, GitHub and the redaction of error texts are parameters.
pub mod Run
pub mod Reaper
pub mod Gate
pub mod Outcome
use advisoryhub.Prelude.{
  ℕ, suc, ◌+◌, Bool, true, false, not, blank, ◌&&◌, ◌||◌, Option, none, some, List, ◌∷◌, Text,
  is_blank, ◌==◌, exists_row, get_row, if◌then◌else◌, is_some,
}
use advisoryhub.Accounts.{Actor, actor_or_none}
use advisoryhub.Advisory.{Advisory, GhsaState, is_dismissed, is_ghsa_linked}
use advisoryhub.Tasks.{AdvisoryVersion, PublicationTask, PublicationTaskStatus, is_in_flight}
use advisoryhub.Versions.{latest_version}
use advisoryhub.Db.{
  Db, M, Error, Action, Message, ok, err, pure, or_raise, ◌>>=◌, ◌>>◌, require, require_not, gets,
  modify, take_pk, when, record_action, on_commit,
}
use advisoryhub.Permissions.Review.{can_publish}
use advisoryhub.Workflows.{load_advisory}

-- How the export of one run ends: at the validation of a document, at Git, at any other exception,
-- or with a pushed commit. Each carries the error text or the commit, and another exception also how
-- many ledger rows the run had written before it.
pub data Export : Type 0 where
  invalid_osv invalid_csaf invalid_cve git_failed pushed : Text → Export
  unexpected : ℕ → Text → Export

pub record Externals : Type 0 where
  -- `sync_single_ghsa`: whether the GHSA is missing upstream, and the advisory as synced
  pub sync_single_ghsa : Advisory → Actor → M (Bool × Advisory)
  -- the generated documents of a pinned version, validated and pushed
  pub export : PublicationTask → Export
  -- `redact_secrets(error)[:8000]`
  pub redact_error : Text → Text

abbrev pub is_ghsa_published : GhsaState → Bool
is_ghsa_published GhsaState.published = true
is_ghsa_published _ = false

-- `status in (QUEUED, RUNNING)` among the runs of one advisory
abbrev pub is_live_run : ℕ → PublicationTask → Bool
is_live_run advisory t = t.advisory == advisory && is_in_flight t.status

abbrev pub is_failed : PublicationTaskStatus → Bool
is_failed PublicationTaskStatus.failed = true
is_failed _ = false

unfoldable pub create_publication : ℕ → AdvisoryVersion → Actor → M PublicationTask
create_publication advisory version by = do
  db ← gets (λ db. db)
  pk ← take_pk
  let task : PublicationTask = record {
    pk = pk;
    advisory = advisory;
    version = version;
    status = PublicationTaskStatus.queued;
    attempts = 0;
    last_error = blank;
    started_at = none;
    finished_at = none;
    enqueued_by = actor_or_none by;
    commit_sha = blank;
    created_at = db.now;
  }
  modify (λ db. record db { publications = task ∷ db.publications })
  pure task

module _ (ext : Externals) where
  -- `ghsa.services.refresh_for_publish`
  unfoldable pub refresh_for_publish : Advisory → Actor → M (Unit {0})
  refresh_for_publish advisory by = if not (is_ghsa_linked advisory.kind) then pure tt else do
    synced ← ext.sync_single_ghsa advisory by
    require_not synced.0 Error.permission_denied
    require (is_ghsa_published synced.1.ghsa_state) Error.permission_denied
    require_not (is_some synced.1.ghsa_cve_conflict_detected_at) Error.permission_denied

  -- The gates, on the row that is read under the lock.
  unfoldable pub publish_gate : ℕ → Actor → Bool → Bool → M Advisory
  publish_gate pk by system allow_from_dismissed = do
    db ← gets (λ db. db)
    locked ← or_raise (get_row (λ (a : Advisory). a.pk) pk db.advisories) Error.permission_denied
    require (system || can_publish db by locked) Error.permission_denied
    require_not (is_dismissed locked.state && not allow_from_dismissed) Error.permission_denied
    require_not (exists_row (is_live_run pk) db.publications) Error.publication_in_progress
    pure locked

  -- The new run is pinned to the latest version.
  unfoldable pub pin_latest : ℕ → Actor → M PublicationTask
  pin_latest pk by = do
    latest ← gets (latest_version pk)
    version ← or_raise latest Error.permission_denied
    task ← create_publication pk version by
    record_action Action.publication_export_started by pk
    on_commit (Message.run_publication task.pk)
    pure task

  unfoldable pub publish : Advisory → Actor → Bool → Bool → M PublicationTask
  publish advisory by system allow_from_dismissed = do
    publish_gate advisory.pk by system allow_from_dismissed
    when (is_ghsa_linked advisory.kind && is_blank advisory.withdrawn_reason)
        (refresh_for_publish advisory by)
    pin_latest advisory.pk by

  pub retry : PublicationTask → Actor → M PublicationTask
  retry failed_task by = do
    require (is_failed failed_task.status) Error.permission_denied
    advisory ← load_advisory failed_task.advisory
    db ← gets (λ db. db)
    require (can_publish db by advisory) Error.permission_denied
    publish advisory by false false
