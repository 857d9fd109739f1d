-- ===== src/Publication/Run.antt =====
-- The worker's side of a run (publication/tasks.py, publication/services.py): the marks on the task,
-- the change of state after a push, and the failure path.
use advisoryhub.Prelude.{
  ℕ, zero, suc, ◌+◌, Bool, true, false, not, blank, codes, ◌++◌, none, some, List, [], ◌∷◌, Text,
  is_blank, get_row, modify_row, if◌then◌else◌, is_none,
}
use advisoryhub.Accounts.{Actor, stored_actor}
use advisoryhub.Advisory.{Advisory, State}
use advisoryhub.Tasks.{PublicationTask, PublicationTaskStatus}
use advisoryhub.Db.{
  Db, M, Result, Action, Message, ok, err, pure, ◌>>=◌, ◌>>◌, gets, modify, when, save_advisory,
  record_action,
}
use advisoryhub.Workflows.{load_advisory}
use advisoryhub.Workflows.Orphan.{orphan_cve}
use advisoryhub.Lifecycle.Requests.{clear_reassignment_request_if_pending}
use advisoryhub.Publication.{Externals, Export}

-- `task.save(update_fields=…)`
unfoldable pub save_run : ℕ → (PublicationTask → PublicationTask) → Db → Db
save_run pk f db = record db {
  publications = modify_row (λ (t : PublicationTask). t.pk) pk f db.publications;
}

-- `mark_running`: the attempt is counted on the task that the worker holds.
abbrev pub running : ℕ → PublicationTask → PublicationTask → PublicationTask
running now held t = record t {
  status = PublicationTaskStatus.running;
  attempts = held.attempts + 1;
  started_at = some now;
}

-- `mark_succeeded`
abbrev pub succeeded : ℕ → Text → PublicationTask → PublicationTask
succeeded now sha t = record t {
  status = PublicationTaskStatus.succeeded;
  commit_sha = sha;
  finished_at = some now;
  last_error = blank;
}

-- `mark_failed`
abbrev pub failed : ℕ → Text → PublicationTask → PublicationTask
failed now error t = record t {
  status = PublicationTaskStatus.failed;
  finished_at = some now;
  last_error = error;
}

-- The user that queued the run, as the actor of what the worker records.
abbrev pub enqueuer : PublicationTask → Actor
enqueuer t = stored_actor t.enqueued_by

abbrev pub withdrawn_state : Text → State → Advisory → Advisory
withdrawn_state reason previous a = record a {
  state = State.dismissed;
  dismissed_from_state = some previous;
  dismissed_reason = reason;
  republish_required = false;
}

-- A push that carries the withdrawn marker dismisses the advisory and orphans its CVE.
unfoldable pub finish_withdrawal : PublicationTask → Text → M (Unit {0})
finish_withdrawal task sha = do
  advisory ← load_advisory task.advisory
  db ← gets (λ db. db)
  let reason = task.version.payload.withdrawn_reason
  save_advisory advisory.pk (withdrawn_state reason advisory.state)
  modify (save_run task.pk (succeeded db.now sha))
  record_action Action.advisory_dismissed (enqueuer task) advisory.pk
  record_action Action.advisory_state_changed (enqueuer task) advisory.pk
  when (not (is_blank advisory.assigned_cve_id)) (do
    orphan_cve (withdrawn_state reason advisory.state advisory) (enqueuer task)
        (codes "Advisory withdrawn: " ++ reason)
    pure tt)
  record_action Action.publication_export_completed Actor.nobody advisory.pk

abbrev pub published_state : ℕ → Advisory → Advisory → Advisory
published_state now held a = record a {
  state = State.published;
  published_at = if is_none held.published_at then some now else held.published_at;
  republish_required = false;
}

unfoldable pub finish_published : PublicationTask → Text → M (Unit {0})
finish_published task sha = do
  advisory ← load_advisory task.advisory
  db ← gets (λ db. db)
  save_advisory advisory.pk (published_state db.now advisory)
  modify (save_run task.pk (succeeded db.now sha))
  record_action Action.advisory_published (enqueuer task) advisory.pk
  clear_reassignment_request_if_pending (published_state db.now advisory advisory) (enqueuer task)
  record_action Action.publication_export_completed Actor.nobody advisory.pk

-- The transaction after a push.
unfoldable pub finish : PublicationTask → Text → M (Unit {0})
finish task sha =
    if is_blank task.version.payload.withdrawn_reason
    then finish_published task sha
    else finish_withdrawal task sha

-- The stages of an export that leave a ledger row before it ends.
abbrev pub cve_stage : PublicationTask → List Action
cve_stage t =
    if is_blank t.version.payload.assigned_cve_id then [] else Action.publication_cve_generated ∷ []

-- The ledger rows of an export that ends with a push, oldest first.
abbrev pub all_stages : PublicationTask → List Action
all_stages t =
    Action.publication_osv_generated ∷ Action.publication_csaf_generated ∷ cve_stage t
    ++ Action.publication_git_commit ∷ Action.publication_git_push ∷ []

abbrev pub first_stages : ℕ → List Action → List Action
first_stages zero actions = []
first_stages (suc n) [] = []
first_stages (suc n) (a ∷ rest) = a ∷ first_stages n rest

abbrev pub stages : PublicationTask → Export → List Action
stages t (Export.invalid_osv e) = []
stages t (Export.invalid_csaf e) = Action.publication_osv_generated ∷ []
stages t (Export.invalid_cve e) =
    Action.publication_osv_generated ∷ Action.publication_csaf_generated ∷ []
stages t (Export.git_failed e) =
    Action.publication_osv_generated ∷ Action.publication_csaf_generated ∷ cve_stage t
stages t (Export.unexpected n e) = first_stages n (all_stages t)
stages t (Export.pushed sha) = all_stages t

unfoldable pub record_all : List Action → ℕ → Db → Db
record_all [] advisory db = db
record_all (action ∷ rest) advisory db =
    record_all rest advisory (record db {
      audit = record { action = action; actor = none; advisory = advisory } ∷ db.audit;
    })

pub data RunStatus : Type 0 where
  missing : RunStatus
  ended : PublicationTaskStatus → RunStatus

-- `status in (QUEUED, FAILED)`: the entry guard of a run
abbrev pub is_runnable : PublicationTaskStatus → Bool
is_runnable PublicationTaskStatus.queued = true
is_runnable PublicationTaskStatus.failed = true
is_runnable _ = false

module _ (ext : Externals) where
  -- `_fail`
  unfoldable pub fail : PublicationTask → Text → Action → Db → RunStatus × Db
  fail task error action db =
      let marked = save_run task.pk (failed db.now (ext.redact_error error)) db in
      (
        ended PublicationTaskStatus.failed,
        record marked {
          audit = record { action = action; actor = none; advisory = task.advisory } ∷ marked.audit;
          outbox = Message.export_status task.advisory ∷ marked.outbox;
        },
      )

  -- The last step: either all of it is written, or the run fails.
  unfoldable pub settle : PublicationTask → Result (Unit {0}) → Db → RunStatus × Db
  settle task (ok _ db') db = (
    ended PublicationTaskStatus.succeeded,
    if is_blank task.version.payload.withdrawn_reason
        then record db' { outbox = Message.advisory_published task.advisory ∷ db'.outbox }
        else db',
  )
  settle task (err e) db = fail task (codes "unexpected: ") Action.publication_export_failed db

  unfoldable pub conclude : PublicationTask → Export → Db → RunStatus × Db
  conclude task (Export.pushed sha) db = settle task (finish task sha db) db
  conclude task (Export.git_failed e) db =
      fail task (codes "git: " ++ e) Action.publication_git_push_failed db
  conclude task (Export.invalid_osv e) db =
      fail task (codes "validation: " ++ e) Action.publication_export_failed db
  conclude task (Export.invalid_csaf e) db =
      fail task (codes "validation: " ++ e) Action.publication_export_failed db
  conclude task (Export.invalid_cve e) db =
      fail task (codes "validation: " ++ e) Action.publication_export_failed db
  conclude task (Export.unexpected n e) db =
      fail task (codes "unexpected: " ++ e) Action.publication_export_failed db

  unfoldable pub run_task : PublicationTask → Db → RunStatus × Db
  run_task task db =
      let held = running db.now task task in
      let outcome = ext.export held in
      conclude held outcome
        (record_all (stages held outcome) task.advisory (save_run task.pk (running db.now task) db))

  -- Every write before the last step is committed at once, so a run is a function to a status and a
  -- database, and raises nothing.
  unfoldable pub run_publication : ℕ → Db → RunStatus × Db
  run_publication task_id db =
      elim (get_row (λ (t : PublicationTask). t.pk) task_id db.publications) [
        | none ↦ (missing, db)
        | some task ↦ if is_runnable task.status then run_task task db else (ended task.status, db)
      ]
