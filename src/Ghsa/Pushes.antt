-- ===== src/Ghsa/Pushes.antt =====
-- Pushing a reserved CVE id to GitHub (ghsa/services.py: the worker's attempt, the bulk retry and
-- the reaper of pushes that are stuck). Times are in microseconds.
pub mod Badge
use advisoryhub.Prelude.{
  ℕ, suc, ◌+◌, ◌-◌, Bool, true, false, not, ◌&&◌, ◌||◌, ◌==◌, ltb, Option, none, some, List, [],
  ◌∷◌, Text, blank, get_row, modify_row, select, exists_row, if◌then◌else◌,
}
use Prim.Native.Nat.{◌/◌}
use advisoryhub.Advisory.{Advisory, GhsaCvePushStatus}
use advisoryhub.Tasks.{GhsaCvePushTask, GhsaCvePushTaskStatus}
use advisoryhub.Db.{Db, Action, Message}
use advisoryhub.Publication.Reaper.{microseconds, over, or_created}

abbrev pub is_live_status : GhsaCvePushTaskStatus → Bool
is_live_status GhsaCvePushTaskStatus.queued = true
is_live_status GhsaCvePushTaskStatus.running = true
is_live_status _ = false

abbrev pub is_failed_status : GhsaCvePushTaskStatus → Bool
is_failed_status GhsaCvePushTaskStatus.failed = true
is_failed_status _ = false

abbrev pub same_status : GhsaCvePushTaskStatus → GhsaCvePushTaskStatus → Bool
same_status GhsaCvePushTaskStatus.queued GhsaCvePushTaskStatus.queued = true
same_status GhsaCvePushTaskStatus.running GhsaCvePushTaskStatus.running = true
same_status GhsaCvePushTaskStatus.succeeded GhsaCvePushTaskStatus.succeeded = true
same_status GhsaCvePushTaskStatus.failed GhsaCvePushTaskStatus.failed = true
same_status _ _ = false

-- `status in (QUEUED, RUNNING)` among the pushes of an advisory
abbrev pub is_live_push : ℕ → GhsaCvePushTask → Bool
is_live_push advisory t = t.advisory == advisory && is_live_status t.status

abbrev pub push_key : GhsaCvePushTask → ℕ
push_key t = t.pk

-- `task.save(update_fields=…)` and `advisory.save(update_fields=…)`
abbrev pub save_push : ℕ → (GhsaCvePushTask → GhsaCvePushTask) → Db → Db
save_push pk f db = record db { cve_pushes = modify_row push_key pk f db.cve_pushes }

abbrev pub save_badge : ℕ → (Advisory → Advisory) → Db → Db
save_badge pk f db = record db {
  advisories = modify_row (λ (a : Advisory). a.pk) pk f db.advisories;
}

abbrev pub log : Action → Option ℕ → ℕ → Db → Db
log action actor advisory db = record db {
  audit = record { action = action; actor = actor; advisory = advisory } ∷ db.audit;
}

-- The attempt begins: the row, as the worker holds it.
abbrev pub started : GhsaCvePushTask → ℕ → GhsaCvePushTask → GhsaCvePushTask
started held now t = record t {
  status = GhsaCvePushTaskStatus.running;
  attempts = suc held.attempts;
  started_at = some now;
}

unfoldable pub start_push : GhsaCvePushTask → Db → Db
start_push task db = save_push task.pk (started task db.now) db

-- The attempt ends, with `error` the redacted text if GitHub refused it.
abbrev pub ended : GhsaCvePushTaskStatus → Text → ℕ → GhsaCvePushTask → GhsaCvePushTask
ended status error now t = record t { status = status; finished_at = some now; last_error = error }

-- The worker's writes after GitHub's answer are three transactions, in this order: the task, the
-- badge of the advisory, and the row of the ledger.
unfoldable pub end_push : GhsaCvePushTask → Option Text → Db → Db
end_push task (some error) db =
    save_push task.pk (ended GhsaCvePushTaskStatus.failed error db.now) db
end_push task none db = save_push task.pk (ended GhsaCvePushTaskStatus.succeeded blank db.now) db

abbrev pub badge_failed : ℕ → Advisory → Advisory
badge_failed now a = record a {
  ghsa_cve_push_status = GhsaCvePushStatus.failed;
  ghsa_cve_push_attempted_at = some now;
}

-- A successful push resolves a conflict that was marked before.
abbrev pub badge_succeeded : ℕ → Advisory → Advisory
badge_succeeded now a = record a {
  ghsa_cve_push_status = GhsaCvePushStatus.succeeded;
  ghsa_cve_push_attempted_at = some now;
  ghsa_cve_conflict_detected_at = none;
  ghsa_cve_conflict_ghsa_value = blank;
}

pub settle_badge : GhsaCvePushTask → Option Text → Db → Db
settle_badge task (some error) db = save_badge task.advisory (badge_failed db.now) db
settle_badge task none db = save_badge task.advisory (badge_succeeded db.now) db

pub log_push : GhsaCvePushTask → Option Text → Db → Db
log_push task (some error) db = log Action.ghsa_cve_push_failed task.requested_by task.advisory db
log_push task none db = log Action.ghsa_cve_push_succeeded task.requested_by task.advisory db

-- `push_reserved_cve_to_ghsa` by a worker that nothing interrupts; `answer` is the client's, an error
-- text or none.
pub push_reserved_cve_to_ghsa : (GhsaCvePushTask → Option Text) → ℕ → Db → Db
unfolding start_push end_push settle_badge log_push
push_reserved_cve_to_ghsa answer pk db = elim (get_row push_key pk db.cve_pushes) [
  | none ↦ db
  | some task ↦
      if same_status task.status GhsaCvePushTaskStatus.queued || is_failed_status task.status
      then log_push task (answer task)
          (settle_badge task (answer task) (end_push task (answer task) (start_push task db)))
      else db
]

abbrev pub requeued : GhsaCvePushTask → GhsaCvePushTask
requeued t = record t { status = GhsaCvePushTaskStatus.queued; last_error = blank }

pub requeue_all : List GhsaCvePushTask → Db → Db
requeue_all [] db = db
requeue_all (t ∷ ts) db = requeue_all ts (save_push t.pk requeued db)

abbrev pub enqueue_all : List GhsaCvePushTask → Db → Db
enqueue_all [] db = db
enqueue_all (t ∷ ts) db =
    enqueue_all ts (record db { outbox = Message.run_cve_push t.pk ∷ db.outbox })

-- `retry_all_failed_cve_pushes`
pub retry_all_failed_cve_pushes : Db → Db
unfolding requeue_all
retry_all_failed_cve_pushes db =
    let failed = select (λ (t : GhsaCvePushTask). is_failed_status t.status) db.cve_pushes in
    enqueue_all failed (requeue_all failed db)

abbrev pub push_age_at : GhsaCvePushTaskStatus → Db → GhsaCvePushTask → Option ℕ
push_age_at GhsaCvePushTaskStatus.running db t =
    over db.settings.ghsa_cve_push_stale_running_after_seconds
      ((db.now - or_created t.started_at t.created_at) / 1000000)
push_age_at GhsaCvePushTaskStatus.queued db t =
    over db.settings.ghsa_cve_push_stale_queued_after_seconds ((db.now - t.created_at) / 1000000)
push_age_at _ db t = none

-- `_push_stale_age_seconds`
pub push_stale_age_seconds : Db → GhsaCvePushTask → Option ℕ
push_stale_age_seconds db t = push_age_at t.status db t

abbrev pub started_before : ℕ → ℕ → GhsaCvePushTask → Bool
started_before now seconds t = elim t.started_at [
  | none ↦ ltb (t.created_at + microseconds seconds) now
  | some at ↦ ltb (at + microseconds seconds) now
]

abbrev pub candidate_at : GhsaCvePushTaskStatus → Db → GhsaCvePushTask → Bool
candidate_at GhsaCvePushTaskStatus.running db t =
    started_before db.now db.settings.ghsa_cve_push_stale_running_after_seconds t
candidate_at GhsaCvePushTaskStatus.queued db t =
    ltb (t.created_at + microseconds db.settings.ghsa_cve_push_stale_queued_after_seconds) db.now
candidate_at _ db t = false

-- The candidate query of `reap_stale_cve_push_tasks`.
unfoldable pub is_candidate : Db → GhsaCvePushTask → Bool
is_candidate db t = candidate_at t.status db t

abbrev pub is_pending_badge : GhsaCvePushStatus → Bool
is_pending_badge GhsaCvePushStatus.pending = true
is_pending_badge _ = false

-- `other_live`: another queued or running push of the same advisory
abbrev pub is_other_live : GhsaCvePushTask → GhsaCvePushTask → Bool
is_other_live task t = is_live_push task.advisory t && not (t.pk == task.pk)

-- The badge of the advisory, read in the same transaction.
abbrev pub flip_badge : ℕ → Advisory → Advisory
flip_badge now a =
    if is_pending_badge a.ghsa_cve_push_status
    then record a {
      ghsa_cve_push_status = GhsaCvePushStatus.failed;
      ghsa_cve_push_attempted_at = some now;
    }
    else a

-- The failure of a stale push, with `error` its text as redacted.
pub reap_push : GhsaCvePushTask → Text → Db → Db
reap_push task error db =
    let marked = save_push task.pk (ended GhsaCvePushTaskStatus.failed error db.now) db in
    log Action.ghsa_cve_push_reaped none task.advisory (
      if exists_row (is_other_live task) marked.cve_pushes
      then marked
      else save_badge task.advisory (flip_badge db.now) marked)

module _ (reap_error : GhsaCvePushTaskStatus → ℕ → Text) where
  -- `_reap_one_push`: a compare and set
  pub reap_one_push : ℕ → GhsaCvePushTaskStatus → Db → Db
  unfolding reap_push push_stale_age_seconds
  reap_one_push pk expected db = elim (get_row push_key pk db.cve_pushes) [
    | none ↦ db
    | some t ↦
        if same_status t.status expected
        then (elim (push_stale_age_seconds db t) [
          | none ↦ db
          | some age ↦ reap_push t (reap_error expected age) db
        ])
        else db
  ]

  unfoldable pub reap_pushes : List GhsaCvePushTask → Db → Db
  unfolding reap_one_push
  reap_pushes [] db = db
  reap_pushes (t ∷ ts) db = reap_pushes ts (reap_one_push t.pk t.status db)

  -- `reap_stale_cve_push_tasks`
  unfoldable pub reap_stale_cve_push_tasks : Db → Db
  unfolding reap_pushes is_candidate
  reap_stale_cve_push_tasks db = reap_pushes (select (is_candidate db) db.cve_pushes) db
