-- ===== src/Publication/Reaper.antt =====
-- The reaper of runs that are stuck (publication/services.py). Times are in microseconds.
pub mod Stale
use advisoryhub.Prelude.{
  ℕ, ◌+◌, ◌-◌, Bool, true, false, ◌&&◌, ◌||◌, Option, none, some, List, [], ◌∷◌, Text, ltb, ◌==◌,
  get_row, select, if◌then◌else◌, map,
}
use Prim.Native.Nat.{◌*◌, ◌/◌}
use advisoryhub.Tasks.{PublicationTask, PublicationTaskStatus}
use advisoryhub.Db.{Db, Action, Message}
use advisoryhub.Publication.Run.{save_run, failed}

abbrev pub microseconds : ℕ → ℕ
microseconds seconds = 1000000 * seconds

-- `started_at < cutoff`, or `created_at < cutoff` where it was never started
abbrev pub started_before : ℕ → ℕ → PublicationTask → Bool
started_before now seconds t = elim t.started_at [
  | none ↦ ltb (t.created_at + microseconds seconds) now
  | some at ↦ ltb (at + microseconds seconds) now
]

pub candidate_at : PublicationTaskStatus → Db → PublicationTask → Bool
candidate_at PublicationTaskStatus.running db t =
    started_before db.now db.settings.pub_task_stale_running_after_seconds t
candidate_at PublicationTaskStatus.queued db t =
    ltb (t.created_at + microseconds db.settings.pub_task_stale_queued_after_seconds) db.now
candidate_at _ db t = false

-- The candidate query of `reap_stale_tasks`.
unfoldable pub is_candidate : Db → PublicationTask → Bool
unfolding candidate_at
is_candidate db t = candidate_at t.status db t

abbrev pub over : ℕ → ℕ → Option ℕ
over threshold age = if ltb threshold age then some age else none

abbrev pub or_created : Option ℕ → ℕ → ℕ
or_created none created = created
or_created (some at) created = at

-- `_stale_age_seconds`, at a status
stale_age_at : PublicationTaskStatus → Db → PublicationTask → Option ℕ
stale_age_at PublicationTaskStatus.running db t =
    over db.settings.pub_task_stale_running_after_seconds
      ((db.now - or_created t.started_at t.created_at) / 1000000)
stale_age_at PublicationTaskStatus.queued db t =
    over db.settings.pub_task_stale_queued_after_seconds ((db.now - t.created_at) / 1000000)
stale_age_at _ db t = none

unfoldable pub stale_age_seconds : Db → PublicationTask → Option ℕ
unfolding stale_age_at
stale_age_seconds db t = stale_age_at t.status db t

-- `status=expected_status`
abbrev pub same_status : PublicationTaskStatus → PublicationTaskStatus → Bool
same_status PublicationTaskStatus.queued PublicationTaskStatus.queued = true
same_status PublicationTaskStatus.running PublicationTaskStatus.running = true
same_status PublicationTaskStatus.succeeded PublicationTaskStatus.succeeded = true
same_status PublicationTaskStatus.failed PublicationTaskStatus.failed = true
same_status _ _ = false

-- The failure of a stale task, with `error` its text as redacted.
pub reap : PublicationTask → Text → Db → Db
reap t error db =
    let marked = save_run t.pk (failed db.now error) db in
    record marked {
      audit =
          record { action = Action.publication_task_reaped; actor = none; advisory = t.advisory }
          ∷ marked.audit;
      outbox = Message.export_status t.advisory ∷ marked.outbox;
    }

module _ (reap_error : PublicationTaskStatus → ℕ → Text) where
  -- `_reap_one`: a compare and set, with the notification that its caller sends
  pub reap_one : ℕ → PublicationTaskStatus → Db → Db
  reap_one pk expected db = elim (get_row (λ (t : PublicationTask). t.pk) pk db.publications) [
    | none ↦ db
    | some t ↦
        if same_status t.status expected
        then (elim (stale_age_seconds db t) [
          | none ↦ db
          | some age ↦ reap t (reap_error expected age) db
        ])
        else db
  ]

  reap_all : List PublicationTask → Db → Db
  reap_all [] db = db
  reap_all (t ∷ ts) db = reap_all ts (reap_one t.pk t.status db)

  -- `reap_stale_tasks`
  pub reap_stale_tasks : Db → Db
  unfolding reap_all is_candidate
  reap_stale_tasks db = reap_all (select (is_candidate db) db.publications) db
