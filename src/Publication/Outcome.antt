-- ===== src/Publication/Outcome.antt =====
-- What the last step of a run leaves behind.
pub mod Runs
use advisoryhub.Prelude.{
  ℕ, ◌≡◌, ◌⊎◌, refl, Bool, true, false, blank, codes, Option, none, some, List, [], ◌∷◌, Text,
  is_blank, get_row, map_row, modify_row, exists_row, get_row-modify_row_self, get_row-key, is_some,
  if◌then◌else◌, arith, Option-cases, Bool-cases, inl, inr, ◌∙◌, ap,
}
use advisoryhub.Accounts.{Actor}
use advisoryhub.Advisory.{Advisory, State}
use advisoryhub.Tasks.{PublicationTask, PublicationTaskStatus}
use advisoryhub.Db.{Db, Result, Error, Action, ok, err, Returns, save_advisory, record_action}
use advisoryhub.Workflows.{load_advisory}
use advisoryhub.Workflows.Orphan.{has_cve, orphan_cve, create_orphan, without_cve}
use advisoryhub.Lifecycle.Requests.{
  clear_reassignment_request_if_pending, without_reassignment_request,
}
use advisoryhub.Publication.{Externals, Export}
use advisoryhub.Publication.Run.{
  save_run, running, succeeded, failed, withdrawn_state, published_state, finish_published,
  finish_withdrawal, finish, stages, record_all, RunStatus, ended, missing, is_runnable, fail,
  settle, conclude, run_task, run_publication,
}

abbrev pub advisory_key : Advisory → ℕ
advisory_key a = a.pk

abbrev pub run_key : PublicationTask → ℕ
run_key t = t.pk

abbrev pub find : ℕ → Db → Option Advisory
find pk db = get_row advisory_key pk db.advisories

abbrev pub find_run : ℕ → Db → Option PublicationTask
find_run pk db = get_row run_key pk db.publications

-- The row is there, and is such.
abbrev pub Has : {A : Type 0} → Option A → (A → Type 0) → Type 0
Has none P = ⊥
Has (some a) P = P a

-- The ledger is all that a list of ledger rows changes.
pub record_all-audit :
    (actions : List Action) (k : ℕ) (db : Db)
    → record_all actions k db ≡ record db { audit = (record_all actions k db).audit }
unfolding record_all
record_all-audit [] k db = refl
record_all-audit (a ∷ rest) k db =
    record_all-audit rest k
      (record db { audit = record { action = a; actor = none; advisory = k } ∷ db.audit })

-- A row as a completed publication leaves it.
abbrev pub Released : ℕ → Advisory → Advisory → Type 0
Released now before a =
    (a.state ≡ State.published)
    × (a.republish_required ≡ false)
    × (a.published_at ≡ (if is_some before.published_at then before.published_at else some now))
    × (a.reassignment_requested_at ≡ none)
    × (a.assigned_cve_id ≡ before.assigned_cve_id)

finish_published_lem :
    (task : PublicationTask) (sha : Text) (row : Advisory) (db : Db)
    → find task.advisory db ≡ some row
    → Returns (finish_published task sha db) (λ _ db'.
      Has (find task.advisory db') (Released db.now row)
      × (find_run task.pk db' ≡ map_row (succeeded db.now sha) (find_run task.pk db)))
unfolding finish_published load_advisory save_advisory save_run record_action
    clear_reassignment_request_if_pending
finish_published_lem task sha row db e =
    let key = get_row-key advisory_key task.advisory row db.advisories e in
    let saved =
      get_row-modify_row_self advisory_key (published_state db.now row) (λ x. refl) task.advisory
        db.advisories in
    let cleared =
      get_row-modify_row_self advisory_key without_reassignment_request (λ x. refl) task.advisory
        (modify_row advisory_key task.advisory (published_state db.now row) db.advisories) in
    let run =
      get_row-modify_row_self run_key (succeeded db.now sha) (λ x. refl) task.pk db.publications in
    ground (arith, e, key, saved, cleared, run)

pub settle_published :
    (ext : Externals) (task : PublicationTask) (sha : Text) (row : Advisory) (db : Db)
    → is_blank task.version.payload.withdrawn_reason ≡ true
    → find task.advisory db ≡ some row
    → ((settle ext task (finish task sha db) db).0 ≡ ended PublicationTaskStatus.succeeded)
      × Has (find task.advisory (settle ext task (finish task sha db) db).1) (Released db.now row)
      × (find_run task.pk (settle ext task (finish task sha db) db).1
          ≡ map_row (succeeded db.now sha) (find_run task.pk db))
unfolding settle finish
settle_published ext task sha row db w e = ground (arith, w, finish_published_lem task sha row db e)

-- A row as a completed withdrawal leaves it.
abbrev pub Withdrawn : Text → Advisory → Advisory → Type 0
Withdrawn reason before a =
    (a.state ≡ State.dismissed)
    × (a.dismissed_from_state ≡ some before.state)
    × (a.dismissed_reason ≡ reason)
    × (is_blank a.assigned_cve_id ≡ true)
    × (a.published_at ≡ before.published_at)

pub finish_withdrawal_lem :
    (task : PublicationTask) (sha : Text) (row : Advisory) (db : Db)
    → find task.advisory db ≡ some row
    → is_blank row.assigned_cve_id ≡ true
      ⊎ exists_row (has_cve row.assigned_cve_id) db.orphans ≡ false
    → Returns (finish_withdrawal task sha db) (λ _ db'.
      Has (find task.advisory db') (Withdrawn task.version.payload.withdrawn_reason row)
      × (find_run task.pk db' ≡ map_row (succeeded db.now sha) (find_run task.pk db)))
unfolding finish_withdrawal load_advisory save_advisory save_run record_action orphan_cve
    create_orphan without_cve
finish_withdrawal_lem task sha row db e free =
    let key = get_row-key advisory_key task.advisory row db.advisories e in
    let reason = task.version.payload.withdrawn_reason in
    let saved =
      get_row-modify_row_self advisory_key (withdrawn_state reason row.state) (λ x. refl)
        task.advisory db.advisories in
    let cleared =
      get_row-modify_row_self advisory_key (without_cve (withdrawn_state reason row.state row))
        (λ x. refl) task.advisory
        (modify_row advisory_key task.advisory (withdrawn_state reason row.state) db.advisories) in
    let run =
      get_row-modify_row_self run_key (succeeded db.now sha) (λ x. refl) task.pk db.publications in
    elim free [
      | inl none_held ↦ ground (arith, e, key, saved, cleared, run, none_held)
      | inr none_kept ↦ elim (Bool-cases (is_blank row.assigned_cve_id)) [
        | inl b ↦ ground (arith, e, key, saved, cleared, run, b)
        | inr b ↦ ground (arith, e, key, saved, cleared, run, none_kept, b)
      ]
    ]

-- With a receipt for its CVE in the table already, the last step of a withdrawal fails.
pub finish_withdrawal-stuck :
    (task : PublicationTask) (sha : Text) (row : Advisory) (db : Db)
    → find task.advisory db ≡ some row
    → is_blank row.assigned_cve_id ≡ false
    → exists_row (has_cve row.assigned_cve_id) db.orphans ≡ true
    → finish_withdrawal task sha db ≡ err Error.integrity_error
unfolding finish_withdrawal load_advisory save_advisory save_run record_action orphan_cve
    create_orphan
finish_withdrawal-stuck task sha row db e b kept = ground (arith, e, b, kept)
