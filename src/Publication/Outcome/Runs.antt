-- ===== src/Publication/Outcome/Runs.antt =====
-- What a run leaves behind, on each way that it can end.
use advisoryhub.Prelude.{
  ℕ, ◌+◌, ◌≡◌, ◌⊎◌, refl, blank, Bool, true, false, some, Text, is_blank, get_row, exists_row,
  get_row-modify_row_self, get_row-key, arith, ◌∙◌, ap,
}
use advisoryhub.Advisory.{Advisory}
use advisoryhub.Tasks.{PublicationTask, PublicationTaskStatus}
use advisoryhub.Db.{Db, Error, Action, err}
use advisoryhub.Workflows.Orphan.{has_cve}
use advisoryhub.Publication.{Externals, Export}
use advisoryhub.Publication.Run.{
  save_run, running, succeeded, failed, finish, stages, record_all, RunStatus, ended, is_runnable,
  fail, settle, conclude, run_task, run_publication,
}
use advisoryhub.Publication.Outcome.{
  advisory_key, run_key, find, find_run, Has, Released, Withdrawn, record_all-audit,
  settle_published, finish_withdrawal_lem, finish_withdrawal-stuck,
}

abbrev is_pushed : Export → Bool
is_pushed (Export.pushed sha) = true
is_pushed _ = false

-- A run that ended failed after so many attempts, with no advisory and no orphan CVE touched.
abbrev pub EndedFailed : RunStatus × Db → Db → ℕ → ℕ → Type 0
EndedFailed result db pk attempts =
    (result.0 ≡ ended PublicationTaskStatus.failed)
    × (result.1.advisories ≡ db.advisories)
    × (result.1.orphans ≡ db.orphans)
    × Has (find_run pk result.1)
        (λ t. (t.status ≡ PublicationTaskStatus.failed) × (t.attempts ≡ attempts))

-- The row of a run that has succeeded, against the row from before it.
abbrev pub Succeeded : ℕ → Text → PublicationTask → PublicationTask → Type 0
Succeeded now sha before t =
    (t.status ≡ PublicationTaskStatus.succeeded)
    × (t.commit_sha ≡ sha)
    × (t.attempts ≡ before.attempts + 1)
    × (t.started_at ≡ some now)
    × (t.finished_at ≡ some now)
    × (t.last_error ≡ blank)
    × (t.advisory ≡ before.advisory)
    × (t.version ≡ before.version)

module _ (ext : Externals) (held : PublicationTask) (db : Db)
    (run : find_run held.pk db ≡ some held) where
  fail_lem :
      (error : Text) (action : Action)
      → EndedFailed (fail ext held error action db) db held.pk held.attempts
  unfolding fail save_run
  fail_lem error action = ground (
    arith,
    run,
    get_row-modify_row_self run_key (failed db.now (ext.redact_error error)) (λ x. refl) held.pk
        db.publications,
  )

  conclude-failed :
      (outcome : Export)
      → is_pushed outcome ≡ false
      → EndedFailed (conclude ext held outcome db) db held.pk held.attempts
  unfolding conclude
  conclude-failed (Export.invalid_osv e) h = fail_lem _ _
  conclude-failed (Export.invalid_csaf e) h = fail_lem _ _
  conclude-failed (Export.invalid_cve e) h = fail_lem _ _
  conclude-failed (Export.git_failed e) h = fail_lem _ _
  conclude-failed (Export.unexpected n e) h = fail_lem _ _
  conclude-failed (Export.pushed sha) h = ground arith

  conclude-stuck :
      (outcome : Export) (sha : Text) (e : Error)
      → outcome ≡ Export.pushed sha
      → finish held sha db ≡ err e
      → EndedFailed (conclude ext held outcome db) db held.pk held.attempts
  unfolding conclude settle
  conclude-stuck outcome sha e p h = rw (p, h) (fail_lem _ _)

module _ (ext : Externals) (task_id : ℕ) (task : PublicationTask) (db : Db)
    (queued : find_run task_id db ≡ some task) (runnable : is_runnable task.status ≡ true) where
  abbrev pub held : PublicationTask
  held = running db.now task task

  -- The database that the last step of the run starts from.
  abbrev exported : Db
  exported =
      record_all (stages held (ext.export held)) task.advisory
        (save_run task.pk (running db.now task) db)

  exported-audit :
      exported ≡ record (save_run task.pk (running db.now task) db) { audit = exported.audit }
  exported-audit =
      record_all-audit (stages held (ext.export held)) task.advisory
        (save_run task.pk (running db.now task) db)

  run-conclude : run_publication ext task_id db ≡ conclude ext held (ext.export held) exported
  unfolding run_publication run_task
  run-conclude = ground (arith, queued, runnable)

  exported-rows :
      (exported.advisories ≡ db.advisories)
      × (exported.orphans ≡ db.orphans)
      × (exported.now ≡ db.now)
      × (find_run task_id exported ≡ some held)
  unfolding save_run
  exported-rows = (
    ap (λ (x : Db). x.advisories) exported-audit,
    ap (λ (x : Db). x.orphans) exported-audit,
    ap (λ (x : Db). x.now) exported-audit,
    ap (find_run task_id) exported-audit
        ∙ ground (
          arith,
          queued,
          get_row-key run_key task_id task db.publications queued,
          get_row-modify_row_self run_key (running db.now task) (λ x. refl) task.pk db.publications,
        ),
  )

  -- The row of a run whose documents are pushed without a withdrawn marker.
  pub run_succeeded :
      (sha : Text) (row : Advisory)
      → ext.export held ≡ Export.pushed sha
      → is_blank task.version.payload.withdrawn_reason ≡ true
      → find task.advisory db ≡ some row
      → ((run_publication ext task_id db).0 ≡ ended PublicationTaskStatus.succeeded)
        × Has (find task.advisory (run_publication ext task_id db).1) (Released db.now row)
        × (find_run task_id (run_publication ext task_id db).1 ≡ some (succeeded db.now sha held))
  unfolding conclude
  run_succeeded sha row p w e =
      let (rows, orphans, now, run) = exported-rows in
      ground (
        arith,
        run-conclude,
        p,
        now,
        run,
        get_row-key run_key task_id task db.publications queued,
        settle_published ext held sha row exported w
            (ap (get_row advisory_key task.advisory) rows ∙ e),
      )

  -- A queued or failed run whose documents are pushed, and whose pinned version carries no withdrawn
  -- marker, succeeds where its advisory is in the database: the advisory is published, keeps its
  -- first publication date and its CVE, needs no republication and has no open reassignment request.
  -- The run's row has succeeded, holds the commit, has counted one attempt more, was started and
  -- finished at the clock's time, keeps its advisory and its version, and has no error.
  pub run_published :
      (sha : Text) (row : Advisory)
      → ext.export held ≡ Export.pushed sha
      → is_blank task.version.payload.withdrawn_reason ≡ true
      → find task.advisory db ≡ some row
      → ((run_publication ext task_id db).0 ≡ ended PublicationTaskStatus.succeeded)
        × Has (find task.advisory (run_publication ext task_id db).1) (Released db.now row)
        × Has (find_run task_id (run_publication ext task_id db).1) (Succeeded db.now sha task)
  run_published sha row p w e =
      let (status, released, run) = run_succeeded sha row p w e in
      (status, released, rw run (refl, refl, refl, refl, refl, refl, refl, refl))

  ended_failed :
      EndedFailed (conclude ext held (ext.export held) exported) exported held.pk held.attempts
      → EndedFailed (run_publication ext task_id db) db task.pk (task.attempts + 1)
  ended_failed h =
      let (rows, orphans, now, run) = exported-rows in
      rw run-conclude (h.0, h.1 ∙ rows, h.2 ∙ orphans, h.3)

  held_found : find_run held.pk exported ≡ some held
  held_found =
      let (rows, orphans, now, run) = exported-rows in
      ap (λ k. find_run k exported) (get_row-key run_key task_id task db.publications queued) ∙ run

  -- A queued or failed run whose export fails, at a document, at Git or at anything else, ends
  -- failed: no advisory and no orphan CVE is touched, and the run's row is failed
  -- and has counted one attempt more than before.
  pub run_failed :
      is_pushed (ext.export held) ≡ false
      → EndedFailed (run_publication ext task_id db) db task.pk (task.attempts + 1)
  run_failed p = ended_failed (conclude-failed ext held exported held_found (ext.export held) p)

  -- A queued or failed run whose documents are pushed with a withdrawn marker dismisses its
  -- advisory, if the advisory's CVE, if it has one, has no orphan receipt yet: the row remembers the
  -- state that it was in and when it was first published, and holds no CVE any more.
  pub run-Withdrawn :
      (sha : Text) (row : Advisory)
      → ext.export held ≡ Export.pushed sha
      → is_blank task.version.payload.withdrawn_reason ≡ false
      → find task.advisory db ≡ some row
      → is_blank row.assigned_cve_id ≡ true
        ⊎ exists_row (has_cve row.assigned_cve_id) db.orphans ≡ false
      → ((run_publication ext task_id db).0 ≡ ended PublicationTaskStatus.succeeded)
        × Has
            (find task.advisory (run_publication ext task_id db).1)
            (Withdrawn task.version.payload.withdrawn_reason row)
  unfolding conclude settle finish
  run-Withdrawn sha row p w e free =
      let (rows, orphans, now, run) = exported-rows in
      ground (
        arith,
        run-conclude,
        p,
        w,
        finish_withdrawal_lem held sha row exported
            (ap (get_row advisory_key task.advisory) rows ∙ e) (rw orphans free),
      )

  -- Where the CVE of the advisory has an orphan receipt already, a run with a withdrawn marker ends
  -- failed although its documents were pushed, and leaves every advisory as it was.
  pub run_withdrawn-stuck :
      (sha : Text) (row : Advisory)
      → ext.export held ≡ Export.pushed sha
      → is_blank task.version.payload.withdrawn_reason ≡ false
      → find task.advisory db ≡ some row
      → is_blank row.assigned_cve_id ≡ false
      → exists_row (has_cve row.assigned_cve_id) db.orphans ≡ true
      → EndedFailed (run_publication ext task_id db) db task.pk (task.attempts + 1)
  unfolding finish
  run_withdrawn-stuck sha row p w e b kept =
      let (rows, orphans, now, run) = exported-rows in
      ended_failed (
        conclude-stuck ext held exported held_found (ext.export held) sha Error.integrity_error p (
          rw w (
            finish_withdrawal-stuck held sha row exported
              (ap (get_row advisory_key task.advisory) rows ∙ e) b
              (ap (exists_row (has_cve row.assigned_cve_id)) orphans ∙ kept))))

  -- A published run that the queue delivers once more changes nothing.
  pub run_published_twice :
      (sha : Text) (row : Advisory)
      → ext.export held ≡ Export.pushed sha
      → is_blank task.version.payload.withdrawn_reason ≡ true
      → find task.advisory db ≡ some row
      → run_publication ext task_id (run_publication ext task_id db).1
        ≡ run_publication ext task_id db
  unfolding run_publication
  run_published_twice sha row p w e = ground (arith, run_succeeded sha row p w e)
