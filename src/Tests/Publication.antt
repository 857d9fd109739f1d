-- ===== src/Tests/Publication.antt =====
-- Publication at concrete rows.
use advisoryhub.Prelude.{ℕ, ◌≡◌, refl, some, false, codes, blank, inr, [], ◌∷◌, List}
use advisoryhub.Accounts.{Actor}
use advisoryhub.Tasks.{PublicationTaskStatus}
use advisoryhub.Db.{Db, Returns}
use advisoryhub.Publication.{Export, publish}
use advisoryhub.Publication.Run.{RunStatus, ended, run_publication}
use advisoryhub.Publication.Outcome.{Has, Released, Withdrawn, find, find_run}
use advisoryhub.Publication.Outcome.Runs.{
  EndedFailed, Succeeded, run_published, run_failed, run-Withdrawn, run_withdrawn-stuck,
}
use advisoryhub.Publication.Gate.{publish_native, live_runs}
use advisoryhub.Permissions.Review.{can_publish}
use advisoryhub.Permissions.{
  is_global_admin, is_mature_publisher_member, is_security_team_member, group_state,
}
use advisoryhub.Versions.{latest_version}
use advisoryhub.Publication.Reaper.{reap_stale_tasks, stale_age_seconds}
use advisoryhub.Publication.Reaper.Stale.{HasFailed, reap_stale_tasks_outcome}
use advisoryhub.Tests.Data.{
  admin, draft, published, run, version, run_db, ending, orphan, with_rows,
}

abbrev pushed : Export
pushed = Export.pushed (codes "a1b2")

abbrev rejected : Export
rejected = Export.git_failed (codes "rejected")

abbrev outcome : Export → Db → RunStatus × Db
outcome e db = run_publication (ending e) 12 db

run_published_example :
    ((outcome pushed (run_db blank draft)).0 ≡ ended PublicationTaskStatus.succeeded)
    × Has (find 7 (outcome pushed (run_db blank draft)).1) (Released 5000000000 draft)
    × Has
        (find_run 12 (outcome pushed (run_db blank draft)).1)
        (Succeeded 5000000000 (codes "a1b2") (run blank))
run_published_example =
    run_published (ending pushed) 12 (run blank) (run_db blank draft) refl refl (codes "a1b2") draft
      refl refl refl

run_failed_example : EndedFailed (outcome rejected (run_db blank draft)) (run_db blank draft) 12 1
run_failed_example = run_failed (ending rejected) 12 (run blank) (run_db blank draft) refl refl refl

abbrev reason : List ℕ
reason = codes "wrong"

run-Withdrawn_example :
    ((outcome pushed (run_db reason published)).0 ≡ ended PublicationTaskStatus.succeeded)
    × Has (find 7 (outcome pushed (run_db reason published)).1) (Withdrawn reason published)
run-Withdrawn_example =
    run-Withdrawn (ending pushed) 12 (run reason) (run_db reason published) refl refl (codes "a1b2")
      published refl refl refl (inr refl)

abbrev receipt_db : Db
receipt_db = record (run_db reason published) { orphans = orphan ∷ [] }

run_withdrawn-stuck_example : EndedFailed (outcome pushed receipt_db) receipt_db 12 1
run_withdrawn-stuck_example =
    run_withdrawn-stuck (ending pushed) 12 (run reason) receipt_db refl refl (codes "a1b2")
      published refl refl refl refl refl

publish_native_example :
    Returns
      (publish (ending pushed) draft (Actor.account admin) false false (with_rows draft))
      (λ t db'.
        (t.version ≡ version blank)
        × (t.status ≡ PublicationTaskStatus.queued)
        × (live_runs 7 db' ≡ 1)
        × (find 7 db' ≡ some draft))
unfolding can_publish is_global_admin is_mature_publisher_member is_security_team_member group_state
    latest_version
publish_native_example =
    (publish_native (ending pushed) draft draft (Actor.account admin) (with_rows draft) refl refl).2
      refl refl (version blank) refl

reap_stale_tasks_outcome_example :
    HasFailed (find_run 12 (reap_stale_tasks (λ status age. codes "stale") (run_db blank draft)))
unfolding stale_age_seconds
reap_stale_tasks_outcome_example =
    (reap_stale_tasks_outcome (λ status age. codes "stale") (run_db blank draft) 12 (run blank)
        refl).1
      refl
