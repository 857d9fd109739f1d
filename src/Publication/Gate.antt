-- ===== src/Publication/Gate.antt =====
-- Who may start a run, and that an advisory has at most one live run.
use advisoryhub.Prelude.{
  ℕ, ◌≡◌, true, false, some, count_rows, exists_row-eq-count_rows, count-exists, ◌<◌, arith,
}
use advisoryhub.Accounts.{Actor}
use advisoryhub.Advisory.{Advisory, Kind, is_dismissed}
use advisoryhub.Tasks.{AdvisoryVersion, PublicationTaskStatus}
use advisoryhub.Versions.{latest_version}
use advisoryhub.Db.{Db, Error, err, Returns, record_action, on_commit}
use advisoryhub.Permissions.Review.{can_publish}
use advisoryhub.Publication.{
  Externals, is_live_run, publish, publish_gate, pin_latest, create_publication,
}
use advisoryhub.Workflows.Review.Pending.{find}

abbrev pub live_runs : ℕ → Db → ℕ
live_runs k db = count_rows (is_live_run k) db.publications

-- Who may publish meets no block on dismissed advisories.
pub can_publish-not-dismissed :
    (db : Db) (by : Actor) (a : Advisory)
    → can_publish db by a ≡ true
    → is_dismissed a.state ≡ false
unfolding can_publish
can_publish-not-dismissed db by a h = ground arith

module _ (ext : Externals) (copy row : Advisory) (by : Actor) (db : Db)
    (native : copy.kind ≡ Kind.native) (found : find copy.pk db ≡ some row) where
  -- A person publishes a native advisory, from a copy that may be stale. The row in the database
  -- decides: who may not publish it is refused; who may is refused while a run of it is live; else,
  -- if it has a version, a queued run is started that is pinned to the latest one, and is the only
  -- live run of the advisory.
  pub publish_native :
      (can_publish db by row ≡ false
        → publish ext copy by false false db ≡ err Error.permission_denied)
      × (can_publish db by row ≡ true
          → 0 < live_runs copy.pk db
          → publish ext copy by false false db ≡ err Error.publication_in_progress)
      × (can_publish db by row ≡ true
          → live_runs copy.pk db ≡ 0
          → (v : AdvisoryVersion) → latest_version copy.pk db ≡ some v
          → Returns (publish ext copy by false false db) (λ t db'.
            (t.version ≡ v)
            × (t.status ≡ PublicationTaskStatus.queued)
            × (live_runs copy.pk db' ≡ 1)
            × (find copy.pk db' ≡ some row)))
  unfolding publish publish_gate pin_latest create_publication record_action on_commit
  publish_native = (
    λ no. ground (arith, found, no),
    λ may live. ground (
      arith,
      found,
      may,
      exists_row-eq-count_rows (is_live_run copy.pk) db.publications,
      can_publish-not-dismissed db by row,
    ),
    λ may none_live v latest. ground (
      arith,
      found,
      may,
      latest,
      count-exists (is_live_run copy.pk) db.publications,
      can_publish-not-dismissed db by row,
    ),
  )
