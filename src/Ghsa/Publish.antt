-- ===== src/Ghsa/Publish.antt =====
-- Publishing a linked advisory (publication/services.py, `publish`, with the sync that
-- ghsa/services.py makes before it).
use advisoryhub.Prelude.{
  ℕ, ◌≡◌, ◌∙◌, ap, sym, refl, Bool, true, false, not, ◌&&◌, some, is_some, Text, blank, is_blank,
  exists_row, arith, Bool-cases, inl, inr,
}
use advisoryhub.Accounts.{Actor}
use advisoryhub.Advisory.{Advisory, Content, is_ghsa_linked, to_payload}
use advisoryhub.Tasks.{AdvisoryVersion, PublicationTask}
use advisoryhub.Db.{
  Db, Result, Error, ok, err, require, require_not, Returns, ◌>>=◌, ◌>>◌, pure, record_action,
  on_commit,
}
use advisoryhub.Db.Calls.{Returns->>=, Returns-mono}
use advisoryhub.Versions.{latest_version}
use advisoryhub.Permissions.Review.{can_publish}
use advisoryhub.Publication.{
  Externals, Export, is_live_run, is_ghsa_published, publish, publish_gate, refresh_for_publish,
  pin_latest, create_publication,
}
use advisoryhub.Publication.Gate.{can_publish-not-dismissed}
use advisoryhub.Documents.{done}
use advisoryhub.Documents.Json.{Json}
use advisoryhub.Documents.Lists.{or_default}
use advisoryhub.Ghsa.Apply.{
  TranslateResult, Translated, translate, to_content, changed_columns, apply_ghsa_to_advisory,
}
use advisoryhub.Ghsa.Sync.{
  Github, SyncSummary, payload, some_changed, is_conflict, sync_single_ghsa,
}
use advisoryhub.Ghsa.Sync.Written.{Synced, sync_single_ghsa-Synced, unchanged}
use advisoryhub.Workflows.Review.Pending.{find}

-- The publication services over the sync.
abbrev pub syncing : Github → (PublicationTask → Export) → (Text → Text) → Externals
syncing g export redact = record {
  sync_single_ghsa = λ a by. do
    synced ← sync_single_ghsa g a by
    pure (synced.0.missing_upstream, synced.1);
  export = export;
  redact_error = redact;
}

-- The run is pinned to the latest version.
pin_latest-Returns :
    (ext : Externals) (pk : ℕ) (by : Actor) (db : Db) (v : AdvisoryVersion)
    → latest_version pk db ≡ some v
    → Returns (pin_latest ext pk by db) (λ t db'. (t.version ≡ v) × (find pk db' ≡ find pk db))
unfolding pin_latest create_publication record_action on_commit
pin_latest-Returns ext pk by db v e = rw e (refl, refl)

module _ (g : Github) (export : PublicationTask → Export) (redact : Text → Text)
    (copy row : Advisory) (by : Actor) (db : Db) (v0 : AdvisoryVersion) (result : TranslateResult)
    (content : Content) where
  -- The latest version after the sync has GitHub's content.
  latest-content :
      (r : SyncSummary × Advisory) (db' : Db)
      → latest_version copy.pk db ≡ some v0
      → v0.payload.content ≡ copy.content
      → Synced g copy row db result content r db'
      → (v : AdvisoryVersion) × (latest_version copy.pk db' ≡ some v)
        × (v.payload.content ≡ content)
  unfolding to_payload
  latest-content r db' latest held s =
      elim (Bool-cases (some_changed (changed_columns content copy.content))) [
        | inl changed ↦ let (v, e, p) = s.9 changed in (v, e, ap (λ x. x.content) p ∙ s.1)
        | inr same ↦ (v0, s.10 same ∙ latest, held ∙ sym (unchanged content copy.content same))
      ]

gate-passed :
    (ext : Externals) (pk : ℕ) (row : Advisory) (by : Actor) (db : Db)
    → find pk db ≡ some row
    → can_publish db by row ≡ true
    → exists_row (is_live_run pk) db.publications ≡ false
    → publish_gate ext pk by false false db ≡ ok row db
unfolding publish_gate
gate-passed ext pk row by db found may idle =
    ground (arith, found, may, idle, can_publish-not-dismissed db by row may)

-- The gate lets through who may publish, where no run is live.
publish-gated :
    (ext : Externals) (copy row : Advisory) (by : Actor) (db : Db)
    → find copy.pk db ≡ some row
    → can_publish db by row ≡ true
    → exists_row (is_live_run copy.pk) db.publications ≡ false
    → is_ghsa_linked copy.kind && is_blank copy.withdrawn_reason ≡ true
    → publish ext copy by false false db
      ≡ (refresh_for_publish ext copy by >> pin_latest ext copy.pk by) db
unfolding publish
publish-gated ext copy row by db found may idle linked =
    ground (arith, gate-passed ext copy.pk row by db found may idle, linked)

-- The refresh passes where the sync finds the advisory published, without a conflict.
refresh-Returns :
    (g : Github) (export : PublicationTask → Export) (redact : Text → Text) (copy : Advisory)
    (by : Actor) (db : Db) (P : SyncSummary × Advisory → Db → Type 0) (Q : Db → Type 0)
    → is_ghsa_linked copy.kind ≡ true
    → Returns (sync_single_ghsa g copy by db) P
    → ((r : SyncSummary × Advisory) (db' : Db)
        → P r db'
        → (r.0.missing_upstream ≡ false)
          × (is_ghsa_published r.1.ghsa_state ≡ true)
          × (is_some r.1.ghsa_cve_conflict_detected_at ≡ false)
          × Q db')
    → Returns (refresh_for_publish (syncing g export redact) copy by db) (λ u db'. Q db')
unfolding refresh_for_publish
refresh-Returns g export redact copy by db P Q linked h k =
    rw linked (go (sync_single_ghsa g copy by db) h)
  where
    go :
        (m : Result (SyncSummary × Advisory))
        → Returns m P
        → Returns
            (elim (elim m as (λ x. Result (Bool × Advisory)) [
              | ok s db' ↦ ok (s.0.missing_upstream, s.1) db'
              | err e ↦ err e
            ])
              as (λ x. Result (Unit {0})) [
                | ok s db' ↦
                    (require_not s.0 Error.permission_denied
                        >> (require (is_ghsa_published s.1.ghsa_state) Error.permission_denied
                            >> require_not
                                (is_some s.1.ghsa_cve_conflict_detected_at)
                                Error.permission_denied))
                      db'
                | err e ↦ err e
              ])
            (λ u db'. Q db')
    go (ok r db') p = let (a, b, c, q) = k r db' p in rw (a, b, c) q
    go (err e) p = p

-- A linked advisory that is not withdrawn is published by someone who may, while no run of it is
-- live. GitHub has it in the state "published", its payload is translated, and no conflict of CVE
-- ids was marked or is found now. Where its latest version held the content of the caller's copy, a
-- run is started that is pinned to a version with exactly GitHub's content. The row has that content
-- too, and for the rest the state and the CVE id of the caller's copy, which may be stale.
pub publish_linked :
    (g : Github) (export : PublicationTask → Export) (redact : Text → Text) (copy row : Advisory)
    (by : Actor) (db : Db) (v0 : AdvisoryVersion) (value : Json) (result : TranslateResult)
    (applied : Advisory)
    → find copy.pk db ≡ some row
    → can_publish db by row ≡ true
    → exists_row (is_live_run copy.pk) db.publications ≡ false
    → is_ghsa_linked copy.kind ≡ true
    → is_blank copy.withdrawn_reason ≡ true
    → not (is_blank copy.ghsa_id) && not (is_blank copy.ghsa_owner) && not (is_blank copy.ghsa_repo)
      ≡ true
    → g.get_advisory copy.ghsa_owner copy.ghsa_repo copy.ghsa_id ≡ payload value
    → apply_ghsa_to_advisory g.dump g.upper g.lower g.is_decimal g.url_valid copy value
      ≡ done (result, applied)
    → is_ghsa_published result.ghsa_state ≡ true
    → is_some copy.ghsa_cve_conflict_detected_at ≡ false
    → is_conflict copy.assigned_cve_id (or_default blank result.cve_id_from_ghsa) ≡ false
    → latest_version copy.pk db ≡ some v0
    → v0.payload.content ≡ copy.content
    → (t : Translated) × (translate g.upper g.lower g.is_decimal g.url_valid value ≡ done t)
      × Returns (publish (syncing g export redact) copy by false false db) (λ run db'.
        (run.version.payload.content ≡ to_content g.dump t)
        × (a : Advisory) × (find copy.pk db' ≡ some a)
        × (a.content ≡ to_content g.dump t)
        × (a.state ≡ copy.state)
        × (a.assigned_cve_id ≡ copy.assigned_cve_id))
publish_linked g export redact copy row by db v0 value result applied found may idle linked kept
      named fetched done_so out_there unmarked agreed latest held =
    let ext = syncing g export redact in
    let (t, translated, synced) =
      sync_single_ghsa-Synced g copy row by db value result applied found linked named fetched
        done_so in
    (
      t,
      translated,
      rw (publish-gated ext copy row by db found may idle (ground (arith, linked, kept))) (
          Returns->>= (refresh_for_publish ext copy by db) (λ _. pin_latest ext copy.pk by)
            (λ u db'.
              (v : AdvisoryVersion) × (a : Advisory) × (latest_version copy.pk db' ≡ some v)
              × (v.payload.content ≡ to_content g.dump t)
              × (find copy.pk db' ≡ some a)
              × (a.content ≡ to_content g.dump t)
              × (a.state ≡ copy.state)
              × (a.assigned_cve_id ≡ copy.assigned_cve_id))
            _
            (refresh-Returns g export redact copy by db
              (Synced g copy row db result (to_content g.dump t)) _ linked synced
              (λ r db' s.
                let (v, e, c) =
                  latest-content g export redact copy row by db v0 result (to_content g.dump t) r
                    db' latest held s in
                (
                  s.7,
                  ap is_ghsa_published s.2 ∙ out_there,
                  s.8 ∙ ground (arith, agreed, unmarked),
                  (v, record r.1 { intake = row.intake }, e, c, s.0, s.1, s.4, s.3),
                )))
            (λ u db' p.
              Returns-mono (pin_latest ext copy.pk by db') _ _
                (pin_latest-Returns ext copy.pk by db' p.0 p.2)
                (λ run db'' q. (
                  ap (λ (x : AdvisoryVersion). x.payload.content) q.0 ∙ p.3,
                  p.1,
                  q.1 ∙ p.4,
                  p.5,
                  p.6,
                  p.7,
                )))),
    )
