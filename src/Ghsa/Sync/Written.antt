-- ===== src/Ghsa/Sync/Written.antt =====
-- What a sync leaves (ghsa/services.py, `sync_single_ghsa`).
use advisoryhub.Prelude.{
  ℕ, ◌≡◌, ◌∙◌, refl, ap, sym, Bool, true, false, not, ◌&&◌, ◌||◌, some, is_some, blank, codes,
  is_blank, text_eq_sound, map_row, modify_row, get_row-write_row, arith,
}
use advisoryhub.Accounts.{Actor}
use advisoryhub.Advisory.{Advisory, Content, is_published, is_ghsa_linked, to_payload}
use advisoryhub.Tasks.{AdvisoryVersion}
use advisoryhub.Db.{Db, Action, Returns, save_advisory, record_action, when, pure, ◌>>◌}
use advisoryhub.Db.Calls.{Returns->>=, Returns-mono}
use advisoryhub.Versions.{latest_version, record_advisory_version}
use advisoryhub.Versions.History.{record_advisory_version_outcome}
use advisoryhub.Documents.{done, bind-done}
use advisoryhub.Documents.Json.{Json, get}
use advisoryhub.Documents.Lists.{or_default}
use advisoryhub.Ghsa.Apply.{
  TranslateResult, Translated, translate, to_content, changed_columns, apply_ghsa_to_advisory,
}
use advisoryhub.Ghsa.Fields.{extract_cve_id, translate_state}
use advisoryhub.Ghsa.Sync.{
  Github, SyncSummary, payload, some_changed, is_conflict, is_resolved, mark_conflict, synced_copy,
  sync_found, sync_fetched, sync_single_ghsa,
}
use advisoryhub.Workflows.Review.Pending.{find}

-- Fields that are all noted as unchanged are the same.
pub unchanged : (new old : Content) → some_changed (changed_columns new old) ≡ false → new ≡ old
unfolding changed_columns
unchanged new old h = λ i. record {
  summary = text_eq_sound new.summary old.summary (ground (arith, h)) i;
  details = text_eq_sound new.details old.details (ground (arith, h)) i;
  aliases = text_eq_sound new.aliases old.aliases (ground (arith, h)) i;
  references = text_eq_sound new.references old.references (ground (arith, h)) i;
  affected = text_eq_sound new.affected old.affected (ground (arith, h)) i;
  severity = text_eq_sound new.severity old.severity (ground (arith, h)) i;
  cwe_ids = text_eq_sound new.cwe_ids old.cwe_ids (ground (arith, h)) i;
  credits = text_eq_sound new.credits old.credits (ground (arith, h)) i;
}

-- What applying a payload gives, where it is translated.
pub record Applied (g : Github) (a : Advisory) (value : Json) (t : Translated)
    (result : TranslateResult) (applied : Advisory) : Type 0 where
  pub translated : translate g.upper g.lower g.is_decimal g.url_valid value ≡ done t
  pub content : applied ≡ record a { content = to_content g.dump t }
  pub changed : result.changed_field_names ≡ changed_columns (to_content g.dump t) a.content

apply-Applied :
    (g : Github) (a : Advisory) (value : Json) (result : TranslateResult) (applied : Advisory)
    → apply_ghsa_to_advisory g.dump g.upper g.lower g.is_decimal g.url_valid a value
      ≡ done (result, applied)
    → (t : Translated) × Applied g a value t result applied
unfolding apply_ghsa_to_advisory
apply-Applied g a value result applied h =
    let (t, e, h1) = bind-done (translate g.upper g.lower g.is_decimal g.url_valid value) _ _ h in
    let (cve, _, h2) = bind-done (extract_cve_id g.upper value) _ _ h1 in
    let (raw, _, h3) = bind-done (get (codes "state") value) _ _ h2 in
    let (state, _, h4) = bind-done (translate_state g.lower raw) _ _ h3 in
    (t, record { translated = e; content = ground (arith, h4); changed = ground (arith, h4) })

-- What a sync with a payload leaves: the row is the caller's copy, with GitHub's content and state and
-- the intake sidecar that the row had; what was translated is the content of its latest version, if it has changed.
abbrev pub Synced :
    Github
    → Advisory
    → Advisory
    → Db
    → TranslateResult
    → Content
    → SyncSummary × Advisory
    → Db
    → Type 0
Synced g copy row db result content r db' =
    (find copy.pk db' ≡ some (record r.1 { intake = row.intake }))
    × (r.1.content ≡ content)
    × (r.1.ghsa_state ≡ result.ghsa_state)
    × (r.1.assigned_cve_id ≡ copy.assigned_cve_id)
    × (r.1.state ≡ copy.state)
    × (r.1.republish_required
        ≡ copy.republish_required
          || some_changed (changed_columns content copy.content) && is_published copy.state)
    × (r.0.conflict ≡ is_conflict copy.assigned_cve_id (or_default blank result.cve_id_from_ghsa))
    × (r.0.missing_upstream ≡ false)
    × (is_some r.1.ghsa_cve_conflict_detected_at
        ≡ is_conflict copy.assigned_cve_id (or_default blank result.cve_id_from_ghsa)
          || is_some copy.ghsa_cve_conflict_detected_at
            && not (
                is_resolved copy.assigned_cve_id (or_default blank result.cve_id_from_ghsa)
                  copy.ghsa_cve_conflict_detected_at))
    × (some_changed (changed_columns content copy.content) ≡ true
        → (v : AdvisoryVersion) × (latest_version copy.pk db' ≡ some v)
          × (v.payload ≡ to_payload r.1))
    × (some_changed (changed_columns content copy.content) ≡ false
        → latest_version copy.pk db' ≡ latest_version copy.pk db)

-- The columns of the copy that is saved.
pub synced_copy-columns :
    (g : Github) (now : ℕ) (value : Json) (result : TranslateResult) (a : Advisory)
    → let c = synced_copy g now value result a in
      (c.pk ≡ a.pk)
      × (c.content ≡ a.content)
      × (c.ghsa_state ≡ result.ghsa_state)
      × (c.assigned_cve_id ≡ a.assigned_cve_id)
      × (c.state ≡ a.state)
      × (c.republish_required
          ≡ a.republish_required || some_changed result.changed_field_names && is_published a.state)
      × (is_some c.ghsa_cve_conflict_detected_at
          ≡ is_conflict a.assigned_cve_id (or_default blank result.cve_id_from_ghsa)
            || is_some a.ghsa_cve_conflict_detected_at
              && not (
                  is_resolved a.assigned_cve_id
                    (or_default blank result.cve_id_from_ghsa)
                    a.ghsa_cve_conflict_detected_at))
unfolding mark_conflict
synced_copy-columns g now value result a = (
  ground arith,
  ground arith,
  ground arith,
  ground arith,
  ground arith,
  ground arith,
  ground arith,
)

-- Saving a copy and recording its version, where it has changed.
saved-Returns :
    (copy row : Advisory) (by : Actor) (changed : Bool) (db : Db)
    → find copy.pk db ≡ some row
    → Returns
        ((save_advisory copy.pk (λ r. record copy { intake = r.intake })
            >> when changed (record_advisory_version copy by false >> pure tt))
          db)
        (λ _ db'.
          (find copy.pk db' ≡ some (record copy { intake = row.intake }))
          × (changed ≡ true
              → (v : AdvisoryVersion) × (latest_version copy.pk db' ≡ some v)
                × (v.payload ≡ to_payload copy))
          × (changed ≡ false → latest_version copy.pk db' ≡ latest_version copy.pk db))
unfolding save_advisory record_advisory_version latest_version
saved-Returns copy row by false db found = (
  get_row-write_row (λ (a : Advisory). a.pk) (λ r. record copy { intake = r.intake }) copy.pk
        db.advisories (λ x. refl)
      ∙ ap (map_row (λ r. record copy { intake = r.intake })) found,
  λ e. ground (arith, e),
  λ e. refl,
)
saved-Returns copy row by true db found =
    let db1 = record db {
      advisories =
          modify_row (λ (a : Advisory). a.pk) copy.pk (λ r. record copy { intake = r.intake })
            db.advisories;
    } in
    let recorded = record_advisory_version_outcome copy by false db1 in
    (
      get_row-write_row (λ (a : Advisory). a.pk) (λ r. record copy { intake = r.intake }) copy.pk
            db.advisories (λ x. refl)
          ∙ ap (map_row (λ r. record copy { intake = r.intake })) found,
      λ e. (_, recorded.7, recorded.0),
      λ e. ground (arith, e),
    )

abbrev Logged : {A : Type 0} → A → Db → A → Db → Type 0
Logged r db r' db' =
    (r' ≡ r)
    × ((k : ℕ) → find k db' ≡ find k db)
    × ((k : ℕ) → latest_version k db' ≡ latest_version k db)

-- The rows of the ledger touch neither advisories nor versions.
record_action-Returns :
    {A : Type 0} (pk : ℕ) (by : Actor) (conflict : Bool) (r : A) (db : Db)
    → Returns
        ((record_action Action.ghsa_metadata_fetched by pk
            >> (when conflict (record_action Action.ghsa_cve_conflict_detected by pk) >> pure r))
          db)
        (Logged r db)
unfolding record_action latest_version
record_action-Returns pk by true r db = (refl, λ k. refl, λ k. refl)
record_action-Returns pk by false r db = (refl, λ k. refl, λ k. refl)

module _ (g : Github) (copy row : Advisory) (by : Actor) (db : Db) (value : Json) (t : Translated)
    (result : TranslateResult) (applied : Advisory) (found : find copy.pk db ≡ some row)
    (facts : Applied g copy value t result applied) where
  sync_found-Synced :
      Returns
        (sync_found g value result applied by db)
        (Synced g copy row db result (to_content g.dump t))
  unfolding sync_found
  sync_found-Synced =
      let c = synced_copy g db.now value result applied in
      let changed = some_changed result.changed_field_names in
      let conflict =
        is_conflict applied.assigned_cve_id (or_default blank result.cve_id_from_ghsa) in
      let columns = synced_copy-columns g db.now value result applied in
      let same = facts.content in
      let pk : c.pk ≡ copy.pk = columns.0 ∙ ap (λ (a : Advisory). a.pk) same in
      Returns->>=
        ((save_advisory c.pk (λ r. record c { intake = r.intake })
            >> when changed (record_advisory_version c by false >> pure tt))
          db)
        (λ _.
          record_action Action.ghsa_metadata_fetched by c.pk
          >> (when conflict (record_action Action.ghsa_cve_conflict_detected by c.pk)
              >> pure (
                record {
                  changed = result.changed_field_names;
                  conflict = conflict;
                  missing_upstream = false;
                },
                c,
              )))
        _ _ (saved-Returns c row by changed db (ap (λ k. find k db) pk ∙ found))
        (λ u db1 saved.
          Returns-mono _
            (Logged
              (
                record {
                  changed = result.changed_field_names;
                  conflict = conflict;
                  missing_upstream = false;
                },
                c,
              )
              db1)
            (Synced g copy row db result (to_content g.dump t))
            (record_action-Returns {A = SyncSummary × Advisory} c.pk by conflict
              (
                record {
                  changed = result.changed_field_names;
                  conflict = conflict;
                  missing_upstream = false;
                },
                c,
              )
              db1)
            (λ r db2 logged. rw logged.0 (
              logged.1 copy.pk ∙ ap (λ k. find k db1) (sym pk) ∙ saved.0,
              columns.1 ∙ ap (λ (a : Advisory). a.content) same,
              columns.2,
              columns.3 ∙ ap (λ (a : Advisory). a.assigned_cve_id) same,
              columns.4 ∙ ap (λ (a : Advisory). a.state) same,
              columns.5
                  ∙ ap
                      (λ (a : Advisory).
                        a.republish_required
                        || some_changed result.changed_field_names && is_published a.state)
                      same
                  ∙ ap (λ cs. copy.republish_required || some_changed cs && is_published copy.state)
                      facts.changed,
              ap
                  (λ (a : Advisory).
                    is_conflict a.assigned_cve_id (or_default blank result.cve_id_from_ghsa))
                  same,
              refl,
              columns.6
                  ∙ ap
                      (λ (a : Advisory).
                        is_conflict a.assigned_cve_id (or_default blank result.cve_id_from_ghsa)
                        || is_some a.ghsa_cve_conflict_detected_at
                          && not (
                              is_resolved a.assigned_cve_id
                                (or_default blank result.cve_id_from_ghsa)
                                a.ghsa_cve_conflict_detected_at))
                      same,
              λ e.
                  let (v, latest, held) = saved.1 (ap some_changed facts.changed ∙ e) in
                  (v, logged.2 copy.pk ∙ ap (λ k. latest_version k db1) (sym pk) ∙ latest, held),
              λ e.
                  logged.2 copy.pk
                  ∙ ap (λ k. latest_version k db1) (sym pk)
                  ∙ saved.2 (ap some_changed facts.changed ∙ e)
                  ∙ ap (λ k. latest_version k db) pk,
            )))

sync_single_ghsa-eq-sync_found :
    (g : Github) (copy : Advisory) (by : Actor) (db : Db) (value : Json) (result : TranslateResult)
    (applied : Advisory)
    → is_ghsa_linked copy.kind ≡ true
    → not (is_blank copy.ghsa_id) && not (is_blank copy.ghsa_owner) && not (is_blank copy.ghsa_repo)
      ≡ true
    → g.get_advisory copy.ghsa_owner copy.ghsa_repo copy.ghsa_id ≡ payload value
    → apply_ghsa_to_advisory g.dump g.upper g.lower g.is_decimal g.url_valid copy value
      ≡ done (result, applied)
    → sync_single_ghsa g copy by db ≡ sync_found g value result applied by db
unfolding sync_single_ghsa sync_fetched sync_found
sync_single_ghsa-eq-sync_found g copy by db value result applied linked named fetched done_so =
    rw (linked, named, fetched, done_so) refl

pub sync_single_ghsa-Synced :
    (g : Github) (copy row : Advisory) (by : Actor) (db : Db) (value : Json)
    (result : TranslateResult) (applied : Advisory)
    → find copy.pk db ≡ some row
    → is_ghsa_linked copy.kind ≡ true
    → not (is_blank copy.ghsa_id) && not (is_blank copy.ghsa_owner) && not (is_blank copy.ghsa_repo)
      ≡ true
    → g.get_advisory copy.ghsa_owner copy.ghsa_repo copy.ghsa_id ≡ payload value
    → apply_ghsa_to_advisory g.dump g.upper g.lower g.is_decimal g.url_valid copy value
      ≡ done (result, applied)
    → (t : Translated) × (translate g.upper g.lower g.is_decimal g.url_valid value ≡ done t)
      × Returns (sync_single_ghsa g copy by db) (Synced g copy row db result (to_content g.dump t))
sync_single_ghsa-Synced g copy row by db value result applied found linked named fetched done_so =
    let (t, facts) = apply-Applied g copy value result applied done_so in
    (
      t,
      facts.translated,
      rw
          (sync_single_ghsa-eq-sync_found g copy by db value result applied linked named fetched
            done_so)
          (sync_found-Synced g copy row by db value t result applied found facts),
    )
