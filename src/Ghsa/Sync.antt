-- ===== src/Ghsa/Sync.antt =====
-- Bringing a linked advisory up to date with GitHub (ghsa/services.py, `sync_single_ghsa`).
pub mod Written
use advisoryhub.Prelude.{
  ℕ, Bool, true, false, not, ◌&&◌, ◌||◌, Option, none, some, List, [], ◌∷◌, Text, blank, codes,
  is_blank, text_eq, if◌then◌else◌, is_some,
}
use advisoryhub.Accounts.{Actor}
use advisoryhub.Advisory.{Advisory, GhsaState, is_ghsa_linked, is_published}
use advisoryhub.Db.{
  Db, M, Error, Action, ok, err, pure, raise, ◌>>=◌, ◌>>◌, require, gets, when, record_action,
  save_advisory,
}
use advisoryhub.Versions.{record_advisory_version}
use advisoryhub.Documents.{Outcome, done, fail, Fault}
use advisoryhub.Documents.Json.{Json, boolean, object, no_fields, field}
use advisoryhub.Documents.Lists.{truncate, or_default}
use advisoryhub.Ghsa.Apply.{Column, TranslateResult, apply_ghsa_to_advisory}

-- What the client returns for an advisory of a repository: it is gone, or has a payload; or it
-- raises.
pub data Fetched : Type 0 where
  gone : Fetched
  payload : Json → Fetched
  refused : Fetched

-- What is outside: `str.upper`, `str.lower` and `\d`, Django's `URLValidator`, the text that the
-- rows keep of a JSON value, and `get_client().get_advisory`.
pub record Github : Type 0 where
  pub upper : Text → Text
  pub lower : Text → Text
  pub is_decimal : ℕ → Bool
  pub url_valid : Text → Bool
  pub dump : Json → Text
  pub get_advisory : Text → Text → Text → Fetched

pub record SyncSummary : Type 0 where
  pub changed : List Column
  pub conflict : Bool
  pub missing_upstream : Bool

abbrev error_of : Fault → Error
error_of Fault.attribute_error = Error.attribute_error
error_of Fault.type_error = Error.type_error
error_of Fault.key_error = Error.key_error
error_of _ = Error.value_error

abbrev pub lift : {A : Type 0} → Outcome A → M A
lift (done a) = pure a
lift (fail e) = raise (error_of e)

abbrev pub some_changed : List Column → Bool
some_changed [] = false
some_changed (c ∷ cs) = true

abbrev pub is_conflict : Text → Text → Bool
is_conflict assigned upstream =
    not (is_blank assigned) && not (is_blank upstream) && not (text_eq upstream assigned)

abbrev pub is_resolved : Text → Text → Option ℕ → Bool
is_resolved assigned upstream detected_at =
    not (is_blank assigned) && text_eq upstream assigned && is_some detected_at

-- The conflict markers of an advisory, by the CVE id that GitHub has.
pub mark_conflict : ℕ → Text → Advisory → Advisory
mark_conflict now upstream a =
    if is_conflict a.assigned_cve_id upstream
    then record a {
      ghsa_cve_conflict_detected_at = some now;
      ghsa_cve_conflict_ghsa_value = truncate 64 upstream;
    }
    else if is_resolved a.assigned_cve_id upstream a.ghsa_cve_conflict_detected_at
    then record a { ghsa_cve_conflict_detected_at = none; ghsa_cve_conflict_ghsa_value = blank }
    else a

abbrev pub flag_republish : List Column → Advisory → Advisory
flag_republish changed a =
    if some_changed changed && is_published a.state
    then record a { republish_required = true }
    else a

module _ (g : Github) where
  abbrev pub missing_copy : ℕ → Advisory → Advisory
  missing_copy now a = record a {
    ghsa_state = GhsaState.closed;
    ghsa_metadata = g.dump (object (field (codes "missing_upstream") (boolean true) no_fields));
    ghsa_metadata_synced_at = some now;
    ghsa_sync_error = blank;
  }

  -- GitHub has no such advisory any more: four columns are written.
  unfoldable pub sync_missing : Advisory → Actor → M (SyncSummary × Advisory)
  unfolding save_advisory record_action
  sync_missing advisory by = do
    now ← gets (λ db. db.now)
    save_advisory advisory.pk (λ row. record row {
      ghsa_state = GhsaState.closed;
      ghsa_metadata = g.dump (object (field (codes "missing_upstream") (boolean true) no_fields));
      ghsa_metadata_synced_at = some now;
      ghsa_sync_error = blank;
    })
    record_action Action.ghsa_metadata_fetched by advisory.pk
    pure (
      record { changed = []; conflict = false; missing_upstream = true },
      missing_copy now advisory,
    )

  -- The caller's copy with what GitHub says. `advisory.save()` writes every column of it; the intake
  -- sidecar is a row of another table, which the save leaves as it is.
  abbrev pub synced_copy : ℕ → Json → TranslateResult → Advisory → Advisory
  unfolding mark_conflict
  synced_copy now value result a =
      record (flag_republish result.changed_field_names (
        mark_conflict now (or_default blank result.cve_id_from_ghsa) (record a {
          ghsa_state = result.ghsa_state;
          ghsa_metadata = g.dump value;
          ghsa_metadata_synced_at = some now;
        }))) { ghsa_sync_error = blank }

  pub sync_found : Json → TranslateResult → Advisory → Actor → M (SyncSummary × Advisory)
  unfolding mark_conflict save_advisory record_action
  sync_found value result applied by = do
    now ← gets (λ db. db.now)
    let advisory = synced_copy now value result applied
    let conflict = is_conflict applied.assigned_cve_id (or_default blank result.cve_id_from_ghsa)
    save_advisory advisory.pk (λ row. record advisory { intake = row.intake })
    when (some_changed result.changed_field_names)
        (record_advisory_version advisory by false >> pure tt)
    record_action Action.ghsa_metadata_fetched by advisory.pk
    when conflict (record_action Action.ghsa_cve_conflict_detected by advisory.pk)
    pure (
      record {
        changed = result.changed_field_names;
        conflict = conflict;
        missing_upstream = false;
      },
      advisory,
    )

  unfoldable pub sync_fetched : Fetched → Advisory → Actor → M (SyncSummary × Advisory)
  unfolding apply_ghsa_to_advisory sync_found sync_missing
  sync_fetched gone advisory by = sync_missing advisory by
  sync_fetched refused advisory by = raise Error.ghsa_client_error
  sync_fetched (payload value) advisory by = do
    applied ←
        lift (apply_ghsa_to_advisory g.dump g.upper g.lower g.is_decimal g.url_valid advisory value)
    sync_found value applied.0 applied.1 by

  unfoldable pub sync_single_ghsa : Advisory → Actor → M (SyncSummary × Advisory)
  unfolding sync_fetched
  sync_single_ghsa advisory by = do
    require (is_ghsa_linked advisory.kind) Error.value_error
    require
        (not (is_blank advisory.ghsa_id)
          && not (is_blank advisory.ghsa_owner)
          && not (is_blank advisory.ghsa_repo))
        Error.value_error
    sync_fetched (g.get_advisory advisory.ghsa_owner advisory.ghsa_repo advisory.ghsa_id) advisory
        by
