-- ===== src/Tests/Documents.antt =====
-- A small advisory as a CVE record.
use advisoryhub.Prelude.{
  ℕ, ◌≡◌, refl, Bool, true, false, ◌&&◌, leb, none, some, List, [], ◌∷◌, Text, blank, codes, strip,
}
use advisoryhub.Documents.{Gives, Whenever}
use advisoryhub.Documents.Json.{Json, null, string, array, object, no_items, item, no_fields, field}
use advisoryhub.Workflows.{is_cve_id}
use advisoryhub.Documents.Validators.{validate_references, validate_affected}
use advisoryhub.Documents.Ecosystems.{is_valid_ecosystem}
use advisoryhub.Documents.Scores.{validate_severity, validate_cwe_ids, validate_credits}
use advisoryhub.Documents.Cve.{read_event, read_events, versions_for_range}
use advisoryhub.Documents.Cve.Ranges.{osv_affected, cve_affected, versions_for_range-affect}
use advisoryhub.Documents.Cve.Metrics.{Cvss}
use advisoryhub.Documents.Cve.Build.{Pinned, Arguments, build_cve, is_uuid}
use advisoryhub.Documents.Cve.Conforms.{Conforms, build_cve-Conforms}
use advisoryhub.Documents.Accepted.{build_cve-Accepted}

abbrev one : Text → Text → Json
one k v = object (field k (string v) no_fields)

abbrev events : List Json
events = one (codes "introduced") (codes "1") ∷ one (codes "fixed") (codes "3") ∷ []

abbrev rng : Json
rng = object (
    field (codes "type") (string (codes "SEMVER")) (
      field (codes "events")
        (array (
          item (one (codes "introduced") (codes "1"))
            (item (one (codes "fixed") (codes "3")) no_items)))
        no_fields))

-- Versions are ordered by their first character.
abbrev rank : Text → ℕ
rank [] = 0
rank (c ∷ s) = c

versions_for_range-affect_example :
    Gives
      (versions_for_range rng (codes "semver"))
      (λ vs. (v : ℕ) → cve_affected rank v vs ≡ osv_affected rank v false (read_events events))
unfolding read_event strip
versions_for_range-affect_example =
    versions_for_range-affect rank rng events (codes "semver") refl refl

abbrev pinned : Pinned
pinned = record {
  advisory_id = codes "ECL-2222-2222-2222";
  assigned_cve_id = codes "CVE-2025-0001";
  project_name = some (codes "Jetty");
  summary = codes "XSS";
  details = blank;
  references =
      array
        (item (object (field (codes "url") (string (codes "https://x.org")) no_fields)) no_items);
  affected = array (
      item
        (object (
          field (codes "package")
            (object (
              field (codes "name") (string (codes "jetty"))
                (field (codes "ecosystem") (string (codes "npm")) no_fields)))
            (field (codes "ranges") (array (item rng no_items)) no_fields)))
        no_items);
  severity = null;
  cwe_ids = null;
  credits = null;
  created_at = 3;
  live_project_name = codes "Jetty";
  published_at = none;
}

abbrev arguments : Arguments
arguments = record {
  assigner_org_id = codes "e51fbebd-6053-4e49-959f-1b94eeb69a2c";
  assigner_short_name = codes "eclipse";
  date_published = none;
  date_updated = none;
  date_reserved = none;
}

abbrev decimal : ℕ → Bool
decimal c = leb 48 c && leb c 57

abbrev no_cvss : Cvss
no_cvss = record { cvss2 = λ v. none; cvss3 = λ v. none; cvss4 = λ v. none }

build_cve-Conforms_example :
    Whenever (build_cve decimal (λ s. s) (λ c. none) no_cvss pinned arguments) Conforms
build_cve-Conforms_example =
    build_cve-Conforms decimal (λ s. s) (λ c. none) no_cvss pinned arguments

build_cve-Accepted_example :
    Gives (build_cve decimal (λ s. s) (λ c. none) no_cvss pinned arguments) (λ r.
      (r.head.cve_id ≡ codes "CVE-2025-0001")
      × (r.head.assigner ≡ codes "e51fbebd-6053-4e49-959f-1b94eeb69a2c")
      × Conforms r)
unfolding is_cve_id strip is_uuid is_valid_ecosystem validate_references validate_affected
    validate_severity validate_cwe_ids validate_credits
build_cve-Accepted_example =
    build_cve-Accepted decimal (λ s. s) (λ c. none) no_cvss (λ url. true) (λ c. true) pinned
      arguments (record { cve_id = refl; assigner = refl })
      (record {
        references = refl;
        affected = refl;
        severity = refl;
        cwe_ids = refl;
        credits = refl;
      })
      (record { affected = refl; severity = refl; credits = refl }) refl refl
