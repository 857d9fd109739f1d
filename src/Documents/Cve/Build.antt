-- ===== src/Documents/Cve/Build.antt =====
-- Building a CVE record, published or rejected (publication/cve.py, first half).
use advisoryhub.Prelude.{
  ℕ, zero, suc, Bool, true, false, not, ◌&&◌, ◌||◌, ◌==◌, leb, Option, none, some, List, [], ◌∷◌,
  Text, blank, codes, is_blank, strip, if◌then◌else◌,
}
use advisoryhub.Documents.{Outcome, done, Fault, ◌>>=◌, ◌>>◌, check}
use advisoryhub.Documents.Json.{Json}
use advisoryhub.Documents.Lists.{truncate, or_default}
use advisoryhub.Workflows.{is_cve_id}
use advisoryhub.Documents.Cve.Metrics.{Cvss, Metric, metrics_of}
use advisoryhub.Documents.Cve.Parts.{
  Product, Credit, Problem, affected_of, references_of, credits_of, problem_types_of,
  description_of, title_limit, text_limit,
}

-- What the builders read of a pinned version: the payload's texts, its JSON values as they were
-- stored, the version's date, and of the live rows the project's name and the publication date.
-- A version pinned before `project_name` existed has none.
pub record Pinned : Type 0 where
  pub advisory_id : Text
  pub assigned_cve_id : Text
  pub project_name : Option Text
  pub summary : Text
  pub details : Text
  pub references : Json
  pub affected : Json
  pub severity : Json
  pub cwe_ids : Json
  pub credits : Json
  pub created_at : ℕ
  pub live_project_name : Text
  pub published_at : Option ℕ

abbrev is_hex : ℕ → Bool
is_hex c = leb 48 c && leb c 57 || leb 65 c && leb c 70 || leb 97 c && leb c 102

abbrev is_variant : ℕ → Bool
is_variant c = c == 56 || c == 57 || c == 65 || c == 66 || c == 97 || c == 98

-- The characters that a place of a v4 UUID takes.
pub data Place : Type 0 where
  hex dash four variant : Place

abbrev takes : Place → ℕ → Bool
takes hex c = is_hex c
takes dash c = c == 45
takes four c = c == 52
takes variant c = is_variant c

abbrev places : ℕ → Place → List Place → List Place
places zero p ps = ps
places (suc n) p ps = p ∷ places n p ps

abbrev uuid_places : List Place
uuid_places = places 8 hex (
    dash
    ∷ places 4 hex
        (dash ∷ four ∷ places 3 hex (dash ∷ variant ∷ places 3 hex (dash ∷ places 12 hex []))))

abbrev fits : List Place → Text → Bool
fits [] [] = true
fits (p ∷ ps) (c ∷ s) = takes p c && fits ps s
fits _ _ = false

-- `_UUID_RE.match`, of a text without white space at its end
unfoldable pub is_uuid : Text → Bool
is_uuid s = fits uuid_places s

-- `_require_cve_id_and_assigner`, where the first argument is `\d` of Python's `re`
unfoldable pub require_cve_id_and_assigner : (ℕ → Bool) → Text → Text → Outcome (Text × Text)
unfolding is_uuid
require_cve_id_and_assigner is_decimal assigned assigner = do
  check (not (is_blank (strip assigned))) Fault.cve_build_error
  check (is_cve_id is_decimal (strip assigned)) Fault.cve_build_error
  check (not (is_blank (strip assigner))) Fault.cve_assigner_not_configured
  check (is_uuid (strip assigner)) Fault.cve_assigner_not_configured
  done (strip assigned, strip assigner)

-- The parts of `cveMetadata` and `providerMetadata` that every record has. Dates stay instants:
-- `_format_ts` prints them.
pub record Head : Type 0 where
  pub cve_id : Text
  pub assigner : Text
  pub short_name : Text
  pub date_updated : ℕ

pub record Published : Type 0 where
  pub head : Head
  pub date_published : ℕ
  pub date_reserved : Option ℕ
  pub title : Text
  pub description : Text
  pub affected : List Product
  pub references : List Json
  pub problem_types : List Problem
  pub metrics : List Metric
  pub credits : List Credit

pub record Rejected : Type 0 where
  pub head : Head
  pub date_rejected : ℕ
  pub date_published : Option ℕ
  pub reason : Text

abbrev or_version : Option ℕ → ℕ → ℕ
or_version none created = created
or_version (some at) created = at

abbrev or_if_blank : Text → Text → Text
or_if_blank s t = if is_blank s then t else s

abbrev pub vendor_of : Pinned → Text
vendor_of p = strip (
    or_if_blank (or_default blank p.project_name)
      (or_if_blank p.live_project_name (codes "Eclipse Foundation")))

abbrev pub is_empty {ℓ} : {A : Type ℓ} → List A → Bool
is_empty [] = true
is_empty (x ∷ xs) = false

-- The arguments of the builders besides the version.
pub record Arguments : Type 0 where
  pub assigner_org_id : Text
  pub assigner_short_name : Text
  pub date_published : Option ℕ
  pub date_updated : Option ℕ
  pub date_reserved : Option ℕ

-- `is_decimal` is `\d` of Python's `re`, `upper` is `str.upper`, `name_for` looks a weakness up in
-- the CWE catalog, and `cvss` is the library that scores a vector.
module _ (is_decimal : ℕ → Bool) (upper : Text → Text) (name_for : Text → Option Text)
    (cvss : Cvss) where
  unfoldable pub build_cve : Pinned → Arguments → Outcome Published
  build_cve p args = do
    ids ← require_cve_id_and_assigner is_decimal p.assigned_cve_id args.assigner_org_id
    affected ← affected_of upper (vendor_of p) p.affected
    check (not (is_empty affected)) Fault.cve_build_error
    references ← references_of p.references
    check (not (is_empty references)) Fault.cve_build_error
    problem_types ← problem_types_of upper name_for p.cwe_ids
    metrics ← metrics_of cvss upper p.severity
    credits ← credits_of upper p.credits
    done (record {
      head = record {
        cve_id = ids.0;
        assigner = ids.1;
        short_name = args.assigner_short_name;
        date_updated = or_version args.date_updated p.created_at;
      };
      date_published = or_version args.date_published p.created_at;
      date_reserved = args.date_reserved;
      title = truncate title_limit (or_if_blank p.summary p.advisory_id);
      description = description_of p.details p.summary p.advisory_id;
      affected = affected;
      references = references;
      problem_types = problem_types;
      metrics = metrics;
      credits = credits;
    })

pub build_rejected_cve : (ℕ → Bool) → Pinned → Text → Text → Text → Option ℕ → Outcome Rejected
build_rejected_cve is_decimal p assigner_org_id short_name reason date_rejected = do
  ids ← require_cve_id_and_assigner is_decimal p.assigned_cve_id assigner_org_id
  check (not (is_blank (strip reason))) Fault.cve_build_error
  done (record {
    head = record {
      cve_id = ids.0;
      assigner = ids.1;
      short_name = short_name;
      date_updated = or_version date_rejected p.created_at;
    };
    date_rejected = or_version date_rejected p.created_at;
    date_published = p.published_at;
    reason = truncate text_limit (strip reason);
  })
