-- ===== src/Documents/Cve/Parts.antt =====
-- The field builders of a CVE record (publication/cve.py, second half).
use advisoryhub.Prelude.{
  ℕ, Bool, true, false, ◌&&◌, ◌||◌, ◌==◌, Option, none, some, List, [], ◌∷◌, ◌++◌, Text, blank,
  codes, is_blank, strip, text_eq, if◌then◌else◌,
}
use advisoryhub.Documents.{Outcome, done, fail, Fault, ◌>>=◌}
use advisoryhub.Documents.Json.{
  Json, null, boolean, number, string, array, object, text_at, get, elements, or_dict, or_list,
  is_truthy,
}
use advisoryhub.Documents.Lists.{truncate, find_text, first_of_each}
use advisoryhub.Documents.Cve.{
  single, less_than, less_than_or_equal, VersionEntry, versions_of, same_option,
}

-- `_ECOSYSTEM_COLLECTION_URL`
abbrev ecosystem_collection_url : List (Text × Text)
ecosystem_collection_url =
    (codes "Maven", codes "https://repo.maven.apache.org/maven2")
    ∷ (codes "npm", codes "https://registry.npmjs.org")
    ∷ (codes "PyPI", codes "https://pypi.python.org")
    ∷ (codes "Go", codes "https://golang.org/pkg")
    ∷ (codes "NuGet", codes "https://nuget.org/packages")
    ∷ (codes "RubyGems", codes "https://rubygems.org")
    ∷ (codes "crates.io", codes "https://crates.io")
    ∷ (codes "Packagist", codes "https://packagist.org")
    ∷ (codes "Pub", codes "https://pub.dev")
    ∷ (codes "Hex", codes "https://repo.hex.pm")
    ∷ []

-- `_CREDIT_TYPE`
abbrev credit_type : List (Text × Text)
credit_type =
    (codes "FINDER", codes "finder")
    ∷ (codes "REPORTER", codes "reporter")
    ∷ (codes "ANALYST", codes "analyst")
    ∷ (codes "COORDINATOR", codes "coordinator")
    ∷ (codes "REMEDIATION_DEVELOPER", codes "remediation developer")
    ∷ (codes "REMEDIATION_REVIEWER", codes "remediation reviewer")
    ∷ (codes "REMEDIATION_VERIFIER", codes "remediation verifier")
    ∷ (codes "TOOL", codes "tool")
    ∷ (codes "SPONSOR", codes "sponsor")
    ∷ (codes "OTHER", codes "other")
    ∷ []

-- Whether `value in seen` can be asked: a list or a dict has no hash.
abbrev is_hashable : Json → Bool
is_hashable (array is) = false
is_hashable (object fs) = false
is_hashable _ = true

abbrev as_number : Bool → ℕ
as_number true = 1
as_number false = 0

-- `==` of two hashable values; `True` equals 1.
abbrev pub same_scalar : Json → Json → Bool
same_scalar null null = true
same_scalar (boolean a) (boolean b) = as_number a == as_number b
same_scalar (boolean a) (number n) = as_number a == n
same_scalar (number m) (boolean b) = m == as_number b
same_scalar (number m) (number n) = m == n
same_scalar (string s) (string t) = text_eq s t
same_scalar _ _ = false

-- The `url` of each reference that has one.
unfoldable pub urls : List Json → Outcome (List Json)
urls [] = done []
urls (ref ∷ refs) = do
  url ← get (codes "url") (or_dict ref)
  if is_truthy url
      then (if is_hashable url
          then (do rest ← urls refs; done (url ∷ rest))
          else fail Fault.type_error)
      else urls refs

-- `_references`: the urls, each once
unfoldable pub references_of : Json → Outcome (List Json)
unfolding urls
references_of references = do
  refs ← elements (or_list references)
  found ← urls refs
  done (first_of_each same_scalar [] found)

pub data DefaultStatus : Type 0 where
  unaffected affected : DefaultStatus

-- An element of `affected`; a package name comes with a collection.
pub record Product : Type 0 where
  pub vendor : Text
  pub product : Text
  pub collection_url : Option Text
  pub versions : List VersionEntry
  pub default_status : Option DefaultStatus

-- `_ORDERABLE_VERSION_TYPES`
pub is_orderable : Option Text → Bool
is_orderable none = false
is_orderable (some t) =
    text_eq t (codes "semver") || text_eq t (codes "maven") || text_eq t (codes "python")

-- Every entry that is a range has a version type with an order.
unfoldable pub ranges_orderable : List VersionEntry → Bool
unfolding is_orderable
ranges_orderable [] = true
ranges_orderable (v ∷ vs) = elim v.bound [
  | single ↦ ranges_orderable vs
  | less_than t ↦ is_orderable v.version_type && ranges_orderable vs
  | less_than_or_equal t ↦ is_orderable v.version_type && ranges_orderable vs
]

abbrev pub default_status_of : List VersionEntry → Option DefaultStatus
default_status_of [] = some affected
default_status_of (v ∷ vs) = if ranges_orderable (v ∷ vs) then some unaffected else none

abbrev pub vendor_limit : ℕ
vendor_limit = 512

abbrev pub product_limit : ℕ
product_limit = 2048

abbrev pub text_limit : ℕ
text_limit = 4096

abbrev pub title_limit : ℕ
title_limit = 256

abbrev pub product_of : Text → Text → Text → List VersionEntry → Product
product_of vendor name ecosystem versions = record {
  vendor = truncate vendor_limit vendor;
  product = truncate product_limit name;
  collection_url = find_text ecosystem ecosystem_collection_url;
  versions = versions;
  default_status = default_status_of versions;
}

-- An element of `credits`, whose language is always English.
pub record Credit : Type 0 where
  pub value : Text
  pub credit_type : Option Text

abbrev pub same_credit : Credit → Credit → Bool
same_credit c d = text_eq c.value d.value && same_option c.credit_type d.credit_type

-- An element of `problemTypes[0].descriptions`.
pub record Problem : Type 0 where
  pub description : Text
  pub cwe_id : Text

-- `_descriptions`
unfoldable pub description_of : Text → Text → Text → Text
description_of details summary advisory_id =
    let text = if is_blank (strip details) then strip summary else strip details in
    truncate text_limit
      (if is_blank text then codes "Security advisory " ++ advisory_id ++ codes "." else text)

-- `upper` is `str.upper`.
module _ (upper : Text → Text) where
  unfoldable pub products : Text → List Json → Outcome (List Product)
  products vendor [] = done []
  products vendor (entry ∷ entries) = do
    pkg ← get (codes "package") (or_dict entry)
    raw_name ← text_at (codes "name") (or_dict pkg)
    if is_blank (strip raw_name) then products vendor entries else (do
      ecosystem ← text_at (codes "ecosystem") (or_dict pkg)
      versions ← versions_of upper entry (strip ecosystem)
      rest ← products vendor entries
      done (product_of vendor (strip raw_name) (strip ecosystem) versions ∷ rest))

  -- `_affected`, for a vendor
  unfoldable pub affected_of : Text → Json → Outcome (List Product)
  unfolding products
  affected_of vendor value = do entries ← elements (or_list value); products vendor entries

  unfoldable pub credit_entries : List Json → Outcome (List Credit)
  credit_entries [] = done []
  credit_entries (credit ∷ credits) = do
    raw_name ← text_at (codes "name") (or_dict credit)
    if is_blank (strip raw_name) then credit_entries credits else (do
      kind ← text_at (codes "type") (or_dict credit)
      rest ← credit_entries credits
      done (
          record {
            value = truncate text_limit (strip raw_name);
            credit_type = find_text (upper kind) credit_type;
          }
          ∷ rest))

  -- `_credits`
  unfoldable pub credits_of : Json → Outcome (List Credit)
  unfolding credit_entries
  credits_of value = do
    credits ← elements (or_list value)
    entries ← credit_entries credits
    done (first_of_each same_credit [] entries)

  abbrev cwe_of : Json → Text
  cwe_of (string s) = upper (strip s)
  cwe_of _ = blank

  pub cwes : List Json → List Text
  cwes [] = []
  cwes (j ∷ js) = let rest = cwes js in if is_blank (cwe_of j) then rest else cwe_of j ∷ rest

  abbrev pub or_id : Text → Option Text → Text
  or_id cwe none = cwe
  or_id cwe (some name) = if is_blank name then cwe else name

  -- `name_for` looks a weakness up in the CWE catalog.
  module _ (name_for : Text → Option Text) where
    abbrev pub described : List Text → List Problem
    described [] = []
    described (cwe ∷ rest) =
        record { description = truncate text_limit (or_id cwe (name_for cwe)); cwe_id = cwe }
        ∷ described rest

    -- `_problem_types`
    unfoldable pub problem_types_of : Json → Outcome (List Problem)
    unfolding cwes
    problem_types_of value = do
      ids ← elements (or_list value)
      done (described (first_of_each text_eq [] (cwes ids)))
