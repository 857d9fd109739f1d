-- ===== src/Ghsa/Packages.antt =====
-- Affected packages (ghsa/translator.py, `_translate_affected` and what it calls).
use advisoryhub.Prelude.{
  Bool, true, false, not, Option, none, some, List, [], ◌∷◌, Text, codes, is_blank, strip,
  if◌then◌else◌,
}
use advisoryhub.Documents.{Outcome, done, ◌>>=◌}
use advisoryhub.Documents.Json.{
  Json, string, array, object, no_items, item, Fields, no_fields, field, is_dict, get, or_dict,
  text_at, list_at, items_of,
}
use advisoryhub.Documents.Lists.{find_text, or_default}
use advisoryhub.Ghsa.Versions.{entry, pair, parse_vulnerable_range}

-- `_ECOSYSTEM_MAP`
abbrev pub ecosystem_map : List (Text × Text)
ecosystem_map =
    (codes "npm", codes "npm")
    ∷ (codes "pip", codes "PyPI")
    ∷ (codes "pypi", codes "PyPI")
    ∷ (codes "maven", codes "Maven")
    ∷ (codes "rubygems", codes "RubyGems")
    ∷ (codes "go", codes "Go")
    ∷ (codes "composer", codes "Packagist")
    ∷ (codes "packagist", codes "Packagist")
    ∷ (codes "nuget", codes "NuGet")
    ∷ (codes "rust", codes "crates.io")
    ∷ (codes "cargo", codes "crates.io")
    ∷ (codes "pub", codes "Pub")
    ∷ (codes "swift", codes "SwiftURL")
    ∷ (codes "hex", codes "Hex")
    ∷ (codes "actions", codes "GitHub Actions")
    ∷ (codes "github actions", codes "GitHub Actions")
    ∷ []

abbrev pub package_of : Text → Option Text → Json
package_of name none = entry (codes "name") name
package_of name (some ecosystem) = pair (codes "name") name (codes "ecosystem") ecosystem

abbrev pub one_range : List Json → Json
one_range events = object (
    field (codes "type") (string (codes "ECOSYSTEM"))
      (field (codes "events") (array (items_of events)) no_fields))

abbrev pub some_events : List Json → Bool
some_events [] = false
some_events (e ∷ es) = true

-- What an entry says of its versions: a range, or the original text.
abbrev pub versions_field : Text → List Json → Fields
versions_field spec events =
    if some_events events
    then field (codes "ranges") (array (item (one_range events) no_items)) no_fields
    else if not (is_blank spec)
    then field (codes "versions") (array (item (string spec) no_items)) no_fields
    else no_fields

-- `lower` is `str.lower`.
module _ (lower : Text → Text) where
  -- `_normalise_ecosystem`
  unfoldable pub normalise_ecosystem : Text → Text
  normalise_ecosystem eco = or_default eco (find_text (lower eco) ecosystem_map)

  abbrev pub affected_entry : Text → Text → Text → Text → Json
  unfolding normalise_ecosystem parse_vulnerable_range
  affected_entry name ecosystem spec patched = object (
      field (codes "package")
        (package_of name
          (if is_blank ecosystem then none else some (normalise_ecosystem ecosystem)))
        (versions_field spec (parse_vulnerable_range spec patched)))

  -- One element of `vulnerabilities`: it is skipped, or gives an entry.
  pub translate_vulnerability : Json → Outcome (Option Json)
  unfolding parse_vulnerable_range normalise_ecosystem strip
  translate_vulnerability vuln = if not (is_dict vuln) then done none else do
    pkg ← get (codes "package") vuln
    ecosystem ← text_at (codes "ecosystem") (or_dict pkg)
    name ← text_at (codes "name") (or_dict pkg)
    if is_blank (strip name) then done none else do
      spec ← text_at (codes "vulnerable_version_range") vuln
      patched ← text_at (codes "patched_versions") vuln
      done (some (affected_entry (strip name) (strip ecosystem) (strip spec) (strip patched)))

  pub translate_vulnerabilities : List Json → Outcome (List Json)
  unfolding translate_vulnerability
  translate_vulnerabilities [] = done []
  translate_vulnerabilities (vuln ∷ vulns) = do
    one ← translate_vulnerability vuln
    rest ← translate_vulnerabilities vulns
    done (elim one [ none ↦ rest | some e ↦ e ∷ rest ])

  -- `_translate_affected`
  unfoldable pub translate_affected : Json → Outcome (List Json)
  unfolding translate_vulnerabilities
  translate_affected payload = do
    vulns ← list_at (codes "vulnerabilities") payload
    translate_vulnerabilities vulns
