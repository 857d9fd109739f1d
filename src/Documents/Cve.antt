-- ===== src/Documents/Cve.antt =====
-- The version entries of a CVE record (publication/cve.py, `_versions` and what it calls).
pub mod Ranges
pub mod Parts
pub mod Metrics
pub mod Build
pub mod Limits
pub mod Conforms
use advisoryhub.Prelude.{
  ℕ, Bool, true, false, not, ◌&&◌, Option, none, some, List, [], ◌∷◌, ◌++◌, Text, blank, codes,
  is_blank, strip, text_eq, if◌then◌else◌,
}
use advisoryhub.Documents.{Outcome, done, fail, ◌>>=◌}
use advisoryhub.Documents.Json.{
  Json, string, array, object, Items, Fields, no_fields, field, list_at, text_at, is_truthy,
}
use advisoryhub.Documents.Lists.{truncate, find_text, or_default, first_of_each}

-- The upper end of an entry: a single version, `lessThan` or `lessThanOrEqual`.
pub data Bound : Type 0 where
  single : Bound
  less_than less_than_or_equal : Text → Bound

-- An element of `versions`, whose `status` is always "affected".
pub record VersionEntry : Type 0 where
  pub version : Text
  pub version_type : Option Text
  pub bound : Bound

-- `_ECOSYSTEM_VERSION_TYPE`
abbrev ecosystem_version_type : List (Text × Text)
ecosystem_version_type =
    (codes "Maven", codes "maven")
    ∷ (codes "npm", codes "semver")
    ∷ (codes "PyPI", codes "python")
    ∷ (codes "Go", codes "semver")
    ∷ (codes "NuGet", codes "semver")
    ∷ (codes "RubyGems", codes "semver")
    ∷ (codes "crates.io", codes "semver")
    ∷ (codes "Packagist", codes "semver")
    ∷ (codes "Pub", codes "semver")
    ∷ (codes "Hex", codes "semver")
    ∷ []

-- What an event of a range is taken for. Other kinds, `limit` among them, close no window.
pub data Event : Type 0 where
  introduced fixed last_affected : Text → Event
  ignored : Event

abbrev event_of : Text → Text → Event
event_of kind value =
    if text_eq kind (codes "introduced")
    then introduced value
    else if text_eq kind (codes "fixed")
    then fixed value
    else if text_eq kind (codes "last_affected")
    then last_affected value
    else ignored

abbrev stripped : Json → Text
stripped (string raw) = strip raw
stripped _ = blank

-- A dict with one item whose value is a text that is not blank, or nothing that counts.
unfoldable pub read_event : Json → Event
read_event (object (field kind raw no_fields)) =
    if is_blank (stripped raw) then ignored else event_of kind (stripped raw)
read_event _ = ignored

abbrev pub version_limit : ℕ
version_limit = 1024

abbrev pub window : Text → Text → Bound → VersionEntry
window version_type start bound = record {
  version = truncate version_limit start;
  version_type = some version_type;
  bound = bound;
}

-- One turn of the loop: what it appends, and the `introduced` that it leaves.
abbrev pub turn : Text → Option Text → Event → List VersionEntry × Option Text
turn vt open_from (introduced v) = ([], some v)
turn vt open_from (fixed v) =
    (window vt (or_default (codes "0") open_from) (less_than (truncate version_limit v)) ∷ [], none)
turn vt open_from (last_affected v) = (
  window vt (or_default (codes "0") open_from) (less_than_or_equal (truncate version_limit v)) ∷ [],
  none,
)
turn vt open_from ignored = ([], open_from)

abbrev pub still_open : Text → Option Text → List VersionEntry
still_open vt none = []
still_open vt (some v) = window vt v (less_than (codes "*")) ∷ []

pub windows : Text → Option Text → List Event → List VersionEntry
windows vt open_from [] = still_open vt open_from
windows vt open_from (e ∷ es) = let (out, left) = turn vt open_from e in out ++ windows vt left es

abbrev pub read_events : List Json → List Event
read_events [] = []
read_events (j ∷ js) = read_event j ∷ read_events js

-- `_versions_for_range`
unfoldable pub versions_for_range : Json → Text → Outcome (List VersionEntry)
unfolding windows
versions_for_range rng version_type = do
  events ← list_at (codes "events") rng
  done (windows version_type none (read_events events))

-- The explicit list of versions.
pub listed_versions : List Json → List VersionEntry
listed_versions [] = []
listed_versions (v ∷ vs) =
    let rest = listed_versions vs in
    if is_blank (stripped v)
    then rest
    else record {
      version = truncate version_limit (stripped v);
      version_type = none;
      bound = single;
    }
      ∷ rest

abbrev same_bound : Bound → Bound → Bool
same_bound single single = true
same_bound (less_than s) (less_than t) = text_eq s t
same_bound (less_than_or_equal s) (less_than_or_equal t) = text_eq s t
same_bound _ _ = false

abbrev pub same_option : Option Text → Option Text → Bool
same_option none none = true
same_option (some s) (some t) = text_eq s t
same_option _ _ = false

-- `json.dumps(item, sort_keys=True)` of two entries agree.
abbrev pub same_entry : VersionEntry → VersionEntry → Bool
same_entry e f =
    text_eq e.version f.version
    && same_option e.version_type f.version_type
    && same_bound e.bound f.bound

-- `upper` is `str.upper`.
module _ (upper : Text → Text) where
  abbrev type_for : Text → Text → Text
  type_for kind ecosystem =
      if text_eq kind (codes "SEMVER")
      then codes "semver"
      else if text_eq kind (codes "GIT")
      then codes "git"
      else or_default (codes "custom") (find_text ecosystem ecosystem_version_type)

  -- `_version_type`
  pub version_type : Text → Text → Text
  version_type range_type ecosystem = type_for (upper range_type) ecosystem

  unfoldable pub range_versions : Text → List Json → Outcome (List VersionEntry)
  unfolding version_type versions_for_range
  range_versions ecosystem [] = done []
  range_versions ecosystem (rng ∷ rngs) = do
    range_type ← text_at (codes "type") rng
    entries ← versions_for_range rng (version_type range_type ecosystem)
    rest ← range_versions ecosystem rngs
    done (entries ++ rest)

  -- `_versions`
  unfoldable pub versions_of : Json → Text → Outcome (List VersionEntry)
  unfolding range_versions listed_versions
  versions_of entry ecosystem = do
    ranges ← list_at (codes "ranges") entry
    entries ← range_versions ecosystem ranges
    listed ← list_at (codes "versions") entry
    done (first_of_each same_entry [] (entries ++ listed_versions listed))
