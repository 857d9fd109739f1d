-- ===== src/Documents/Validators.antt =====
-- The validators of an advisory's JSON fields (advisories/validators.py).
pub mod Accepted
pub mod Affected
pub mod Read
use advisoryhub.Prelude.{
  ℕ, Bool, true, false, not, ◌&&◌, ◌||◌, ◌==◌, leb, Option, none, some, List, [], ◌∷◌, ◌++◌, Text,
  codes, is_blank, strip, is_space, text_eq, if◌then◌else◌,
}
use advisoryhub.Documents.{Outcome, done, fail, Fault, ◌>>=◌, ◌>>◌, check}
use advisoryhub.Documents.Json.{
  Json, null, string, array, object, no_items, item, no_fields, field, items, lookup, or_null,
  or_list, or_else, is_truthy, is_list, is_dict, is_text,
}
use advisoryhub.Documents.Lists.{is_in}
use advisoryhub.Workflows.{drop_prefix}
use advisoryhub.Documents.Ecosystems.{is_valid_ecosystem}

-- `raise ValidationError` unless the test holds
abbrev pub must : Bool → Outcome (Unit {0})
must b = check b Fault.validation_error

-- `value.get(key)` of a value that is known to be a dict
abbrev pub value_at : Text → Json → Json
value_at k (object fs) = or_null (lookup k fs)
value_at k _ = null

abbrev pub elements_of : Json → List Json
elements_of (array is) = items is
elements_of _ = []

pub each : (Json → Outcome (Unit {0})) → List Json → Outcome (Unit {0})
each f [] = done tt
each f (j ∷ js) = f j >> each f js

-- `None`, or a list whose elements pass
abbrev pub list_of : (Json → Outcome (Unit {0})) → Json → Outcome (Unit {0})
list_of f null = done tt
list_of f (array is) = each f (items is)
list_of f _ = fail Fault.validation_error

-- `value in texts`: a list or a dict has no hash.
abbrev pub among : List Text → Json → Outcome Bool
among texts (string s) = done (is_in text_eq s texts)
among texts (array is) = fail Fault.type_error
among texts (object fs) = fail Fault.type_error
among texts _ = done false

abbrev pub text_visible : Json → Bool
text_visible (string s) = not (is_blank (strip s))
text_visible _ = false

unfoldable pub validate_aliases : Json → Outcome (Unit {0})
unfolding each
validate_aliases value = list_of (λ j. must (text_visible j)) value

abbrev pub reference_types : List Text
reference_types =
    codes "ADVISORY"
    ∷ codes "ARTICLE"
    ∷ codes "DETECTION"
    ∷ codes "DISCUSSION"
    ∷ codes "REPORT"
    ∷ codes "FIX"
    ∷ codes "INTRODUCED"
    ∷ codes "GIT"
    ∷ codes "PACKAGE"
    ∷ codes "EVIDENCE"
    ∷ codes "WEB"
    ∷ []

-- `ref.get("type", "WEB")`
abbrev type_or_web : Json → Json
type_or_web (object fs) = elim (lookup (codes "type") fs) [
  | none ↦ string (codes "WEB")
  | some t ↦ t
]
type_or_web _ = null

-- `url_valid` is Django's `URLValidator`: whether it passes a text.
module _ (url_valid : Text → Bool) where
  unfoldable pub is_safe_reference_url : Json → Bool
  is_safe_reference_url (string s) = url_valid s
  is_safe_reference_url _ = false

  unfoldable pub validate_reference : Json → Outcome (Unit {0})
  unfolding is_safe_reference_url
  validate_reference ref = do
    must (is_dict ref)
    must (is_text (value_at (codes "url") ref) && is_truthy (value_at (codes "url") ref))
    must (is_safe_reference_url (value_at (codes "url") ref))
    known ← among reference_types (type_or_web ref)
    must known

  unfoldable pub validate_references : Json → Outcome (Unit {0})
  unfolding each validate_reference
  validate_references value = list_of validate_reference value

-- `[A-Za-z0-9.+-]`
abbrev is_purl_type : ℕ → Bool
is_purl_type c =
    leb 65 c && leb c 90
    || leb 97 c && leb c 122
    || leb 48 c && leb c 57
    || c == 46
    || c == 43
    || c == 45

-- `\S+$`: `$` also stands before a last line feed.
abbrev rest_visible : Text → Bool
rest_visible [] = true
rest_visible (c ∷ []) = not (is_space c) || c == 10
rest_visible (c ∷ d ∷ s) = not (is_space c) && rest_visible (d ∷ s)

abbrev name_visible : Text → Bool
name_visible [] = false
name_visible (c ∷ s) = not (is_space c) && rest_visible s

abbrev purl_name : Text → Bool
purl_name [] = false
purl_name (c ∷ s) = if c == 47 then name_visible s else is_purl_type c && purl_name s

abbrev purl_type : Text → Bool
purl_type [] = false
purl_type (c ∷ s) = is_purl_type c && purl_name s

-- `PURL_RE.match`: `^pkg:[A-Za-z0-9.+-]+/\S+$`
pub is_valid_purl : Json → Bool
is_valid_purl (string s) = elim (drop_prefix (codes "pkg:") s) [
  | none ↦ false
  | some r ↦ purl_type r
]
is_valid_purl _ = false

-- `EVENT_KINDS_ALLOWED`
abbrev event_kinds_allowed : List Text
event_kinds_allowed =
    codes "introduced" ∷ codes "fixed" ∷ codes "last_affected" ∷ codes "limit" ∷ []

-- The kind of an event, a dict with one item.
pub event_kind : Json → Outcome Text
event_kind (object (field kind version no_fields)) = do
  must (is_in text_eq kind event_kinds_allowed)
  must (text_visible version)
  done kind
event_kind _ = fail Fault.validation_error

pub event_kinds_of : List Json → Outcome (List Text)
unfolding event_kind
event_kinds_of [] = done []
event_kinds_of (e ∷ es) = do kind ← event_kind e; kinds ← event_kinds_of es; done (kind ∷ kinds)

-- One range of `affected`.
pub validate_range : Json → Outcome (Unit {0})
unfolding event_kinds_of
validate_range r = do
  must (is_dict r && is_truthy (value_at (codes "type") r))
  must (is_list (or_list (value_at (codes "events") r)))
  must (is_truthy (or_list (value_at (codes "events") r)))
  kinds ← event_kinds_of (elements_of (or_list (value_at (codes "events") r)))
  must (is_in text_eq (codes "introduced") kinds)
  must (not (is_in text_eq (codes "fixed") kinds && is_in text_eq (codes "last_affected") kinds))

-- One entry of `affected`.
pub validate_entry : Json → Outcome (Unit {0})
unfolding each is_valid_purl validate_range
validate_entry entry = do
  must (is_dict entry)
  must (
      is_dict (value_at (codes "package") entry)
      && is_truthy (value_at (codes "name") (value_at (codes "package") entry)))
  must (is_truthy (value_at (codes "ecosystem") (value_at (codes "package") entry)))
  must (is_valid_ecosystem (value_at (codes "ecosystem") (value_at (codes "package") entry)))
  must (
      not (is_truthy (value_at (codes "purl") (value_at (codes "package") entry)))
      || is_valid_purl (value_at (codes "purl") (value_at (codes "package") entry)))
  must (
      is_list (or_list (value_at (codes "ranges") entry))
      && is_list (or_list (value_at (codes "versions") entry)))
  must (
      is_truthy (or_list (value_at (codes "ranges") entry))
      || is_truthy (or_list (value_at (codes "versions") entry)))
  each validate_range (elements_of (or_list (value_at (codes "ranges") entry)))

unfoldable pub validate_affected : Json → Outcome (Unit {0})
unfolding each validate_entry
validate_affected value = list_of validate_entry value
