-- ===== src/Ghsa/Versions.antt =====
-- The version ranges of a vulnerability (ghsa/translator.py, `_parse_vulnerable_range`).
pub mod Words
pub mod Meaning
use advisoryhub.Prelude.{
  ℕ, ◌-◌, Bool, true, false, not, ◌&&◌, ◌||◌, ◌==◌, Option, none, some, List, [], ◌∷◌, reverse,
  Text, blank, codes, is_blank, strip, lstrip, is_space, if◌then◌else◌,
}
use advisoryhub.Documents.{Outcome, done, ◌>>=◌}
use advisoryhub.Documents.Json.{
  Json, string, array, object, Items, no_items, item, Fields, no_fields, field, is_dict, get,
  or_dict, text_at, list_at,
}
use advisoryhub.Documents.Lists.{length, find_text, or_default}

-- A dict with one item, or two, whose values are texts.
abbrev pub entry : Text → Text → Json
entry k s = object (field k (string s) no_fields)

abbrev pub pair : Text → Text → Text → Text → Json
pair k s l t = object (field k (string s) (field l (string t) no_fields))

-- `_RANGE_OP_RE`, first group
pub data Operator : Type 0 where
  at_least at_most above under exactly : Operator

-- A character of the second group, `[^\s,]`.
abbrev pub in_version : ℕ → Bool
in_version c = not (is_space c) && not (c == 44)

pub version_part : Text → Text
version_part [] = []
version_part (c ∷ s) = let rest = version_part s in if in_version c then c ∷ rest else []

pub after_version : Text → Text
after_version [] = []
after_version (c ∷ s) = let rest = after_version s in if in_version c then rest else c ∷ s

-- What a match takes, and the text after it.
pub record Found : Type 0 where
  pub operator : Operator
  pub version : Text
  pub rest : Text

-- `\s*([^\s,]+)`, after the operator
pub version_after : Operator → Text → Option Found
unfolding version_part after_version lstrip is_space
version_after op s =
    if is_blank (version_part (lstrip s))
    then none
    else some
        record { operator = op; version = version_part (lstrip s); rest = after_version (lstrip s) }

abbrev pub or_match : Option Found → Option Found → Option Found
or_match (some f) m = some f
or_match none m = m

-- An operator that begins with `one`: first with a `=`, then without it.
pub operator_of : Operator → Operator → Text → Option Found
unfolding version_after
operator_of two one [] = none
operator_of two one (c ∷ s) =
    if c == 61
    then or_match (version_after two s) (version_after one (c ∷ s))
    else version_after one (c ∷ s)

pub operator_at : Text → Option Found
unfolding operator_of version_after
operator_at [] = none
operator_at (c ∷ s) =
    if c == 62
    then operator_of Operator.at_least Operator.above s
    else if c == 60
    then operator_of Operator.at_most Operator.under s
    else if c == 61
    then version_after Operator.exactly s
    else none

-- `_RANGE_OP_RE.match` at the start of a text
pub match_range : Text → Option Found
unfolding lstrip is_space operator_at
match_range s = operator_at (lstrip s)

-- `.rstrip(",")`
abbrev pub drop_commas : Text → Text
drop_commas [] = []
drop_commas (c ∷ s) = if c == 44 then drop_commas s else c ∷ s

pub trim_version : Text → Text
unfolding strip
trim_version s = reverse (drop_commas (reverse (strip s)))

-- `findall` on the rest of a text, of which so many characters belong to the last match.
unfoldable pub find_ranges : ℕ → Text → List (Operator × Text)
unfolding match_range trim_version
find_ranges n [] = []
find_ranges ℕ.zero (c ∷ s) = elim (match_range (c ∷ s)) [
  | none ↦ find_ranges 0 s
  | some f ↦ (f.operator, trim_version f.version) ∷ find_ranges (length s - length f.rest) s
]
find_ranges (ℕ.suc n) (c ∷ s) = find_ranges n s

-- What the loop over the matches keeps: for each kind of bound the last one.
pub record Bounds : Type 0 where
  pub introduced : Option Text
  pub fixed : Option Text
  pub last_affected : Option Text
  pub exact : Option Text

abbrev pub no_bounds : Bounds
no_bounds = record { introduced = none; fixed = none; last_affected = none; exact = none }

abbrev pub bound_by : Operator → Text → Bounds → Bounds
bound_by Operator.at_least ver b = record b { introduced = some ver }
bound_by Operator.above ver b = record b { introduced = some ver }
bound_by Operator.under ver b = record b { fixed = some ver }
bound_by Operator.at_most ver b = record b { last_affected = some ver }
bound_by Operator.exactly ver b = record b { exact = some ver }

abbrev pub bounds : Bounds → List (Operator × Text) → Bounds
bounds b [] = b
bounds b (m ∷ ms) = bounds (bound_by m.0 m.1 b) ms

-- The truth value of `str | None`.
abbrev pub is_set : Option Text → Bool
is_set none = false
is_set (some s) = not (is_blank s)

abbrev pub closing : Bounds → Text → List Json
closing b patched =
    if is_set b.fixed
    then entry (codes "fixed") (or_default blank b.fixed) ∷ []
    else if is_set b.last_affected
    then entry (codes "last_affected") (or_default blank b.last_affected) ∷ []
    else if not (is_blank patched)
    then entry (codes "fixed") patched ∷ []
    else []

pub events_for : Bounds → Text → List Json
events_for b patched =
    if is_set b.exact && not (is_set b.introduced || is_set b.fixed || is_set b.last_affected)
    then []
    else entry (codes "introduced") (or_default (codes "0") b.introduced) ∷ closing b patched

-- `_parse_vulnerable_range`
unfoldable pub parse_vulnerable_range : Text → Text → List Json
unfolding events_for find_ranges
parse_vulnerable_range spec patched =
    if not (is_blank spec)
    then events_for (bounds no_bounds (find_ranges 0 spec)) patched
    else if not (is_blank patched)
    then entry (codes "introduced") (codes "0") ∷ entry (codes "fixed") patched ∷ []
    else []
