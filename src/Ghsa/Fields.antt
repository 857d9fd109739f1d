-- ===== src/Ghsa/Fields.antt =====
-- The state, the CVE id, the severity, the weaknesses and the aliases of a GHSA payload
-- (ghsa/translator.py).
pub mod Valid
use advisoryhub.Prelude.{
  ℕ, zero, suc, ◌+◌, ◌-◌, Bool, true, false, not, ◌&&◌, ◌||◌, ◌==◌, leb, Option, none, some, List,
  [], ◌∷◌, ◌++◌, Text, blank, codes, is_blank, strip, text_eq, if◌then◌else◌, is_some,
}
use advisoryhub.Advisory.{GhsaState}
use advisoryhub.Workflows.{drop_prefix, leading_decimals, after_decimals, is_end}
use advisoryhub.Documents.{Outcome, done, ◌>>=◌}
use advisoryhub.Documents.Json.{
  Json, string, object, get, or_dict, or_else, or_text, text_of, text_at, list_at, is_truthy,
  is_text, is_dict,
}
use advisoryhub.Documents.Lists.{is_in, find_text, or_default, first_of_each}
use advisoryhub.Documents.Scores.{ubuntu_scores}
use advisoryhub.Ghsa.Versions.{pair}

-- A capital letter or another character of a pattern, under `re.IGNORECASE`: the long s counts as
-- an S.
abbrev pub takes_letter : ℕ → ℕ → Bool
takes_letter p c = c == p || leb 65 p && leb p 90 && c == p + 32 || p == 83 && c == 0x17f

unfoldable pub drop_letters : Text → Text → Option Text
drop_letters [] s = some s
drop_letters (p ∷ ps) [] = none
drop_letters (p ∷ ps) (c ∷ s) =
    let rest = drop_letters ps s in if takes_letter p c then rest else none

-- `[a-z0-9]` under `re.IGNORECASE`
abbrev pub in_ghsa_group : ℕ → Bool
in_ghsa_group c =
    leb 48 c && leb c 57
    || leb 65 c && leb c 90
    || leb 97 c && leb c 122
    || c == 0x130
    || c == 0x131
    || c == 0x17f
    || c == 0x212a

abbrev pub drop_ghsa_group : Text → Option Text
drop_ghsa_group (d ∷ a ∷ b ∷ c ∷ e ∷ s) =
    if d == 45 && in_ghsa_group a && in_ghsa_group b && in_ghsa_group c && in_ghsa_group e
    then some s
    else none
drop_ghsa_group _ = none

abbrev pub then_drop : Option Text → (Text → Option Text) → Option Text
then_drop none f = none
then_drop (some s) f = f s

abbrev pub ends : Option Text → Bool
ends none = false
ends (some s) = is_end s

-- `GHSA_ID_RE.match`: `^GHSA-[a-z0-9]{4}-[a-z0-9]{4}-[a-z0-9]{4}$`
unfoldable pub is_ghsa_id : Text → Bool
unfolding drop_letters
is_ghsa_id s = ends (
    then_drop
      (then_drop (then_drop (drop_letters (codes "GHSA") s) drop_ghsa_group) drop_ghsa_group)
      drop_ghsa_group)

-- `_GHSA_STATE_MAP`
abbrev pub ghsa_state_map : List (Text × GhsaState)
ghsa_state_map =
    (codes "draft", GhsaState.draft)
    ∷ (codes "triage", GhsaState.triage)
    ∷ (codes "published", GhsaState.published)
    ∷ (codes "closed", GhsaState.closed)
    ∷ (codes "withdrawn", GhsaState.withdrawn)
    ∷ []

-- What is left of a text after `strip`; blank for another value.
abbrev pub visible : Json → Text
visible (string s) = strip s
visible _ = blank

abbrev pub severity_entry : Text → Text → Json
severity_entry kind score = pair (codes "type") kind (codes "score") score

-- `lower` is `str.lower`.
module _ (lower : Text → Text) where
  -- `_translate_state`
  unfoldable pub translate_state : Json → Outcome GhsaState
  translate_state state = if not (is_truthy state) then done GhsaState.unknown else do
    s ← text_of state
    done (or_default GhsaState.unknown (find_text (lower s) ghsa_state_map))

  -- Without a vector: the Ubuntu band of `severity`.
  pub band : Json → Outcome (List Json)
  unfolding strip
  band payload = do
    s ← text_at (codes "severity") payload
    done (
        if is_in text_eq (lower (strip s)) ubuntu_scores
        then severity_entry (codes "Ubuntu") (lower (strip s)) ∷ []
        else [])

-- `is_decimal` is `\d`.
module _ (is_decimal : ℕ → Bool) where
  -- `(?:\.\d+)?/` after the version's first digit
  abbrev pub ends_version : Text → Bool
  ends_version [] = false
  ends_version (c ∷ s) =
      c == 47
      || c == 46
        && leb 1 (leading_decimals is_decimal s)
        && is_some (drop_prefix (codes "/") (after_decimals is_decimal s))

  abbrev pub cvss_type : Option Text → Text
  cvss_type none = codes "CVSS_V3"
  cvss_type (some []) = codes "CVSS_V3"
  cvss_type (some (v ∷ s)) =
      if v == 50 && ends_version s
      then codes "CVSS_V2"
      else if v == 52 && ends_version s
      then codes "CVSS_V4"
      else codes "CVSS_V3"

  -- The type of a vector, by `_CVSS_VECTOR_RE`.
  pub vector_type : Text → Text
  unfolding drop_letters leading_decimals after_decimals drop_prefix
  vector_type vector = cvss_type (drop_letters (codes "CVSS:") vector)

  -- `_translate_severity`
  unfoldable pub translate_severity : (Text → Text) → Json → Outcome (List Json)
  unfolding vector_type band strip
  translate_severity lower payload = do
    cvss ← get (codes "cvss") payload
    vector ← text_at (codes "vector_string") (or_dict cvss)
    if is_blank (strip vector)
        then band lower payload
        else done (severity_entry (vector_type (strip vector)) (strip vector) ∷ [])

-- The id that an element of `cwes` gives, blank if none.
pub cwe_text : Json → Outcome Text
cwe_text (object fs) = do
  cwe ← get (codes "cwe_id") (object fs)
  id ← get (codes "id") (object fs)
  text_of (or_text (or_else cwe id))
cwe_text (string s) = done s
cwe_text _ = done blank

-- `upper` is `str.upper`.
module _ (upper : Text → Text) where
  -- `(ident.get("type") or "").upper() == "CVE"`
  abbrev pub is_cve : Json → Outcome Bool
  is_cve ident = do kind ← text_at (codes "type") ident; done (text_eq (upper kind) (codes "CVE"))

  pub first_cve : List Json → Outcome (Option Text)
  unfolding strip
  first_cve [] = done none
  first_cve (ident ∷ idents) =
      let rest = first_cve idents in
      if not (is_dict ident) then rest else do
        cve ← is_cve ident
        value ← get (codes "value") ident
        if cve && not (is_blank (visible value)) then done (some (visible value)) else rest

  -- `_extract_cve_id`
  unfoldable pub extract_cve_id : Json → Outcome (Option Text)
  unfolding first_cve strip
  extract_cve_id payload = do
    cve ← get (codes "cve_id") payload
    if not (is_blank (visible cve))
        then done (some (visible cve))
        else do idents ← list_at (codes "identifiers") payload; first_cve idents

  pub cwe_id : Text → Text
  unfolding drop_prefix
  cwe_id cwe =
      upper (if is_some (drop_prefix (codes "CWE-") (upper cwe)) then cwe else codes "CWE-" ++ cwe)

  pub cwe_texts : List Json → Outcome (List Text)
  unfolding cwe_text cwe_id strip
  cwe_texts [] = done []
  cwe_texts (entry ∷ entries) = do
    cwe ← cwe_text entry
    rest ← cwe_texts entries
    done (if is_blank (strip cwe) then rest else cwe_id (strip cwe) ∷ rest)

  -- `_translate_cwes`
  unfoldable pub translate_cwes : Json → Outcome (List Text)
  unfolding cwe_texts first_of_each
  translate_cwes payload = do
    entries ← list_at (codes "cwes") payload
    cwes ← cwe_texts entries
    done (first_of_each text_eq [] cwes)

  -- The values of the identifiers that are no CVE ids.
  pub other_identifiers : List Json → Outcome (List Text)
  unfolding strip
  other_identifiers [] = done []
  other_identifiers (ident ∷ idents) =
      let rest = other_identifiers idents in
      if not (is_dict ident) then rest else do
        cve ← is_cve ident
        if cve then rest else do
          value ← text_at (codes "value") ident
          others ← rest
          done (if is_blank (strip value) then others else strip value ∷ others)

  -- `_translate_aliases`
  unfoldable pub translate_aliases : Json → Outcome (List Text)
  unfolding other_identifiers is_ghsa_id first_of_each strip
  translate_aliases payload = do
    ghsa ← text_at (codes "ghsa_id") payload
    idents ← list_at (codes "identifiers") payload
    others ← other_identifiers idents
    done (
        first_of_each text_eq [] (
          if not (is_blank (strip ghsa)) && is_ghsa_id (strip ghsa)
          then strip ghsa ∷ others
          else others))
