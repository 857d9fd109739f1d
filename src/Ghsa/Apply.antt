-- ===== src/Ghsa/Apply.antt =====
-- Projecting a GHSA payload onto an advisory (ghsa/translator.py, `apply_ghsa_to_advisory`).
use advisoryhub.Prelude.{
  ℕ, Bool, Option, List, [], ◌∷◌, ◌++◌, map, Text, strip, text_eq, if◌then◌else◌, codes,
}
use advisoryhub.Advisory.{Advisory, Content, GhsaState}
use advisoryhub.Documents.{Outcome, done, fail, Fault, ◌>>=◌}
use advisoryhub.Documents.Json.{items_of, Json, string, array, object, get, or_text, text_at}
use advisoryhub.Documents.Lists.{truncate}
use advisoryhub.Ghsa.Packages.{translate_affected}
use advisoryhub.Ghsa.Links.{credit, translate_references, translate_credits}
use advisoryhub.Ghsa.Fields.{
  translate_state, extract_cve_id, translate_severity, translate_cwes, translate_aliases,
}

abbrev pub summary_limit : ℕ
summary_limit = 300

-- `_trim(value[:300])`: only a text has both.
abbrev pub trimmed_slice : Json → Outcome Text
unfolding strip
trimmed_slice (string s) = done (strip (truncate summary_limit s))
trimmed_slice (array is) = fail Fault.attribute_error
trimmed_slice (object fs) = fail Fault.key_error
trimmed_slice _ = fail Fault.type_error

-- The columns that GitHub owns.
pub data Column : Type 0 where
  summary details severity cwe_ids aliases references affected credits : Column

pub record TranslateResult : Type 0 where
  pub changed_field_names : List Column
  pub cve_id_from_ghsa : Option Text
  pub ghsa_state : GhsaState

-- What the field translators make of a payload.
pub record Translated : Type 0 where
  pub summary : Text
  pub details : Text
  pub severity : List Json
  pub cwe_ids : List Text
  pub aliases : List Text
  pub references : List Json
  pub affected : List Json
  pub credits : List (Text × Text)

-- `if value != advisory.field: changed.append(field)`
abbrev pub note : Column → Text → Text → List Column
note column new old = if text_eq new old then [] else column ∷ []

module _ (upper lower : Text → Text) (is_decimal : ℕ → Bool) (url_valid : Text → Bool) where
  unfoldable pub translate : Json → Outcome Translated
  unfolding strip
  translate payload = do
    given ← get (codes "summary") payload
    title ← trimmed_slice (or_text given)
    description ← text_at (codes "description") payload
    scores ← translate_severity is_decimal lower payload
    cwes ← translate_cwes upper payload
    names ← translate_aliases upper payload
    links ← translate_references url_valid upper payload
    entries ← translate_affected lower payload
    thanks ← translate_credits lower payload
    done (record {
      summary = title;
      details = strip description;
      severity = scores;
      cwe_ids = cwes;
      aliases = names;
      references = links;
      affected = entries;
      credits = thanks;
    })

unfoldable pub changed_columns : Content → Content → List Column
changed_columns new old =
    note Column.summary new.summary old.summary
    ++ note Column.details new.details old.details
    ++ note Column.severity new.severity old.severity
    ++ note Column.cwe_ids new.cwe_ids old.cwe_ids
    ++ note Column.aliases new.aliases old.aliases
    ++ note Column.references new.references old.references
    ++ note Column.affected new.affected old.affected
    ++ note Column.credits new.credits old.credits

-- `dump` writes a JSON value as the rows keep it.
module _ (dump : Json → Text) where
  abbrev pub to_content : Translated → Content
  to_content t = record {
    summary = t.summary;
    details = t.details;
    aliases = dump (array (items_of (map string t.aliases)));
    references = dump (array (items_of t.references));
    affected = dump (array (items_of t.affected));
    severity = dump (array (items_of t.severity));
    cwe_ids = dump (array (items_of (map string t.cwe_ids)));
    credits = dump (array (items_of (map credit t.credits)));
  }

  -- `apply_ghsa_to_advisory`: the result, and the advisory as the caller then holds it.
  module _ (upper lower : Text → Text) (is_decimal : ℕ → Bool) (url_valid : Text → Bool) where
    unfoldable pub apply_ghsa_to_advisory : Advisory → Json → Outcome (TranslateResult × Advisory)
    unfolding translate changed_columns translate_state extract_cve_id
    apply_ghsa_to_advisory a payload = do
      t ← translate upper lower is_decimal url_valid payload
      cve ← extract_cve_id upper payload
      raw_state ← get (codes "state") payload
      state ← translate_state lower raw_state
      done (
        record {
          changed_field_names = changed_columns (to_content t) a.content;
          cve_id_from_ghsa = cve;
          ghsa_state = state;
        },
        record a { content = to_content t },
      )
