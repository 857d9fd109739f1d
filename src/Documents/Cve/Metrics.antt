-- ===== src/Documents/Cve/Metrics.antt =====
-- The severity metrics of a CVE record (publication/cve.py, `_metrics`). Vectors are scored by the
-- `cvss` library.
use advisoryhub.Prelude.{
  ℕ, Bool, false, ◌&&◌, ◌==◌, Option, none, some, List, [], ◌∷◌, Text, codes, is_blank, strip,
  text_eq, if◌then◌else◌,
}
use advisoryhub.Documents.{Outcome, done, ◌>>=◌}
use advisoryhub.Documents.Json.{Json, string, get, text_at, elements, or_dict, or_list}
use advisoryhub.Documents.Lists.{first_of_each}
use advisoryhub.Documents.Cve.{same_option}

-- What the library says of a vector that it reads; a base score is in tenths.
pub record Scored : Type 0 where
  pub clean_vector : Text
  pub base_score : Option ℕ
  pub version : Text
  pub severity : Text

-- The constructors `CVSS2`, `CVSS3` and `CVSS4`: none where one raises.
pub record Cvss : Type 0 where
  pub cvss2 : Text → Option Scored
  pub cvss3 : Text → Option Scored
  pub cvss4 : Text → Option Scored

pub record Typed : Type 0 where
  pub key : Text
  pub version : Text
  pub vector : Text
  pub base_score : ℕ
  pub base_severity : Option Text

pub data Metric : Type 0 where
  typed : Typed → Metric
  -- a type and the text in its content: an Ubuntu severity, or a vector that was not scored
  ubuntu : Text → Metric
  unscored : Text → Text → Metric

-- `except Exception`: the vector as it is
abbrev scored : Text → Text → Option Scored → (Scored → ℕ → Metric) → Metric
scored kind vector none f = unscored kind vector
scored kind vector (some s) f = elim s.base_score [
  | none ↦ unscored kind vector
  | some score ↦ f s score
]

-- `json.dumps(metric, sort_keys=True)` of two metrics agree.
abbrev pub same_metric : Metric → Metric → Bool
same_metric (typed s) (typed t) =
    text_eq s.key t.key
    && text_eq s.version t.version
    && text_eq s.vector t.vector
    && s.base_score == t.base_score
    && same_option s.base_severity t.base_severity
same_metric (ubuntu s) (ubuntu t) = text_eq s t
same_metric (unscored k s) (unscored l t) = text_eq k l && text_eq s t
same_metric _ _ = false

module _ (cvss : Cvss) (upper : Text → Text) where
  metric_v2 : Text → Metric
  metric_v2 vector = scored (codes "CVSS_V2") vector (cvss.cvss2 vector) (λ s score. typed (record {
    key = codes "cvssV2_0";
    version = codes "2.0";
    vector = s.clean_vector;
    base_score = score;
    base_severity = none;
  }))

  metric_v3 : Text → Metric
  metric_v3 vector = scored (codes "CVSS_V3") vector (cvss.cvss3 vector) (λ s score. typed (record {
    key = if text_eq s.version (codes "3.0") then codes "cvssV3_0" else codes "cvssV3_1";
    version = s.version;
    vector = s.clean_vector;
    base_score = score;
    base_severity = some (upper s.severity);
  }))

  metric_v4 : Text → Metric
  metric_v4 vector = scored (codes "CVSS_V4") vector (cvss.cvss4 vector) (λ s score. typed (record {
    key = codes "cvssV4_0";
    version = codes "4.0";
    vector = s.clean_vector;
    base_score = score;
    base_severity = some (upper s.severity);
  }))

  abbrev metric_for : Text → Text → Option Metric
  metric_for kind vector =
      if text_eq kind (codes "CVSS_V2")
      then some (metric_v2 vector)
      else if text_eq kind (codes "CVSS_V3")
      then some (metric_v3 vector)
      else if text_eq kind (codes "CVSS_V4")
      then some (metric_v4 vector)
      else if text_eq kind (codes "Ubuntu")
      then some (ubuntu vector)
      else none

  abbrev metric_of_type : Json → Text → Option Metric
  metric_of_type (string kind) vector = metric_for kind vector
  metric_of_type _ vector = none

  -- `_cvss_metric`
  unfoldable pub cvss_metric : Json → Outcome (Option Metric)
  unfolding metric_v2 metric_v3 metric_v4
  cvss_metric sev = do
    kind ← get (codes "type") sev
    vector ← text_at (codes "score") sev
    done (if is_blank (strip vector) then none else metric_of_type kind (strip vector))

  abbrev add : Option Metric → List Metric → List Metric
  add none ms = ms
  add (some m) ms = m ∷ ms

  unfoldable pub metric_entries : List Json → Outcome (List Metric)
  unfolding cvss_metric
  metric_entries [] = done []
  metric_entries (sev ∷ sevs) = do
    metric ← cvss_metric (or_dict sev)
    rest ← metric_entries sevs
    done (add metric rest)

  -- `_metrics`
  unfoldable pub metrics_of : Json → Outcome (List Metric)
  unfolding metric_entries
  metrics_of value = do
    sevs ← elements (or_list value)
    found ← metric_entries sevs
    done (first_of_each same_metric [] found)
