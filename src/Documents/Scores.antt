-- ===== src/Documents/Scores.antt =====
-- The validators of credits, severities and weaknesses (advisories/validators.py, second half).
use advisoryhub.Prelude.{
  Bool, true, false, ◌&&◌, List, [], ◌∷◌, Text, codes, text_eq, if◌then◌else◌, is_some,
}
use advisoryhub.Workflows.{drop_prefix}
use advisoryhub.Documents.{Outcome, done, ◌>>=◌, ◌>>◌}
use advisoryhub.Documents.Json.{Json, null, string, is_truthy, is_dict}
use advisoryhub.Documents.Validators.{must, value_at, list_of, among}

abbrev pub credit_types : List Text
credit_types =
    codes "FINDER"
    ∷ codes "REPORTER"
    ∷ codes "ANALYST"
    ∷ codes "COORDINATOR"
    ∷ codes "REMEDIATION_DEVELOPER"
    ∷ codes "REMEDIATION_REVIEWER"
    ∷ codes "REMEDIATION_VERIFIER"
    ∷ codes "TOOL"
    ∷ codes "SPONSOR"
    ∷ codes "OTHER"
    ∷ []

-- `None`, or a type that is allowed
abbrev pub type_allowed : Json → Outcome Bool
type_allowed null = done true
type_allowed kind = among credit_types kind

unfoldable pub validate_credit : Json → Outcome (Unit {0})
validate_credit credit = do
  must (is_dict credit && is_truthy (value_at (codes "name") credit))
  known ← type_allowed (value_at (codes "type") credit)
  must known

unfoldable pub validate_credits : Json → Outcome (Unit {0})
unfolding validate_credit
validate_credits value = list_of validate_credit value

abbrev pub severity_types : List Text
severity_types = codes "CVSS_V2" ∷ codes "CVSS_V3" ∷ codes "CVSS_V4" ∷ codes "Ubuntu" ∷ []

abbrev pub ubuntu_scores : List Text
ubuntu_scores =
    codes "negligible" ∷ codes "low" ∷ codes "medium" ∷ codes "high" ∷ codes "critical" ∷ []

abbrev pub is_ubuntu : Json → Bool
is_ubuntu (string s) = text_eq s (codes "Ubuntu")
is_ubuntu _ = false

abbrev pub score_allowed : Json → Json → Outcome Bool
score_allowed kind score = if is_ubuntu kind then among ubuntu_scores score else done true

unfoldable pub validate_severity_entry : Json → Outcome (Unit {0})
validate_severity_entry entry = do
  must (is_dict entry)
  known ← among severity_types (value_at (codes "type") entry)
  must known
  must (is_truthy (value_at (codes "score") entry))
  allowed ← score_allowed (value_at (codes "type") entry) (value_at (codes "score") entry)
  must allowed

unfoldable pub validate_severity : Json → Outcome (Unit {0})
unfolding validate_severity_entry
validate_severity value = list_of validate_severity_entry value

-- `upper` is `str.upper`; `is_known` looks a weakness up in the CWE catalog.
module _ (upper : Text → Text) (is_known : Text → Bool) where
  abbrev pub cwe_allowed : Json → Bool
  cwe_allowed (string s) = is_some (drop_prefix (codes "CWE-") (upper s)) && is_known s
  cwe_allowed _ = false

  unfoldable pub validate_cwe_ids : Json → Outcome (Unit {0})
  validate_cwe_ids value = list_of (λ j. must (cwe_allowed j)) value
