-- ===== src/Documents/Validators/Read.antt =====
-- Accepted credits, severities and weaknesses are read (advisories/validators.py,
-- publication/cve.py).
use advisoryhub.Prelude.{
  ◌≡◌, refl, Bool, true, Option, List, [], ◌∷◌, Text, codes, is_blank, strip, arith, Bool-cases,
  inl, inr,
}
use advisoryhub.Documents.{Outcome, done, Fault, ◌>>=◌, Gives, Gives->>=, check-done}
use advisoryhub.Documents.Json.{
  Json, null, boolean, number, string, array, object, no_items, item, no_fields, field, Fields,
  text_at, elements, or_list, or_text, is_truthy, is_text, text_of,
}
use advisoryhub.Documents.Lists.{every}
use advisoryhub.Documents.Validators.{must, value_at, elements_of, each, list_of}
use advisoryhub.Documents.Validators.Accepted.{each-done, text_at-text}
use advisoryhub.Documents.Validators.Affected.{Any}
use advisoryhub.Documents.Scores.{
  type_allowed, validate_credit, validate_credits, validate_severity, validate_cwe_ids, cwe_allowed,
  validate_severity_entry,
}
use advisoryhub.Documents.Cve.Parts.{credits_of, credit_entries, problem_types_of}
use advisoryhub.Documents.Cve.Metrics.{Cvss, metrics_of, metric_entries, cvss_metric}

abbrev pub has_text_name : Json → Bool
has_text_name credit = is_text (value_at (codes "name") credit)

abbrev pub has_text_score : Json → Bool
has_text_score entry = is_text (value_at (codes "score") entry)

allowed_text :
    (v : Json)
    → type_allowed v >>= (λ known. must known) ≡ done tt
    → (t : Text) × (text_of (or_text v) ≡ done t)
allowed_text null h = ([], refl)
allowed_text (string []) h = ([], refl)
allowed_text (string (c ∷ s)) h = (c ∷ s, refl)
allowed_text (boolean b) h = ground (arith, h)
allowed_text (number n) h = ground (arith, h)
allowed_text (array is) h = ground (arith, h)
allowed_text (object fs) h = ground (arith, h)

-- The type of an accepted credit is read as a text.
credit_kind :
    (fs : Fields)
    → validate_credit (object fs) ≡ done tt
    → (t : Text) × (text_at (codes "type") (object fs) ≡ done t)
unfolding validate_credit
credit_kind fs h =
    let name = value_at (codes "name") (object fs) in
    allowed_text (value_at (codes "type") (object fs))
      (check-done (is_truthy name) Fault.validation_error _ tt h).1

credit_entries-gives :
    (upper : Text → Text) (credits : List Json)
    → each validate_credit credits ≡ done tt
    → every has_text_name credits ≡ true
    → Gives (credit_entries upper credits) Any
unfolding credit_entries
credit_entries-gives upper [] h t = tt
credit_entries-gives upper (object (field k v fs) ∷ credits) h t =
    let (one, others) = each-done validate_credit (object (field k v fs)) credits h in
    let (s, _, name) = text_at-text (codes "name") (field k v fs) (ground (arith, t)) in
    let (kind, type) = credit_kind (field k v fs) one in
    let rest = credit_entries-gives upper credits others (ground (arith, t)) in
    rw name (elim (Bool-cases (is_blank (strip s))) [
      | inl no_name ↦ rw no_name rest
      | inr some_name ↦
          rw (some_name, type) (Gives->>= (credit_entries upper credits) _ Any _ rest (λ cs _. tt))
    ])
credit_entries-gives upper (object no_fields ∷ credits) h t = ground (arith, t)
credit_entries-gives upper (null ∷ credits) h t = ground (arith, t)
credit_entries-gives upper (boolean b ∷ credits) h t = ground (arith, t)
credit_entries-gives upper (number n ∷ credits) h t = ground (arith, t)
credit_entries-gives upper (string s ∷ credits) h t = ground (arith, t)
credit_entries-gives upper (array is ∷ credits) h t = ground (arith, t)

metric_entries-gives :
    (cvss : Cvss) (upper : Text → Text) (sevs : List Json)
    → every has_text_score sevs ≡ true
    → Gives (metric_entries cvss upper sevs) Any
unfolding metric_entries cvss_metric
metric_entries-gives cvss upper [] t = tt
metric_entries-gives cvss upper (object (field k v fs) ∷ sevs) t =
    let (s, _, score) = text_at-text (codes "score") (field k v fs) (ground (arith, t)) in
    rw score (
      Gives->>= (metric_entries cvss upper sevs) _ Any _
        (metric_entries-gives cvss upper sevs (ground (arith, t))) (λ ms _. tt))
metric_entries-gives cvss upper (object no_fields ∷ sevs) t = ground (arith, t)
metric_entries-gives cvss upper (null ∷ sevs) t = ground (arith, t)
metric_entries-gives cvss upper (boolean b ∷ sevs) t = ground (arith, t)
metric_entries-gives cvss upper (number n ∷ sevs) t = ground (arith, t)
metric_entries-gives cvss upper (string s ∷ sevs) t = ground (arith, t)
metric_entries-gives cvss upper (array is ∷ sevs) t = ground (arith, t)

-- An accepted field is absent or a list, and the builders go through its elements.
listed :
    (f : Json → Outcome (Unit {0})) (v : Json)
    → list_of f v ≡ done tt
    → (elements (or_list v) ≡ done (elements_of v)) × (each f (elements_of v) ≡ done tt)
unfolding each
listed f null h = (refl, refl)
listed f (array no_items) h = (refl, refl)
listed f (array (item j js)) h = (refl, h)
listed f (boolean b) h = ground (arith, h)
listed f (number n) h = ground (arith, h)
listed f (string s) h = ground (arith, h)
listed f (object fs) h = ground (arith, h)

module _ (upper : Text → Text) where
  pub credits_of-gives :
      (v : Json)
      → validate_credits v ≡ done tt
      → every has_text_name (elements_of v) ≡ true
      → Gives (credits_of upper v) Any
  unfolding validate_credits credits_of
  credits_of-gives v h t =
      let (e, passed) = listed validate_credit v h in
      rw e (
        Gives->>= (credit_entries upper (elements_of v)) _ Any _
          (credit_entries-gives upper (elements_of v) passed t) (λ cs _. tt))

  pub metrics_of-gives :
      (cvss : Cvss) (v : Json)
      → validate_severity v ≡ done tt
      → every has_text_score (elements_of v) ≡ true
      → Gives (metrics_of cvss upper v) Any
  unfolding validate_severity metrics_of
  metrics_of-gives cvss v h t =
      let (e, _) = listed validate_severity_entry v h in
      rw e (
        Gives->>= (metric_entries cvss upper (elements_of v)) _ Any _
          (metric_entries-gives cvss upper (elements_of v) t) (λ ms _. tt))

  pub problem_types_of-gives :
      (name_for : Text → Option Text) (is_known : Text → Bool) (v : Json)
      → validate_cwe_ids upper is_known v ≡ done tt
      → Gives (problem_types_of upper name_for v) Any
  unfolding validate_cwe_ids problem_types_of
  problem_types_of-gives name_for is_known v h =
      let (e, _) = listed (λ j. must (cwe_allowed upper is_known j)) v h in rw e tt
