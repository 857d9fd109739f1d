-- ===== src/Documents/Accepted.antt =====
-- An advisory whose fields the validators accept can be published as a CVE record
-- (advisories/validators.py, publication/cve.py).
use advisoryhub.Prelude.{
  ℕ, ◌≡◌, refl, Bool, true, not, Option, [], ◌∷◌, Text, is_blank, strip, arith, exists_row,
}
use advisoryhub.Workflows.{is_cve_id, drop_prefix}
use advisoryhub.Documents.{Outcome, done, fail, Gives, Gives->>=, Gives-check, Gives-Whenever}
use advisoryhub.Documents.Json.{is_truthy}
use advisoryhub.Documents.Lists.{every}
use advisoryhub.Documents.Validators.{elements_of, validate_references, validate_affected}
use advisoryhub.Documents.Validators.Accepted.{references_of-gives}
use advisoryhub.Documents.Validators.Affected.{
  Any, entry_has_texts, entry_is_named, affected_of-gives,
}
use advisoryhub.Documents.Scores.{validate_credits, validate_severity, validate_cwe_ids}
use advisoryhub.Documents.Cve.Parts.{affected_of, references_of, credits_of, problem_types_of}
use advisoryhub.Documents.Cve.Metrics.{Cvss, metrics_of}
use advisoryhub.Documents.Cve.Build.{
  Pinned, Arguments, Published, build_cve, is_empty, vendor_of, require_cve_id_and_assigner,
  is_uuid,
}
use advisoryhub.Documents.Cve.Conforms.{Conforms, build_cve-Conforms}
use advisoryhub.Documents.Validators.Read.{
  has_text_name, has_text_score, credits_of-gives, metrics_of-gives, problem_types_of-gives,
}

-- What the validators accept of an advisory's fields.
pub record Accepted (upper : Text → Text) (url_valid : Text → Bool) (is_known : Text → Bool)
    (p : Pinned) : Type 0 where
  pub references : validate_references url_valid p.references ≡ done tt
  pub affected : validate_affected p.affected ≡ done tt
  pub severity : validate_severity p.severity ≡ done tt
  pub cwe_ids : validate_cwe_ids upper is_known p.cwe_ids ≡ done tt
  pub credits : validate_credits p.credits ≡ done tt

-- What they do not ask for: names, range types and scores that are texts.
pub record HasTexts (p : Pinned) : Type 0 where
  pub affected : every entry_has_texts (elements_of p.affected) ≡ true
  pub severity : every has_text_score (elements_of p.severity) ≡ true
  pub credits : every has_text_name (elements_of p.credits) ≡ true

-- The two identifiers that the builder asks for.
pub record Identified (is_decimal : ℕ → Bool) (p : Pinned) (args : Arguments) : Type 0 where
  pub cve_id : is_cve_id is_decimal (strip p.assigned_cve_id) ≡ true
  pub assigner : is_uuid (strip args.assigner_org_id) ≡ true

cve_id_visible :
    (is_decimal : ℕ → Bool) (s : Text) → is_cve_id is_decimal s ≡ true → not (is_blank s) ≡ true
unfolding is_cve_id drop_prefix
cve_id_visible is_decimal [] h = ground (arith, h)
cve_id_visible is_decimal (c ∷ s) h = refl

uuid_visible : (s : Text) → is_uuid s ≡ true → not (is_blank s) ≡ true
unfolding is_uuid
uuid_visible [] h = ground (arith, h)
uuid_visible (c ∷ s) h = refl

require-gives :
    (is_decimal : ℕ → Bool) (p : Pinned) (args : Arguments)
    → Identified is_decimal p args
    → Gives
        (require_cve_id_and_assigner is_decimal p.assigned_cve_id args.assigner_org_id)
        (λ ids. (ids.0 ≡ strip p.assigned_cve_id) × (ids.1 ≡ strip args.assigner_org_id))
unfolding require_cve_id_and_assigner
require-gives is_decimal p args h =
    Gives-check (not (is_blank (strip p.assigned_cve_id))) _ _ _
      (cve_id_visible is_decimal (strip p.assigned_cve_id) h.cve_id)
      (Gives-check (is_cve_id is_decimal (strip p.assigned_cve_id)) _ _ _ h.cve_id (
        Gives-check (not (is_blank (strip args.assigner_org_id))) _ _ _
          (uuid_visible (strip args.assigner_org_id) h.assigner)
          (Gives-check (is_uuid (strip args.assigner_org_id)) _ _ _ h.assigner (refl, refl))))

-- An advisory with a CVE id and an organisation of the right forms, whose fields the validators
-- accept, whose names, range types and scores are texts, with a reference and with a package whose
-- name is not white space, is always built into a CVE record: one that keeps the limits of the
-- format, under that id and by that organisation.
pub build_cve-Accepted :
    (is_decimal : ℕ → Bool) (upper : Text → Text) (name_for : Text → Option Text) (cvss : Cvss)
    (url_valid : Text → Bool) (is_known : Text → Bool) (p : Pinned) (args : Arguments)
    → Identified is_decimal p args
    → Accepted upper url_valid is_known p
    → HasTexts p
    → is_truthy p.references ≡ true
    → exists_row entry_is_named (elements_of p.affected) ≡ true
    → Gives (build_cve is_decimal upper name_for cvss p args) (λ r.
      (r.head.cve_id ≡ strip p.assigned_cve_id)
      × (r.head.assigner ≡ strip args.assigner_org_id)
      × Conforms r)
unfolding build_cve
build_cve-Accepted is_decimal upper name_for cvss url_valid is_known p args identified accepted
      texts some_reference named =
    let vendor = vendor_of p in
    let built = build_cve is_decimal upper name_for cvss p args in
    regroup built (
      Gives-Whenever built _ _
        (Gives->>= (require_cve_id_and_assigner is_decimal p.assigned_cve_id args.assigner_org_id) _
          _ _ (require-gives is_decimal p args identified)
          (λ ids same.
            Gives->>= (affected_of upper vendor p.affected) _ _ _
              (affected_of-gives upper vendor p.affected accepted.affected texts.affected named)
              (λ products some_product.
                Gives-check (not (is_empty products)) _ _ _ (ground (arith, some_product)) (
                  Gives->>= (references_of p.references) _ _ _
                    (references_of-gives url_valid p.references accepted.references some_reference)
                    (λ refs some_ref.
                      Gives-check (not (is_empty refs)) _ _ _ (ground (arith, some_ref)) (
                        Gives->>= (problem_types_of upper name_for p.cwe_ids) _ Any _
                          (problem_types_of-gives upper name_for is_known p.cwe_ids
                            accepted.cwe_ids)
                          (λ problems _.
                            Gives->>= (metrics_of cvss upper p.severity) _ Any _
                              (metrics_of-gives upper cvss p.severity accepted.severity
                                texts.severity)
                              (λ ms _.
                                Gives->>= (credits_of upper p.credits) _ Any _
                                  (credits_of-gives upper p.credits accepted.credits texts.credits)
                                  (λ cs _. same)))))))))
        (build_cve-Conforms is_decimal upper name_for cvss p args))
  where
    regroup :
        (m : Outcome Published)
        → Gives m (λ r.
          ((r.head.cve_id ≡ strip p.assigned_cve_id)
            × (r.head.assigner ≡ strip args.assigner_org_id))
          × Conforms r)
        → Gives m (λ r.
          (r.head.cve_id ≡ strip p.assigned_cve_id)
          × (r.head.assigner ≡ strip args.assigner_org_id)
          × Conforms r)
    regroup (done r) h = (h.0.0, h.0.1, h.1)
    regroup (fail e) h = h
