-- ===== src/Documents/Cve/Conforms.antt =====
-- A built CVE record keeps the limits of the format (publication/cve.py;
-- publication/schemas/cve.upstream.json).
use advisoryhub.Prelude.{
  ℕ, ◌≡◌, refl, Bool, true, false, not, Option, List, [], ◌∷◌, Text, codes, is_blank, strip,
  text_eq, arith, Bool-cases, inl, inr,
}
use advisoryhub.Documents.{Whenever, Whenever->>=, Whenever-check, Whenever-skip}
use advisoryhub.Documents.Json.{Json, text_at, elements, get, or_dict, or_list}
use advisoryhub.Documents.Lists.{
  every, is_distinct, first_of_each, first_of_each-is_distinct, first_of_each-every,
}
use advisoryhub.Documents.Cve.{versions_of}
use advisoryhub.Documents.Cve.Parts.{
  Credit, Problem, products, affected_of, credit_entries, credits_of, same_credit, problem_types_of,
  described, or_id, cwes, or_id, urls, references_of, same_scalar, description_of,
}
use advisoryhub.Documents.Cve.Metrics.{Cvss, metrics_of, same_metric, metric_entries}
use advisoryhub.Documents.Cve.Build.{
  Pinned, Arguments, Published, build_cve, is_empty, vendor_of, require_cve_id_and_assigner,
}
use advisoryhub.Documents.Cve.Limits.{
  fits, fits-truncate, product_fits, versions_of-fits, default_status_of-fits,
}

abbrev pub Fit : {A : Type 0} → (A → Bool) → List A → Type 0
Fit p xs = every p xs ≡ true

products-Fit :
    (upper : Text → Text) (vendor : Text) (entries : List Json)
    → Whenever (products upper vendor entries) (Fit product_fits)
unfolding products
products-Fit upper vendor [] = refl
products-Fit upper vendor (entry ∷ entries) =
    Whenever-skip (get (codes "package") (or_dict entry)) _ _ (λ pkg.
      Whenever-skip (text_at (codes "name") (or_dict pkg)) _ _ (λ name.
        elim (Bool-cases (is_blank (strip name))) [
          | inl no_name ↦ rw no_name (products-Fit upper vendor entries)
          | inr some_name ↦ rw some_name (
              Whenever-skip (text_at (codes "ecosystem") (or_dict pkg)) _ _ (λ ecosystem.
                Whenever->>= (versions_of upper entry (strip ecosystem)) _ _ _
                  (versions_of-fits upper entry (strip ecosystem))
                  (λ vs h.
                    Whenever->>= (products upper vendor entries) _ _ _
                      (products-Fit upper vendor entries)
                      (λ rest k. ground (
                        arith,
                        h,
                        k,
                        fits-truncate 512 vendor,
                        fits-truncate 2048 (strip name),
                        default_status_of-fits vs,
                      )))))
        ]))

credit_entries-Fit :
    (upper : Text → Text) (credits : List Json)
    → Whenever (credit_entries upper credits) (Fit (λ (c : Credit). fits 4096 c.value))
unfolding credit_entries
credit_entries-Fit upper [] = refl
credit_entries-Fit upper (credit ∷ credits) =
    Whenever-skip (text_at (codes "name") (or_dict credit)) _ _ (λ name.
      elim (Bool-cases (is_blank (strip name))) [
        | inl no_name ↦ rw no_name (credit_entries-Fit upper credits)
        | inr some_name ↦ rw some_name (
            Whenever-skip (text_at (codes "type") (or_dict credit)) _ _ (λ kind.
              Whenever->>= (credit_entries upper credits) _ _ _ (credit_entries-Fit upper credits)
                (λ rest k. ground (arith, k, fits-truncate 4096 (strip name)))))
      ])

described-Fit :
    (upper : Text → Text) (name_for : Text → Option Text) (ids : List Text)
    → Fit (λ (p : Problem). fits 4096 p.description) (described upper name_for ids)
described-Fit upper name_for [] = refl
described-Fit upper name_for (id ∷ ids) =
    ground
      (arith, described-Fit upper name_for ids, fits-truncate 4096 (or_id upper id (name_for id)))

-- The limits of a published record.
pub record Conforms (r : Published) : Type 0 where
  pub title_fits : fits 256 r.title ≡ true
  pub description_fits : fits 4096 r.description ≡ true
  pub affected_fit : Fit product_fits r.affected
  pub some_affected : is_empty r.affected ≡ false
  pub some_references : is_empty r.references ≡ false
  pub references_distinct : is_distinct same_scalar r.references ≡ true
  pub problems_fit : Fit (λ (p : Problem). fits 4096 p.description) r.problem_types
  pub metrics_distinct : is_distinct same_metric r.metrics ≡ true
  pub credits_fit : Fit (λ (c : Credit). fits 4096 c.value) r.credits
  pub credits_distinct : is_distinct same_credit r.credits ≡ true

affected_of-Fit :
    (upper : Text → Text) (vendor : Text) (value : Json)
    → Whenever (affected_of upper vendor value) (Fit product_fits)
unfolding affected_of
affected_of-Fit upper vendor value =
    Whenever-skip (elements (or_list value)) _ _ (λ entries. products-Fit upper vendor entries)

references_of-distinct :
    (value : Json) → Whenever (references_of value) (λ refs. is_distinct same_scalar refs ≡ true)
unfolding references_of
references_of-distinct value = Whenever-skip (elements (or_list value)) _ _ (λ refs.
    Whenever-skip (urls refs) _ _ (λ found. first_of_each-is_distinct same_scalar [] found))

credits_of-Fit :
    (upper : Text → Text) (value : Json)
    → Whenever
        (credits_of upper value)
        (λ cs. Fit (λ (c : Credit). fits 4096 c.value) cs × (is_distinct same_credit cs ≡ true))
unfolding credits_of
credits_of-Fit upper value = Whenever-skip (elements (or_list value)) _ _ (λ credits.
    Whenever->>= (credit_entries upper credits) _ _ _ (credit_entries-Fit upper credits)
      (λ entries h. (
        first_of_each-every same_credit (λ c. fits 4096 c.value) [] entries h,
        first_of_each-is_distinct same_credit [] entries,
      )))

problem_types_of-Fit :
    (upper : Text → Text) (name_for : Text → Option Text) (value : Json)
    → Whenever
        (problem_types_of upper name_for value)
        (Fit (λ (p : Problem). fits 4096 p.description))
unfolding problem_types_of
problem_types_of-Fit upper name_for value =
    Whenever-skip (elements (or_list value)) _ _
      (λ ids. described-Fit upper name_for (first_of_each text_eq [] (cwes upper ids)))

metrics_of-distinct :
    (cvss : Cvss) (upper : Text → Text) (value : Json)
    → Whenever (metrics_of cvss upper value) (λ ms. is_distinct same_metric ms ≡ true)
unfolding metrics_of
metrics_of-distinct cvss upper value = Whenever-skip (elements (or_list value)) _ _ (λ sevs.
    Whenever-skip (metric_entries cvss upper sevs) _ _
      (λ found. first_of_each-is_distinct same_metric [] found))

module _ (is_decimal : ℕ → Bool) (upper : Text → Text) (name_for : Text → Option Text)
    (cvss : Cvss) where
  -- A published record that is built keeps the limits of the format: a title of at most 256
  -- characters, a description, problem types and credits of at most 4096; at least one affected
  -- product, of at most 2048 characters, with a vendor of at most 512 and versions of at most 1024,
  -- none of them twice, that is "unaffected" by default only where every range has a version type
  -- with an order; at least one reference, none twice; no metric twice and no credit twice.
  pub build_cve-Conforms :
      (p : Pinned) (args : Arguments)
      → Whenever (build_cve is_decimal upper name_for cvss p args) Conforms
  unfolding build_cve description_of
  build_cve-Conforms p args =
      Whenever-skip (require_cve_id_and_assigner is_decimal p.assigned_cve_id args.assigner_org_id)
        _ _
        (λ ids.
          Whenever->>= (affected_of upper (vendor_of p) p.affected) _ _ _
            (affected_of-Fit upper (vendor_of p) p.affected)
            (λ products ap. Whenever-check (not (is_empty products)) _ _ _ (λ some_products.
              Whenever->>= (references_of p.references) _ _ _ (references_of-distinct p.references)
                (λ refs dr. Whenever-check (not (is_empty refs)) _ _ _ (λ some_refs.
                  Whenever->>= (problem_types_of upper name_for p.cwe_ids) _ _ _
                    (problem_types_of-Fit upper name_for p.cwe_ids)
                    (λ problems fp.
                      Whenever->>= (metrics_of cvss upper p.severity) _ _ _
                        (metrics_of-distinct cvss upper p.severity)
                        (λ ms dm.
                          Whenever->>= (credits_of upper p.credits) _ _ _
                            (credits_of-Fit upper p.credits)
                            (λ cs c. record {
                              title_fits = fits-truncate 256 _;
                              description_fits = fits-truncate 4096 _;
                              affected_fit = ap;
                              some_affected = ground (arith, some_products);
                              some_references = ground (arith, some_refs);
                              references_distinct = dr;
                              problems_fit = fp;
                              metrics_distinct = dm;
                              credits_fit = c.0;
                              credits_distinct = c.1;
                            }))))))))
