-- ===== src/Ghsa/Accepted.antt =====
-- What is made of a GHSA payload passes the validators of the advisory's fields, which the import
-- itself does not call (ghsa/translator.py, advisories/validators.py).
use advisoryhub.Prelude.{ℕ, ◌≡◌, Bool, true, map, Text, codes, text_eq}
use advisoryhub.Documents.{done, Whenever, Whenever->>=, Whenever-skip}
use advisoryhub.Documents.Json.{Json, string, array, items_of, get, or_text, text_at}
use advisoryhub.Documents.Lists.{is_distinct}
use advisoryhub.Documents.Validators.{validate_references, validate_aliases}
use advisoryhub.Documents.Scores.{validate_credits, validate_severity}
use advisoryhub.Ghsa.Packages.{translate_affected}
use advisoryhub.Ghsa.Links.{credit, same_credit, translate_references, translate_credits}
use advisoryhub.Ghsa.Links.Valid.{same_url, translate_references-Valid, translate_credits-Valid}
use advisoryhub.Ghsa.Fields.{translate_severity, translate_cwes, translate_aliases}
use advisoryhub.Ghsa.Fields.Valid.{translate_severity-Valid, translate_aliases-Valid}
use advisoryhub.Ghsa.Apply.{Translated, translate, trimmed_slice}

-- The lists that the validators of references, severities, aliases and credits accept, without
-- duplicates.
pub record Valid (url_valid : Text → Bool) (t : Translated) : Type 0 where
  pub references : validate_references url_valid (array (items_of t.references)) ≡ done tt
  pub severity : validate_severity (array (items_of t.severity)) ≡ done tt
  pub aliases : validate_aliases (array (items_of (map string t.aliases))) ≡ done tt
  pub credits : validate_credits (array (items_of (map credit t.credits))) ≡ done tt
  pub one_url_each : is_distinct same_url t.references ≡ true
  pub no_alias_twice : is_distinct text_eq t.aliases ≡ true
  pub no_credit_twice : is_distinct same_credit t.credits ≡ true

-- Whatever GitHub sends, if it is translated at all, the references, the severity, the aliases and
-- the credits that are made of it are accepted by their validators, so every reference is web-safe;
-- no two references have one URL, and no alias and no credit is there twice.
pub translate-Valid :
    (upper lower : Text → Text) (is_decimal : ℕ → Bool) (url_valid : Text → Bool) (payload : Json)
    → Whenever (translate upper lower is_decimal url_valid payload) (Valid url_valid)
unfolding translate
translate-Valid upper lower is_decimal url_valid payload =
    Whenever-skip (get (codes "summary") payload) _ _ (λ given.
      Whenever-skip (trimmed_slice (or_text given)) _ _ (λ title.
        Whenever-skip (text_at (codes "description") payload) _ _ (λ description.
          Whenever->>= (translate_severity is_decimal lower payload) _ _ _
            (translate_severity-Valid lower is_decimal payload)
            (λ scores severity. Whenever-skip (translate_cwes upper payload) _ _ (λ cwes.
              Whenever->>= (translate_aliases upper payload) _ _ _
                (translate_aliases-Valid upper payload)
                (λ names aliases.
                  Whenever->>= (translate_references url_valid upper payload) _ _ _
                    (translate_references-Valid url_valid upper payload)
                    (λ links references.
                      Whenever-skip (translate_affected lower payload) _ _ (λ entries.
                        Whenever->>= (translate_credits lower payload) _ _ _
                          (translate_credits-Valid lower payload)
                          (λ thanks credits. record {
                            references = references.0;
                            severity = severity;
                            aliases = aliases.0;
                            credits = credits.0;
                            one_url_each = references.1;
                            no_alias_twice = aliases.1;
                            no_credit_twice = credits.1;
                          })))))))))
