-- ===== src/Ghsa/Links/Valid.antt =====
-- The references and the credits that are made of a GHSA payload pass the validators, which the
-- import itself does not call (ghsa/translator.py, advisories/validators.py).
use advisoryhub.Prelude.{
  ◌≡◌, refl, Bool, true, false, not, ◌&&◌, Option, none, some, List, [], ◌∷◌, map, Text, codes,
  is_blank, strip, text_eq, arith, Bool-cases, inl, inr, if◌then◌else◌,
}
use advisoryhub.Documents.{Outcome, done, Whenever, Whenever->>=, Whenever-skip, ◌>>=◌}
use advisoryhub.Documents.Json.{
  Json, null, boolean, number, string, array, object, items_of, list_at, text_at, get, or_dict,
  or_else, or_text, text_of, elements, is_truthy,
}
use advisoryhub.Documents.Lists.{
  every, every_mono, is_in, is_distinct, find_text, or_default, first_of_each, first_of_each-every,
  first_of_each-is_distinct,
}
use advisoryhub.Documents.Validators.{
  validate_reference, validate_references, is_safe_reference_url, reference_types, value_at, each,
}
use advisoryhub.Documents.Validators.Accepted.{accepts, each-cons, each-none}
use advisoryhub.Documents.Scores.{validate_credit, validate_credits, credit_types}
use advisoryhub.Ghsa.Links.{
  reference, credit, known_type, is_dropped, kept_references, reference_pairs, translate_references,
  credit_kind, credit_type_map, named_credits, with_named, detailed_credit, plain_credit,
  translate_credits, same_credit,
}

module _ (url_valid : Text → Bool) where
  known-type : (t : Text) → is_in text_eq (known_type t) reference_types ≡ true
  known-type t = elim (Bool-cases (is_in text_eq t reference_types)) [
    | inl known ↦ rw known known
    | inr other ↦ rw other refl
  ]

  reference-valid :
      (kind url : Text)
      → is_in text_eq kind reference_types ≡ true
      → is_blank url ≡ false
      → is_safe_reference_url url_valid (string url) ≡ true
      → validate_reference url_valid (reference kind url) ≡ done tt
  unfolding validate_reference
  reference-valid kind url k visible safe = ground (arith, k, visible, safe)

  kept_references-valid :
      (seen : List Text) (ps : List (Text × Text)) (html_url : Text)
      → each (validate_reference url_valid) (kept_references url_valid seen ps html_url) ≡ done tt
  unfolding kept_references
  kept_references-valid seen [] html_url = elim (Bool-cases (is_dropped url_valid seen html_url)) [
    | inl dropped ↦ rw dropped (each-none (validate_reference url_valid))
    | inr kept ↦ rw kept (
        each-cons (validate_reference url_valid) (reference (codes "ADVISORY") html_url) []
          (reference-valid (codes "ADVISORY") html_url refl (ground (arith, kept))
            (ground (arith, kept)))
          (each-none (validate_reference url_valid)))
  ]
  kept_references-valid seen (p ∷ ps) html_url = elim (Bool-cases (is_dropped url_valid seen p.0)) [
    | inl dropped ↦ rw dropped (kept_references-valid seen ps html_url)
    | inr kept ↦ rw kept (
        each-cons (validate_reference url_valid) (reference (known_type p.1) p.0) _
          (reference-valid (known_type p.1) p.0 (known-type p.1) (ground (arith, kept))
            (ground (arith, kept)))
          (kept_references-valid (p.0 ∷ seen) ps html_url))
  ]

-- The URL that a reference names.
abbrev pub url_text : Json → Text
url_text ref = elim (value_at (codes "url") ref) [ string s ↦ s | _ ↦ [] ]

abbrev pub same_url : Json → Json → Bool
same_url a b = text_eq (url_text a) (url_text b)

abbrev is_new : List Text → Json → Bool
is_new seen ref = not (is_in text_eq (url_text ref) seen)

module _ (url_valid : Text → Bool) where
  kept_references-new :
      (seen : List Text) (ps : List (Text × Text)) (html_url : Text)
      → every (is_new seen) (kept_references url_valid seen ps html_url) ≡ true
  unfolding kept_references
  kept_references-new seen [] html_url = ground arith
  kept_references-new seen (p ∷ ps) html_url = elim (Bool-cases (is_dropped url_valid seen p.0)) [
    | inl dropped ↦ rw dropped (kept_references-new seen ps html_url)
    | inr kept ↦ rw kept (
        ground (
          arith,
          kept,
          every_mono (is_new (p.0 ∷ seen)) (is_new seen)
              (kept_references url_valid (p.0 ∷ seen) ps html_url) (λ y e. ground (arith, e))
              (kept_references-new (p.0 ∷ seen) ps html_url),
        ))
  ]

  kept_references-distinct :
      (seen : List Text) (ps : List (Text × Text)) (html_url : Text)
      → is_distinct same_url (kept_references url_valid seen ps html_url) ≡ true
  unfolding kept_references
  kept_references-distinct seen [] html_url = ground arith
  kept_references-distinct seen (p ∷ ps) html_url =
      elim (Bool-cases (is_dropped url_valid seen p.0)) [
        | inl dropped ↦ rw dropped (kept_references-distinct seen ps html_url)
        | inr kept ↦ rw kept (
            ground (
              arith,
              kept_references-distinct (p.0 ∷ seen) ps html_url,
              every_mono (is_new (p.0 ∷ seen))
                  (λ y. not (same_url (reference (known_type p.1) p.0) y))
                  (kept_references url_valid (p.0 ∷ seen) ps html_url) (λ y e. ground (arith, e))
                  (kept_references-new (p.0 ∷ seen) ps html_url),
            ))
      ]

-- The references that are made of a payload are accepted by the validator, so each is web-safe, and
-- no two have one URL.
pub translate_references-Valid :
    (url_valid : Text → Bool) (upper : Text → Text) (payload : Json)
    → Whenever (translate_references url_valid upper payload) (λ js.
      (validate_references url_valid (array (items_of js)) ≡ done tt)
      × (is_distinct same_url js ≡ true))
unfolding translate_references validate_references
translate_references-Valid url_valid upper payload =
    Whenever-skip (list_at (codes "references") payload) _ _ (λ entries.
      Whenever-skip (reference_pairs upper entries) _ _ (λ pairs.
        Whenever-skip (text_at (codes "html_url") payload) _ _ (λ html_url. (
          accepts (validate_reference url_valid)
              (kept_references url_valid [] pairs (strip html_url))
              (kept_references-valid url_valid [] pairs (strip html_url)),
          kept_references-distinct url_valid [] pairs (strip html_url),
        ))))

-- A type from the table, or a default that is a type, is one that the validator knows.
find_kind :
    (k default : Text) (table : List (Text × Text)) (allowed : List Text)
    → every (λ e. is_in text_eq e.1 allowed) table ≡ true
    → is_in text_eq default allowed ≡ true
    → is_in text_eq (or_default default (find_text k table)) allowed ≡ true
find_kind k default [] allowed h d = d
find_kind k default (e ∷ es) allowed h d = elim (Bool-cases (text_eq e.0 k)) [
  | inl found ↦ rw found (ground (arith, h))
  | inr other ↦ rw other (find_kind k default es allowed (ground (arith, h)) d)
]

is_kind : Text → Bool
is_kind t = is_in text_eq t credit_types

-- A credit with a name and a known type.
abbrev is_credit : Text × Text → Bool
is_credit p = not (is_blank p.0) && is_kind p.1

abbrev may_be_credit : Option (Text × Text) → Bool
may_be_credit none = true
may_be_credit (some p) = is_kind p.1

credit-valid :
    (p : Text × Text)
    → is_blank p.0 ≡ false
    → is_kind p.1 ≡ true
    → validate_credit (credit p) ≡ done tt
unfolding validate_credit is_kind
credit-valid p n k = rw (n, k) refl

credits-valid :
    (ps : List (Text × Text))
    → every is_credit ps ≡ true
    → each validate_credit (map credit ps) ≡ done tt
credits-valid [] h = each-none validate_credit
credits-valid (p ∷ ps) h =
    each-cons validate_credit (credit p) (map credit ps)
      (credit-valid p (ground (arith, h)) (ground (arith, h)))
      (credits-valid ps (ground (arith, h)))

named_credits-valid :
    (read : Json → Outcome (Option (Text × Text))) (entries : List Json)
    → ((j : Json) → Whenever (read j) (λ o. may_be_credit o ≡ true))
    → Whenever (named_credits read entries) (λ ps. every is_credit ps ≡ true)
unfolding named_credits
named_credits-valid read [] h = refl
named_credits-valid read (entry ∷ entries) h =
    Whenever->>= (read entry) _ (λ o. may_be_credit o ≡ true) _ (h entry)
      (λ o typed.
        Whenever->>= (named_credits read entries) _ (λ ps. every is_credit ps ≡ true) _
          (named_credits-valid read entries h) (λ rest good. added o rest typed good))
  where
    added :
        (o : Option (Text × Text)) (rest : List (Text × Text))
        → may_be_credit o ≡ true
        → every is_credit rest ≡ true
        → every is_credit (with_named o rest) ≡ true
    added none rest typed good = good
    added (some p) rest typed good = ground (arith, typed, good)

module _ (lower : Text → Text) where
  credit_kind-known :
      (default t : Text) → is_kind default ≡ true → is_kind (credit_kind lower default t) ≡ true
  unfolding credit_kind is_kind
  credit_kind-known default t d = find_kind (lower t) default credit_type_map credit_types refl d

  detailed_credit-typed :
      (j : Json) → Whenever (detailed_credit lower j) (λ o. may_be_credit o ≡ true)
  unfolding detailed_credit is_kind
  detailed_credit-typed (object fs) =
      Whenever-skip (get (codes "login") (or_dict (value_at (codes "user") (object fs)))) _ _
        (λ login.
          Whenever-skip (text_of (or_text (or_else login (value_at (codes "login") (object fs))))) _
            _
            (λ name.
              Whenever-skip (text_of (or_text (value_at (codes "type") (object fs)))) _ _
                (λ t. credit_kind-known (codes "OTHER") t refl)))
  detailed_credit-typed null = refl
  detailed_credit-typed (boolean b) = refl
  detailed_credit-typed (number n) = refl
  detailed_credit-typed (string s) = refl
  detailed_credit-typed (array is) = refl

  plain_credit-typed : (j : Json) → Whenever (plain_credit lower j) (λ o. may_be_credit o ≡ true)
  unfolding plain_credit is_kind
  plain_credit-typed (object fs) =
      Whenever-skip
        (text_of (
          or_text
            (or_else (value_at (codes "login") (object fs)) (value_at (codes "name") (object fs)))))
        _ _
        (λ name.
          Whenever-skip (text_of (or_text (value_at (codes "type") (object fs)))) _ _
            (λ t. credit_kind-known (codes "REPORTER") t refl))
  plain_credit-typed (string s) = refl
  plain_credit-typed null = refl
  plain_credit-typed (boolean b) = refl
  plain_credit-typed (number n) = refl
  plain_credit-typed (array is) = refl

  -- The credits that are made of a payload are accepted by the validator, and none is there twice.
  pub translate_credits-Valid :
      (payload : Json)
      → Whenever (translate_credits lower payload) (λ ps.
        (validate_credits (array (items_of (map credit ps))) ≡ done tt)
        × (is_distinct same_credit ps ≡ true))
  unfolding translate_credits validate_credits
  translate_credits-Valid payload =
      Whenever-skip (get (codes "credits_detailed") payload) _ _ (λ detailed.
        Whenever->>=
          (if is_truthy detailed
            then elements detailed >>= (λ entries. named_credits (detailed_credit lower) entries)
            else list_at (codes "credits") payload
              >>= (λ entries. named_credits (plain_credit lower) entries))
          _ (λ ps. every is_credit ps ≡ true) _ (found detailed)
          (λ ps good. (
            accepts validate_credit (map credit (first_of_each same_credit [] ps)) (
                credits-valid (first_of_each same_credit [] ps)
                  (first_of_each-every same_credit is_credit [] ps good)),
            first_of_each-is_distinct same_credit [] ps,
          )))
    where
      found :
          (detailed : Json)
          → Whenever
              (if is_truthy detailed
                then elements detailed
                  >>= (λ entries. named_credits (detailed_credit lower) entries)
                else list_at (codes "credits") payload
                  >>= (λ entries. named_credits (plain_credit lower) entries))
              (λ ps. every is_credit ps ≡ true)
      found detailed = elim (Bool-cases (is_truthy detailed)) [
        | inl some_detail ↦ rw some_detail (
            Whenever-skip (elements detailed) _ _ (λ entries.
              named_credits-valid (detailed_credit lower) entries detailed_credit-typed))
        | inr no_detail ↦ rw no_detail (
            Whenever-skip (list_at (codes "credits") payload) _ _
              (λ entries. named_credits-valid (plain_credit lower) entries plain_credit-typed))
      ]
