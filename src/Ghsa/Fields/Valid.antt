-- ===== src/Ghsa/Fields/Valid.antt =====
-- The severity and the aliases that are made of a GHSA payload pass the validators, which the
-- import itself does not call (ghsa/translator.py, advisories/validators.py).
use advisoryhub.Prelude.{
  ℕ, ◌≡◌, refl, Bool, true, false, not, ◌&&◌, ◌==◌, Option, none, some, List, [], ◌∷◌, map, Text,
  codes, is_blank, strip, text_eq, arith, Bool-cases, inl, inr, if◌then◌else◌, has_text-strip,
  is_blank-strip-text,
}
use advisoryhub.Documents.{Outcome, done, Whenever, Whenever->>=, Whenever-skip, ◌>>=◌}
use advisoryhub.Documents.Json.{
  Json, string, array, items_of, list_at, text_at, get, or_dict, is_dict,
}
use advisoryhub.Documents.Lists.{
  every, is_in, is_distinct, first_of_each, first_of_each-every, first_of_each-is_distinct,
}
use advisoryhub.Documents.Validators.{validate_aliases, must, text_visible, each}
use advisoryhub.Documents.Validators.Accepted.{accepts, each-cons, each-none}
use advisoryhub.Documents.Scores.{
  validate_severity, validate_severity_entry, severity_types, ubuntu_scores,
}
use advisoryhub.Ghsa.Fields.{
  severity_entry, vector_type, cvss_type, ends_version, band, translate_severity, translate_aliases,
  other_identifiers, is_cve, is_ghsa_id, drop_letters,
}

-- A text from which `strip` leaves something.
abbrev is_alias : Text → Bool
is_alias s = not (is_blank (strip s))

stripped-alias : (s : Text) → is_blank (strip s) ≡ false → is_alias (strip s) ≡ true
stripped-alias s h = ground (arith, is_blank-strip-text (strip s) (has_text-strip s h))

aliases-valid :
    (ss : List Text)
    → every is_alias ss ≡ true
    → each (λ j. must (text_visible j)) (map string ss) ≡ done tt
aliases-valid [] h = each-none (λ j. must (text_visible j))
aliases-valid (s ∷ ss) h =
    each-cons (λ j. must (text_visible j)) (string s) (map string ss) (ground (arith, h))
      (aliases-valid ss (ground (arith, h)))

added :
    (value : Text) (others : List Text)
    → every is_alias others ≡ true
    → every is_alias (if is_blank (strip value) then others else strip value ∷ others) ≡ true
added value others good = elim (Bool-cases (is_blank (strip value))) [
  | inl gone ↦ rw gone good
  | inr left ↦ rw left (ground (arith, stripped-alias value left, good))
]

-- What an identifier adds to the rest.
value_then :
    (cve : Bool) (ident : Json) (rest : Outcome (List Text))
    → Whenever rest (λ ss. every is_alias ss ≡ true)
    → Whenever
        (if cve
          then rest
          else text_at (codes "value") ident >>= (λ value.
            rest
            >>= (λ others. done (if is_blank (strip value) then others else strip value ∷ others))))
        (λ ss. every is_alias ss ≡ true)
value_then true ident rest h = h
value_then false ident rest h = Whenever-skip (text_at (codes "value") ident) _ _ (λ value.
    Whenever->>= rest _ (λ ss. every is_alias ss ≡ true) _ h
      (λ others good. added value others good))

-- A severity entry of a known type, which for Ubuntu's has a score from its list.
score-valid :
    (kind score : Text)
    → is_in text_eq kind severity_types ≡ true
    → is_blank score ≡ false
    → text_eq kind (codes "Ubuntu") ≡ false
    → validate_severity_entry (severity_entry kind score) ≡ done tt
unfolding validate_severity_entry
score-valid kind score k visible other = rw (k, visible, other) refl

band-visible : (s : Text) → is_in text_eq s ubuntu_scores ≡ true → is_blank s ≡ false
band-visible [] h = ground (arith, h)
band-visible (c ∷ s) h = refl

band-valid :
    (s : Text)
    → is_in text_eq s ubuntu_scores ≡ true
    → validate_severity_entry (severity_entry (codes "Ubuntu") s) ≡ done tt
unfolding validate_severity_entry
band-valid s h = rw (band-visible s h, h) refl

-- One entry with a vector, which has one of three types.
vector-valid :
    (is_decimal : ℕ → Bool) (o : Option Text) (vector : Text)
    → is_blank vector ≡ false
    → validate_severity_entry (severity_entry (cvss_type is_decimal o) vector) ≡ done tt
vector-valid is_decimal none vector v = score-valid (codes "CVSS_V3") vector refl v refl
vector-valid is_decimal (some []) vector v = score-valid (codes "CVSS_V3") vector refl v refl
vector-valid is_decimal (some (c ∷ s)) vector v =
    elim (Bool-cases (c == 50 && ends_version is_decimal s)) [
      | inl two ↦ rw two (score-valid (codes "CVSS_V2") vector refl v refl)
      | inr not_two ↦ elim (Bool-cases (c == 52 && ends_version is_decimal s)) [
        | inl four ↦ rw (not_two, four) (score-valid (codes "CVSS_V4") vector refl v refl)
        | inr not_four ↦ rw (not_two, not_four) (score-valid (codes "CVSS_V3") vector refl v refl)
      ]
    ]

module _ (upper : Text → Text) where
  others-aliases :
      (idents : List Json)
      → Whenever (other_identifiers upper idents) (λ ss. every is_alias ss ≡ true)
  unfolding other_identifiers
  others-aliases [] = refl
  others-aliases (ident ∷ idents) = elim (Bool-cases (is_dict ident)) [
    | inr skipped ↦ rw skipped (others-aliases idents)
    | inl dict ↦ rw dict (
        Whenever-skip (is_cve upper ident) _ _
          (λ cve. value_then cve ident (other_identifiers upper idents) (others-aliases idents)))
  ]

  -- The aliases that are made of a payload are accepted by the validator, and none is there twice.
  pub translate_aliases-Valid :
      (payload : Json)
      → Whenever (translate_aliases upper payload) (λ ss.
        (validate_aliases (array (items_of (map string ss))) ≡ done tt)
        × (is_distinct text_eq ss ≡ true))
  unfolding translate_aliases validate_aliases
  translate_aliases-Valid payload = Whenever-skip (text_at (codes "ghsa_id") payload) _ _ (λ ghsa.
      Whenever-skip (list_at (codes "identifiers") payload) _ _ (λ idents.
        Whenever->>= (other_identifiers upper idents) _ (λ ss. every is_alias ss ≡ true) _
          (others-aliases idents)
          (λ others good.
            listed
              (if not (is_blank (strip ghsa)) && is_ghsa_id (strip ghsa)
                then strip ghsa ∷ others
                else others)
              (own ghsa others good))))
    where
      own :
          (ghsa : Text) (others : List Text)
          → every is_alias others ≡ true
          → every is_alias (
              if not (is_blank (strip ghsa)) && is_ghsa_id (strip ghsa)
              then strip ghsa ∷ others
              else others)
            ≡ true
      own ghsa others good =
          elim (Bool-cases (not (is_blank (strip ghsa)) && is_ghsa_id (strip ghsa))) [
            | inr not_own ↦ rw not_own good
            | inl yes_own ↦
                rw yes_own (ground (arith, stripped-alias ghsa (ground (arith, yes_own)), good))
          ]

      listed :
          (ss : List Text)
          → every is_alias ss ≡ true
          → (validate_aliases (array (items_of (map string (first_of_each text_eq [] ss))))
              ≡ done tt)
            × (is_distinct text_eq (first_of_each text_eq [] ss) ≡ true)
      listed ss good = (
        accepts (λ j. must (text_visible j)) (map string (first_of_each text_eq [] ss))
            (aliases-valid (first_of_each text_eq [] ss)
              (first_of_each-every text_eq is_alias [] ss good)),
        first_of_each-is_distinct text_eq [] ss,
      )

module _ (lower : Text → Text) (is_decimal : ℕ → Bool) where
  -- The severity that is made of a payload is accepted by the validator.
  pub translate_severity-Valid :
      (payload : Json)
      → Whenever
          (translate_severity is_decimal lower payload)
          (λ js. validate_severity (array (items_of js)) ≡ done tt)
  unfolding translate_severity validate_severity vector_type band
  translate_severity-Valid payload = Whenever-skip (get (codes "cvss") payload) _ _ (λ cvss.
      Whenever-skip (text_at (codes "vector_string") (or_dict cvss)) _ _ (λ vector.
        elim (Bool-cases (is_blank (strip vector))) [
          | inl no_vector ↦ rw no_vector (
              Whenever-skip (text_at (codes "severity") payload) _ _
                (λ s. banded (lower (strip s))))
          | inr visible ↦ rw visible (
              only
                (severity_entry (cvss_type is_decimal (drop_letters (codes "CVSS:") (strip vector)))
                  (strip vector))
                (vector-valid is_decimal (drop_letters (codes "CVSS:") (strip vector))
                  (strip vector) visible))
        ]))
    where
      only :
          (j : Json)
          → validate_severity_entry j ≡ done tt
          → validate_severity (array (items_of (j ∷ []))) ≡ done tt
      only j h =
          accepts validate_severity_entry (j ∷ [])
            (each-cons validate_severity_entry j [] h (each-none validate_severity_entry))

      banded :
          (s : Text)
          → validate_severity (
              array (
                items_of (
                  if is_in text_eq s ubuntu_scores
                  then severity_entry (codes "Ubuntu") s ∷ []
                  else [])))
            ≡ done tt
      banded s = elim (Bool-cases (is_in text_eq s ubuntu_scores)) [
        | inl known ↦ rw known (only (severity_entry (codes "Ubuntu") s) (band-valid s known))
        | inr other ↦
            rw other (accepts validate_severity_entry [] (each-none validate_severity_entry))
      ]
