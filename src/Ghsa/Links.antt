-- ===== src/Ghsa/Links.antt =====
-- References and credits (ghsa/translator.py, `_translate_references` and `_translate_credits`).
pub mod Valid
use advisoryhub.Prelude.{
  Bool, true, false, not, ◌&&◌, ◌||◌, Option, none, some, List, [], ◌∷◌, Text, codes, is_blank,
  strip, text_eq, if◌then◌else◌,
}
use advisoryhub.Documents.{Outcome, done, ◌>>=◌}
use advisoryhub.Documents.Json.{
  Json, string, array, object, get, or_dict, or_else, or_text, text_of, text_at, list_at, elements,
  is_truthy,
}
use advisoryhub.Documents.Lists.{is_in, find_text, or_default, first_of_each}
use advisoryhub.Documents.Validators.{is_safe_reference_url, reference_types}
use advisoryhub.Ghsa.Versions.{pair}

abbrev pub reference : Text → Text → Json
reference rtype url = pair (codes "type") rtype (codes "url") url

abbrev pub credit : Text × Text → Json
credit key = pair (codes "name") key.0 (codes "type") key.1

-- `(value.get(key) or default)`, as a `str`
abbrev pub text_or : Text → Text → Json → Outcome Text
text_or default k v = do found ← get k v; text_of (or_else found (string default))

abbrev pub known_type : Text → Text
known_type rtype = if is_in text_eq rtype reference_types then rtype else codes "WEB"

-- `upper` is `str.upper`.
module _ (upper : Text → Text) where
  -- The URL and the type that an element of `references` gives, if it is not skipped.
  pub reference_parts : Json → Outcome (Option (Text × Text))
  unfolding strip
  reference_parts (string s) = done (some (strip s, codes "WEB"))
  reference_parts (object fs) = do
    url ← text_at (codes "url") (object fs)
    rtype ← text_or (codes "WEB") (codes "type") (object fs)
    done (some (strip url, upper rtype))
  reference_parts _ = done none

  -- The URLs to look at, in their order.
  pub reference_pairs : List Json → Outcome (List (Text × Text))
  unfolding reference_parts
  reference_pairs [] = done []
  reference_pairs (entry ∷ entries) = do
    one ← reference_parts entry
    rest ← reference_pairs entries
    done (elim one [ none ↦ rest | some p ↦ p ∷ rest ])

-- `url_valid` is Django's `URLValidator`.
module _ (url_valid : Text → Bool) where
  -- `not url or url in seen`, or the scheme is not web-safe
  abbrev pub is_dropped : List Text → Text → Bool
  is_dropped seen url =
      is_blank url || is_in text_eq url seen || not (is_safe_reference_url url_valid (string url))

  -- The advisory's own page, after the loop.
  abbrev pub own_page : List Text → Text → List Json
  own_page seen url = if is_dropped seen url then [] else reference (codes "ADVISORY") url ∷ []

  pub kept_references : List Text → List (Text × Text) → Text → List Json
  kept_references seen [] html_url = own_page seen html_url
  kept_references seen (p ∷ ps) html_url =
      let skip = is_dropped seen p.0 in
      let rest = kept_references (if skip then seen else p.0 ∷ seen) ps html_url in
      if skip then rest else reference (known_type p.1) p.0 ∷ rest

  -- `_translate_references`
  unfoldable pub translate_references : (Text → Text) → Json → Outcome (List Json)
  unfolding reference_pairs kept_references strip
  translate_references upper payload = do
    entries ← list_at (codes "references") payload
    pairs ← reference_pairs upper entries
    html_url ← text_at (codes "html_url") payload
    done (kept_references [] pairs (strip html_url))

-- `_CREDIT_TYPE_MAP`
abbrev pub credit_type_map : List (Text × Text)
credit_type_map =
    (codes "finder", codes "FINDER")
    ∷ (codes "reporter", codes "REPORTER")
    ∷ (codes "analyst", codes "ANALYST")
    ∷ (codes "coordinator", codes "COORDINATOR")
    ∷ (codes "remediation_developer", codes "REMEDIATION_DEVELOPER")
    ∷ (codes "remediation_reviewer", codes "REMEDIATION_REVIEWER")
    ∷ (codes "remediation_verifier", codes "REMEDIATION_VERIFIER")
    ∷ (codes "tool", codes "TOOL")
    ∷ (codes "sponsor", codes "SPONSOR")
    ∷ (codes "other", codes "OTHER")
    ∷ []

abbrev pub same_credit : Text × Text → Text × Text → Bool
same_credit p q = text_eq p.0 q.0 && text_eq p.1 q.1

abbrev pub with_named : Option (Text × Text) → List (Text × Text) → List (Text × Text)
with_named none rest = rest
with_named (some p) rest = if is_blank p.0 then rest else p ∷ rest

pub named_credits :
    (Json → Outcome (Option (Text × Text))) → List Json → Outcome (List (Text × Text))
named_credits read [] = done []
named_credits read (entry ∷ entries) = do
  one ← read entry
  rest ← named_credits read entries
  done (with_named one rest)

-- `lower` is `str.lower`.
module _ (lower : Text → Text) where
  unfoldable pub credit_kind : Text → Text → Text
  credit_kind default t = or_default default (find_text (lower t) credit_type_map)

  -- An element of `credits_detailed`: its name, which may be blank, and its type.
  pub detailed_credit : Json → Outcome (Option (Text × Text))
  unfolding strip credit_kind
  detailed_credit (object fs) = do
    user ← get (codes "user") (object fs)
    login ← get (codes "login") (or_dict user)
    own_login ← get (codes "login") (object fs)
    name ← text_of (or_text (or_else login own_login))
    t ← text_at (codes "type") (object fs)
    done (some (strip name, credit_kind (codes "OTHER") t))
  detailed_credit _ = done none

  -- An element of `credits`.
  pub plain_credit : Json → Outcome (Option (Text × Text))
  unfolding strip credit_kind
  plain_credit (string s) = done (some (strip s, codes "REPORTER"))
  plain_credit (object fs) = do
    login ← get (codes "login") (object fs)
    own_name ← get (codes "name") (object fs)
    name ← text_of (or_text (or_else login own_name))
    t ← text_at (codes "type") (object fs)
    done (some (strip name, credit_kind (codes "REPORTER") t))
  plain_credit _ = done none

  -- `_translate_credits`: the detailed list if there is one
  unfoldable pub translate_credits : Json → Outcome (List (Text × Text))
  unfolding named_credits detailed_credit plain_credit first_of_each
  translate_credits payload = do
    detailed ← get (codes "credits_detailed") payload
    found ←
        (if is_truthy detailed
          then elements detailed >>= (λ entries. named_credits detailed_credit entries)
          else list_at (codes "credits") payload
            >>= (λ entries. named_credits plain_credit entries))
    done (first_of_each same_credit [] found)
