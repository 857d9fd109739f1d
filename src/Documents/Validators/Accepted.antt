-- ===== src/Documents/Validators/Accepted.antt =====
-- What the validators accept, the builder of CVE records can read (advisories/validators.py,
-- publication/cve.py).
use advisoryhub.Prelude.{
  ◌≡◌, ◌∙◌, refl, ap, Bool, true, false, ◌&&◌, List, [], ◌∷◌, Text, codes, is_blank, arith,
}
use advisoryhub.Documents.{Outcome, done, Gives, Gives->>=, check-done, seq-done}
use advisoryhub.Documents.Json.{
  Json, items_of, null, boolean, number, string, array, object, items, no_items, item, Fields,
  no_fields, field, list_at, text_at, elements, get, or_dict, or_list, or_text, is_truthy, is_text,
  is_list, text_of,
}
use advisoryhub.Documents.Lists.{first_of_each}
use advisoryhub.Documents.Validators.{
  value_at, elements_of, each, list_of, validate_reference, validate_references,
}
use advisoryhub.Documents.Cve.Parts.{urls, references_of, same_scalar}
use advisoryhub.Documents.Cve.Build.{is_empty}

pub each-done :
    (f : Json → Outcome (Unit {0})) (j : Json) (js : List Json)
    → each f (j ∷ js) ≡ done tt
    → (f j ≡ done tt) × (each f js ≡ done tt)
unfolding each
each-done f j js h = let (u, a, b) = seq-done (f j) (each f js) tt h in (a, b)

pub elements-list : (v : Json) → is_list v ≡ true → elements v ≡ done (elements_of v)
elements-list (array is) h = refl
elements-list null h = ground (arith, h)
elements-list (boolean b) h = ground (arith, h)
elements-list (number n) h = ground (arith, h)
elements-list (string s) h = ground (arith, h)
elements-list (object fs) h = ground (arith, h)

visible_text :
    (v : Json)
    → is_text v && is_truthy v ≡ true
    → (s : Text) × (v ≡ string s) × (is_blank s ≡ false)
visible_text (string s) h = (s, refl, ground (arith, h))
visible_text null h = ground (arith, h)
visible_text (boolean b) h = ground (arith, h)
visible_text (number n) h = ground (arith, h)
visible_text (array is) h = ground (arith, h)
visible_text (object fs) h = ground (arith, h)

-- An accepted reference has a url that is a text.
reference_url :
    (url_valid : Text → Bool) (ref : Json)
    → validate_reference url_valid ref ≡ done tt
    → (s : Text) × (get (codes "url") (or_dict ref) ≡ done (string s)) × (is_blank s ≡ false)
unfolding validate_reference
reference_url url_valid (object no_fields) h = ground (arith, h)
reference_url url_valid (object (field k v fs)) h =
    let url = value_at (codes "url") (object (field k v fs)) in
    let (s, e, visible) = visible_text url (check-done _ _ _ tt h).0 in (s, ap done e, visible)
reference_url url_valid null h = ground (arith, h)
reference_url url_valid (boolean b) h = ground (arith, h)
reference_url url_valid (number n) h = ground (arith, h)
reference_url url_valid (string s) h = ground (arith, h)
reference_url url_valid (array is) h = ground (arith, h)

urls-gives :
    (url_valid : Text → Bool) (refs : List Json)
    → each (validate_reference url_valid) refs ≡ done tt
    → Gives (urls refs) (λ us. is_empty us ≡ is_empty refs)
unfolding urls
urls-gives url_valid [] h = refl
urls-gives url_valid (ref ∷ refs) h =
    let (a, b) = each-done (validate_reference url_valid) ref refs h in
    let (s, e, visible) = reference_url url_valid ref a in
    rw e (rw visible (Gives->>= (urls refs) _ _ _ (urls-gives url_valid refs b) (λ us _. refl)))

first_of_each-some :
    (us : List Json) → is_empty us ≡ false → is_empty (first_of_each same_scalar [] us) ≡ false
unfolding first_of_each
first_of_each-some [] h = h
first_of_each-some (u ∷ us) h = refl

-- References that are accepted, and not none, are written to the record.
pub references_of-gives :
    (url_valid : Text → Bool) (value : Json)
    → validate_references url_valid value ≡ done tt
    → is_truthy value ≡ true
    → Gives (references_of value) (λ refs. is_empty refs ≡ false)
unfolding validate_references references_of
references_of-gives url_valid (array (item j js)) h t =
    Gives->>= (urls (j ∷ items js)) _ _ _ (urls-gives url_valid (j ∷ items js) h)
      (λ us e. first_of_each-some us e)
references_of-gives url_valid (array no_items) h t = ground (arith, t)
references_of-gives url_valid null h t = ground (arith, t)
references_of-gives url_valid (boolean b) h t = ground (arith, h)
references_of-gives url_valid (number n) h t = ground (arith, h)
references_of-gives url_valid (string s) h t = ground (arith, h)
references_of-gives url_valid (object fs) h t = ground (arith, h)

pub text_at-text :
    (k : Text) (fs : Fields)
    → is_text (value_at k (object fs)) ≡ true
    → (s : Text) × (value_at k (object fs) ≡ string s) × (text_at k (object fs) ≡ done s)
text_at-text k fs h = go (value_at k (object fs)) h
  where
    go :
        (v : Json) → is_text v ≡ true → (s : Text) × (v ≡ string s) × (text_of (or_text v) ≡ done s)
    go (string []) h = ([], refl, refl)
    go (string (c ∷ s)) h = (c ∷ s, refl, refl)
    go null h = ground (arith, h)
    go (boolean b) h = ground (arith, h)
    go (number n) h = ground (arith, h)
    go (array is) h = ground (arith, h)
    go (object fs) h = ground (arith, h)

pub list_at-list :
    (k : Text) (fs : Fields)
    → is_list (or_list (value_at k (object fs))) ≡ true
    → list_at k (object fs) ≡ done (elements_of (or_list (value_at k (object fs))))
list_at-list k fs h = elements-list (or_list (value_at k (object fs))) h

items-items_of : (js : List Json) → items (items_of js) ≡ js
items-items_of [] = refl
items-items_of (j ∷ js) = ap (λ is. j ∷ is) (items-items_of js)

-- A list whose elements pass is accepted.
pub accepts :
    (f : Json → Outcome (Unit {0})) (js : List Json)
    → each f js ≡ done tt
    → list_of f (array (items_of js)) ≡ done tt
accepts f js h = ap (each f) (items-items_of js) ∙ h

pub each-cons :
    (f : Json → Outcome (Unit {0})) (j : Json) (js : List Json)
    → f j ≡ done tt
    → each f js ≡ done tt
    → each f (j ∷ js) ≡ done tt
unfolding each
each-cons f j js a b = rw a b

pub each-none : (f : Json → Outcome (Unit {0})) → each f [] ≡ done tt
unfolding each
each-none f = refl
