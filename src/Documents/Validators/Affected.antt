-- ===== src/Documents/Validators/Affected.antt =====
-- An accepted `affected` block is written to a CVE record (advisories/validators.py,
-- publication/cve.py).
use advisoryhub.Prelude.{
  ◌≡◌, refl, Bool, true, false, not, ◌&&◌, ◌||◌, List, [], ◌∷◌, Text, codes, is_blank, strip, arith,
  Bool-cases, inl, inr, exists_row,
}
use advisoryhub.Documents.{done, Fault, Gives, Gives->>=, check-done}
use advisoryhub.Documents.Json.{
  Json, null, boolean, number, string, array, object, items, no_items, item, no_fields, field,
  Fields, text_at, or_dict, or_list, is_truthy, is_text, is_list, is_dict,
}
use advisoryhub.Documents.Lists.{every}
use advisoryhub.Documents.Validators.{
  value_at, elements_of, each, validate_range, validate_entry, validate_affected, is_valid_purl,
}
use advisoryhub.Documents.Validators.Accepted.{each-done, text_at-text, list_at-list}
use advisoryhub.Documents.Cve.{range_versions, versions_for_range, versions_of, version_type}
use advisoryhub.Documents.Cve.Parts.{products, affected_of}
use advisoryhub.Documents.Ecosystems.{is_valid_ecosystem}
use advisoryhub.Documents.Cve.Build.{is_empty}

abbrev pub Any : {A : Type 0} → A → Type 0
Any a = Unit

-- What the validators do not ask for: the type of a range is a text,
abbrev pub range_has_text : Json → Bool
range_has_text r = is_text (value_at (codes "type") r)

-- and so is the name of a package.
abbrev pub entry_has_texts : Json → Bool
entry_has_texts entry =
    is_text (value_at (codes "name") (value_at (codes "package") entry))
    && every range_has_text (elements_of (or_list (value_at (codes "ranges") entry)))

-- An entry whose package has a name that is not white space.
abbrev pub is_named : Json → Bool
is_named (string s) = not (is_blank (strip s))
is_named _ = false

abbrev pub entry_is_named : Json → Bool
entry_is_named entry = is_named (value_at (codes "name") (value_at (codes "package") entry))

range-gives :
    (r : Json) (vt : Text) → validate_range r ≡ done tt → Gives (versions_for_range r vt) Any
unfolding validate_range versions_for_range
range-gives (object fs) vt h =
    let kinded = check-done _ _ _ tt h in
    let listed = check-done _ _ _ tt kinded.1 in rw (list_at-list (codes "events") fs listed.0) tt
range-gives null vt h = ground (arith, h)
range-gives (boolean b) vt h = ground (arith, h)
range-gives (number n) vt h = ground (arith, h)
range-gives (string s) vt h = ground (arith, h)
range-gives (array is) vt h = ground (arith, h)

range_type :
    (r : Json)
    → validate_range r ≡ done tt
    → range_has_text r ≡ true
    → (s : Text) × (value_at (codes "type") r ≡ string s) × (text_at (codes "type") r ≡ done s)
unfolding validate_range
range_type (object fs) h t = text_at-text (codes "type") fs t
range_type null h t = ground (arith, h)
range_type (boolean b) h t = ground (arith, h)
range_type (number n) h t = ground (arith, h)
range_type (string s) h t = ground (arith, h)
range_type (array is) h t = ground (arith, h)

module _ (upper : Text → Text) where
  range_versions-gives :
      (ecosystem : Text) (rs : List Json)
      → each validate_range rs ≡ done tt
      → every range_has_text rs ≡ true
      → Gives (range_versions upper ecosystem rs) Any
  unfolding range_versions
  range_versions-gives ecosystem [] h t = tt
  range_versions-gives ecosystem (r ∷ rs) h t =
      let (one, others) = each-done validate_range r rs h in
      let (s, v, e) = range_type r one (ground (arith, t)) in
      rw e (
        Gives->>= (versions_for_range r (version_type upper s ecosystem)) _ Any _
          (range-gives r (version_type upper s ecosystem) one)
          (λ vs _.
            Gives->>= (range_versions upper ecosystem rs) _ Any _
              (range_versions-gives ecosystem rs others (ground (arith, t))) (λ rest _. tt)))

valid_text : (v : Json) → is_valid_ecosystem v ≡ true → is_text v ≡ true
unfolding is_valid_ecosystem
valid_text (string s) h = refl
valid_text null h = ground (arith, h)
valid_text (boolean b) h = ground (arith, h)
valid_text (number n) h = ground (arith, h)
valid_text (array is) h = ground (arith, h)
valid_text (object fs) h = ground (arith, h)

-- What an accepted entry has passed.
entry_facts :
    (entry : Json)
    → validate_entry entry ≡ done tt
    → let pkg = value_at (codes "package") entry in
      let ranges = or_list (value_at (codes "ranges") entry) in
      (is_dict pkg && is_truthy (value_at (codes "name") pkg) ≡ true)
      × (is_valid_ecosystem (value_at (codes "ecosystem") pkg) ≡ true)
      × (is_list ranges && is_list (or_list (value_at (codes "versions") entry)) ≡ true)
      × (each validate_range (elements_of ranges) ≡ done tt)
unfolding validate_entry
entry_facts entry h =
    let pkg = value_at (codes "package") entry in
    let ranges = or_list (value_at (codes "ranges") entry) in
    let versions = or_list (value_at (codes "versions") entry) in
    let purl = value_at (codes "purl") pkg in
    let f = Fault.validation_error in
    let dict = check-done (is_dict entry) f _ tt h in
    let named = check-done (is_dict pkg && is_truthy (value_at (codes "name") pkg)) f _ tt dict.1 in
    let placed = check-done (is_truthy (value_at (codes "ecosystem") pkg)) f _ tt named.1 in
    let valid =
      check-done (is_valid_ecosystem (value_at (codes "ecosystem") pkg)) f _ tt placed.1 in
    let located = check-done (not (is_truthy purl) || is_valid_purl purl) f _ tt valid.1 in
    let listed = check-done (is_list ranges && is_list versions) f _ tt located.1 in
    let some_list = check-done (is_truthy ranges || is_truthy versions) f _ tt listed.1 in
    (named.0, valid.0, listed.0, some_list.1)

-- The texts of an accepted package.
package_lem :
    (pkg : Json)
    → is_dict pkg && is_truthy (value_at (codes "name") pkg) ≡ true
    → is_text (value_at (codes "name") pkg) ≡ true
    → is_text (value_at (codes "ecosystem") pkg) ≡ true
    → (s : Text) × (t : Text) × (value_at (codes "name") pkg ≡ string s)
      × (text_at (codes "name") (or_dict pkg) ≡ done s)
      × (text_at (codes "ecosystem") (or_dict pkg) ≡ done t)
package_lem (object no_fields) h n e = ground (arith, h)
package_lem (object (field k v fs)) h n e =
    let (s, vs, ts) = text_at-text (codes "name") (field k v fs) n in
    let (t, vt, tt') = text_at-text (codes "ecosystem") (field k v fs) e in (s, t, vs, ts, tt')
package_lem null h n e = ground (arith, h)
package_lem (boolean b) h n e = ground (arith, h)
package_lem (number m) h n e = ground (arith, h)
package_lem (string s) h n e = ground (arith, h)
package_lem (array is) h n e = ground (arith, h)

module _ (upper : Text → Text) where
  versions_of-gives :
      (fs : Fields) (ecosystem : Text)
      → is_list (or_list (value_at (codes "ranges") (object fs))) ≡ true
      → is_list (or_list (value_at (codes "versions") (object fs))) ≡ true
      → each validate_range (elements_of (or_list (value_at (codes "ranges") (object fs))))
        ≡ done tt
      → every range_has_text (elements_of (or_list (value_at (codes "ranges") (object fs)))) ≡ true
      → Gives (versions_of upper (object fs) ecosystem) Any
  unfolding versions_of
  versions_of-gives fs ecosystem rl vl h t = rw (list_at-list (codes "ranges") fs rl) (
      Gives->>=
        (range_versions upper ecosystem
          (elements_of (or_list (value_at (codes "ranges") (object fs)))))
        _ Any _
        (range_versions-gives upper ecosystem
          (elements_of (or_list (value_at (codes "ranges") (object fs)))) h t)
        (λ es _. rw (list_at-list (codes "versions") fs vl) tt))

  -- What an accepted entry adds: one product if its package is named, else none.
  entry-gives :
      (vendor : Text) (entry : Json) (entries : List Json)
      → validate_entry entry ≡ done tt
      → entry_has_texts entry ≡ true
      → Gives
          (products upper vendor entries)
          (λ ps. is_empty ps ≡ not (exists_row entry_is_named entries))
      → Gives
          (products upper vendor (entry ∷ entries))
          (λ ps. is_empty ps ≡ not (exists_row entry_is_named (entry ∷ entries)))
  unfolding validate_entry products
  entry-gives vendor (object (field k v fs)) entries h t rest =
      let entry = field k v fs in
      let facts = entry_facts (object entry) h in
      let (s, e, vs, name, ecosystem) =
        package_lem (value_at (codes "package") (object entry)) facts.0 (ground (arith, t)) (
          valid_text (value_at (codes "ecosystem") (value_at (codes "package") (object entry)))
            facts.1) in
      rw (name, vs)
        (elim (Bool-cases (is_blank (strip s))) [
          | inl no_name ↦ rw no_name rest
          | inr some_name ↦
              rw (some_name, ecosystem)
                (Gives->>= (versions_of upper (object entry) (strip e)) _ Any _
                  (versions_of-gives entry (strip e) (ground (arith, facts.2))
                    (ground (arith, facts.2)) facts.3 (ground (arith, t)))
                  (λ es _. Gives->>= (products upper vendor entries) _ _ _ rest (λ ps _. refl)))
        ])
  entry-gives vendor (object no_fields) entries h t rest = ground (arith, h)
  entry-gives vendor null entries h t rest = ground (arith, h)
  entry-gives vendor (boolean b) entries h t rest = ground (arith, h)
  entry-gives vendor (number n) entries h t rest = ground (arith, h)
  entry-gives vendor (string s) entries h t rest = ground (arith, h)
  entry-gives vendor (array is) entries h t rest = ground (arith, h)

  products-gives :
      (vendor : Text) (entries : List Json)
      → each validate_entry entries ≡ done tt
      → every entry_has_texts entries ≡ true
      → Gives
          (products upper vendor entries)
          (λ ps. is_empty ps ≡ not (exists_row entry_is_named entries))
  unfolding products
  products-gives vendor [] h t = refl
  products-gives vendor (entry ∷ entries) h t =
      let (one, others) = each-done validate_entry entry entries h in
      entry-gives vendor entry entries one (ground (arith, t))
        (products-gives vendor entries others (ground (arith, t)))

  -- An accepted block whose names and range types are texts, with an entry whose package's name is
  -- not white space, is written to the record, and some product with it.
  pub affected_of-gives :
      (vendor : Text) (value : Json)
      → validate_affected value ≡ done tt
      → every entry_has_texts (elements_of value) ≡ true
      → exists_row entry_is_named (elements_of value) ≡ true
      → Gives (affected_of upper vendor value) (λ ps. is_empty ps ≡ false)
  unfolding validate_affected affected_of
  affected_of-gives vendor (array (item j js)) h t n =
      rw n at (products-gives vendor (j ∷ items js) h t)
  affected_of-gives vendor (array no_items) h t n = ground (arith, n)
  affected_of-gives vendor null h t n = ground (arith, n)
  affected_of-gives vendor (boolean b) h t n = ground (arith, n)
  affected_of-gives vendor (number m) h t n = ground (arith, n)
  affected_of-gives vendor (string s) h t n = ground (arith, n)
  affected_of-gives vendor (object fs) h t n = ground (arith, n)
