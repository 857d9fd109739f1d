-- ===== src/Documents/Cve/Limits.antt =====
-- The limits of the CVE record format that the builder keeps (publication/schemas/cve.upstream.json:
-- `maxLength`, `minItems`, `uniqueItems`).
use advisoryhub.Prelude.{
  ℕ, ◌≡◌, refl, Bool, true, false, ◌&&◌, leb, Option, none, some, List, [], ◌∷◌, ◌++◌, Text, codes,
  arith,
}
use advisoryhub.Documents.{Whenever, Whenever->>=, Whenever-skip}
use advisoryhub.Documents.Json.{Json, list_at, text_at}
use advisoryhub.Documents.Lists.{
  length, truncate, length-truncate, every, every-append, is_distinct, first_of_each-is_distinct,
  first_of_each-every, or_default,
}
use advisoryhub.Documents.Cve.{
  Bound, single, less_than, less_than_or_equal, VersionEntry, Event, introduced, fixed,
  last_affected, ignored, windows, versions_for_range, listed_versions, range_versions, versions_of,
  same_entry, stripped, read_events, version_type,
}
use advisoryhub.Documents.Cve.Parts.{
  Product, DefaultStatus, unaffected, affected, is_orderable, ranges_orderable, default_status_of,
}

-- At most `n` characters.
pub fits : ℕ → Text → Bool
fits n s = leb (length s) n

abbrev pub bound_fits : Bound → Bool
bound_fits single = true
bound_fits (less_than t) = fits 1024 t
bound_fits (less_than_or_equal t) = fits 1024 t

abbrev pub entry_fits : VersionEntry → Bool
entry_fits v = fits 1024 v.version && bound_fits v.bound

pub fits-truncate : (n : ℕ) (s : Text) → fits n (truncate n s) ≡ true
unfolding fits
fits-truncate n s = ground (arith, length-truncate n s)

star_fits : fits 1024 (42 ∷ []) ≡ true
unfolding fits
star_fits = refl

windows-fits :
    (vt : Text) (open_from : Option Text) (es : List Event)
    → every entry_fits (windows vt open_from es) ≡ true
unfolding windows
windows-fits vt none [] = refl
windows-fits vt (some v) [] = ground (arith, fits-truncate 1024 v, star_fits)
windows-fits vt open_from (introduced v ∷ es) = windows-fits vt (some v) es
windows-fits vt open_from (fixed v ∷ es) = ground (
  arith,
  fits-truncate 1024 (or_default (48 ∷ []) open_from),
  fits-truncate 1024 v,
  windows-fits vt none es,
)
windows-fits vt open_from (last_affected v ∷ es) = ground (
  arith,
  fits-truncate 1024 (or_default (48 ∷ []) open_from),
  fits-truncate 1024 v,
  windows-fits vt none es,
)
windows-fits vt open_from (ignored ∷ es) = windows-fits vt open_from es

listed-fits : (vs : List Json) → every entry_fits (listed_versions vs) ≡ true
unfolding listed_versions
listed-fits [] = refl
listed-fits (v ∷ vs) = ground (arith, fits-truncate 1024 (stripped v), listed-fits vs)

module _ (upper : Text → Text) where
  range_versions-fits :
      (ecosystem : Text) (rngs : List Json)
      → Whenever (range_versions upper ecosystem rngs) (λ vs. every entry_fits vs ≡ true)
  unfolding range_versions versions_for_range
  range_versions-fits ecosystem [] = refl
  range_versions-fits ecosystem (rng ∷ rngs) = Whenever-skip (text_at (codes "type") rng) _ _ (λ t.
      Whenever->>= (versions_for_range rng (version_type upper t ecosystem)) _
        (λ vs. every entry_fits vs ≡ true) _
        (Whenever-skip (list_at (codes "events") rng) _ _
          (λ es. windows-fits (version_type upper t ecosystem) none (read_events es)))
        (λ entries h.
          Whenever->>= (range_versions upper ecosystem rngs) _ _ _
            (range_versions-fits ecosystem rngs)
            (λ rest k. every-append entry_fits entries rest h k)))

  pub versions_of-fits :
      (entry : Json) (ecosystem : Text)
      → Whenever
          (versions_of upper entry ecosystem)
          (λ vs. (every entry_fits vs ≡ true) × (is_distinct same_entry vs ≡ true))
  unfolding versions_of
  versions_of-fits entry ecosystem = Whenever-skip (list_at (codes "ranges") entry) _ _ (λ rs.
      Whenever->>= (range_versions upper ecosystem rs) _ _ _ (range_versions-fits ecosystem rs)
        (λ es h. Whenever-skip (list_at (codes "versions") entry) _ _ (λ vs. (
          first_of_each-every same_entry entry_fits [] (es ++ listed_versions vs)
              (every-append entry_fits es (listed_versions vs) h (listed-fits vs)),
          first_of_each-is_distinct same_entry [] (es ++ listed_versions vs),
        ))))

-- Every entry that is a range has a version type with an order.
abbrev pub is_placed : VersionEntry → Bool
is_placed v = elim v.bound [
  | single ↦ true
  | less_than t ↦ is_orderable v.version_type
  | less_than_or_equal t ↦ is_orderable v.version_type
]

-- What a default status says of the entries: "unaffected" is said only where a consumer can place
-- every version in each range, and "affected" only where there is no entry.
abbrev pub status_fits : Option DefaultStatus → List VersionEntry → Bool
status_fits (some unaffected) vs = every is_placed vs
status_fits (some affected) [] = true
status_fits (some affected) (v ∷ vs) = false
status_fits none vs = true

abbrev pub product_fits : Product → Bool
product_fits p =
    fits 512 p.vendor
    && fits 2048 p.product
    && every entry_fits p.versions
    && is_distinct same_entry p.versions
    && status_fits p.default_status p.versions

ranges_orderable-placed : (vs : List VersionEntry) → ranges_orderable vs ≡ every is_placed vs
unfolding ranges_orderable
ranges_orderable-placed [] = refl
ranges_orderable-placed (v ∷ vs) = ground (arith, ranges_orderable-placed vs)

pub default_status_of-fits : (vs : List VersionEntry) → status_fits (default_status_of vs) vs ≡ true
default_status_of-fits [] = refl
default_status_of-fits (v ∷ vs) = ground (arith, ranges_orderable-placed (v ∷ vs))
