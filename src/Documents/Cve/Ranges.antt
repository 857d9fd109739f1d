-- ===== src/Documents/Cve/Ranges.antt =====
-- The version entries of a range say what its events say (publication/cve.py,
-- `_versions_for_range`).
use advisoryhub.Prelude.{
  ℕ, ◌≤◌, ◌≡◌, sym, ◌∙◌, Bool, true, false, not, ◌&&◌, ◌||◌, leb, ltb, none, some, List, [], ◌∷◌,
  Text, codes, text_eq, arith, if◌then◌else◌,
}
use advisoryhub.Documents.{done, Gives}
use advisoryhub.Documents.Json.{Json, list_at}
use advisoryhub.Documents.Lists.{length, truncate, truncate_short}
use advisoryhub.Documents.Cve.{
  Bound, single, less_than, less_than_or_equal, VersionEntry, Event, introduced, fixed,
  last_affected, ignored, windows, version_limit, versions_for_range, read_events,
}

-- `rank` is the order of a version type.
module _ (rank : Text → ℕ) where
  -- The evaluation that the OSV format defines for a version: an event that the version has
  -- reached, or for `last_affected` passed, sets whether it is affected.
  abbrev pub osv_affected : ℕ → Bool → List Event → Bool
  osv_affected v flag [] = flag
  osv_affected v flag (introduced a ∷ es) =
      osv_affected v (if leb (rank a) v then true else flag) es
  osv_affected v flag (fixed b ∷ es) = osv_affected v (if leb (rank b) v then false else flag) es
  osv_affected v flag (last_affected b ∷ es) =
      osv_affected v (if ltb (rank b) v then false else flag) es
  osv_affected v flag (ignored ∷ es) = osv_affected v flag es

  abbrev below : ℕ → Text → Bound → Bool
  below v start single = leb v (rank start)
  below v start (less_than t) = text_eq t (codes "*") || ltb v (rank t)
  below v start (less_than_or_equal t) = leb v (rank t)

  -- What the CVE format reads in a list of entries: a version is affected if one contains it.
  abbrev pub cve_affected : ℕ → List VersionEntry → Bool
  cve_affected v [] = false
  cve_affected v (e ∷ es) = leb (rank e.version) v && below v e.version e.bound || cve_affected v es

  -- A version that the format can hold.
  abbrev pub is_plain : Text → Bool
  is_plain t = leb (length t) 1024 && not (text_eq t (codes "*"))

  -- From an open window or none, and a rank that the events have reached: they open and close
  -- windows in turn and go up, and no window is empty.
  abbrev pub is_ordered : Bool → ℕ → List Event → Bool
  is_ordered is_open low [] = true
  is_ordered is_open low (introduced a ∷ es) =
      not is_open && is_plain a && leb low (rank a) && is_ordered true (rank a) es
  is_ordered is_open low (fixed b ∷ es) =
      is_open && is_plain b && ltb low (rank b) && is_ordered false (rank b) es
  is_ordered is_open low (last_affected b ∷ es) =
      is_open && is_plain b && leb low (rank b) && is_ordered false (rank b) es
  is_ordered is_open low (ignored ∷ es) = is_ordered is_open low es

  plain-truncate : (t : Text) → is_plain t ≡ true → truncate version_limit t ≡ t
  plain-truncate t h = truncate_short version_limit t (ground (arith, h))

  module _ (vt : Text) (v : ℕ) where
    mutual
      unfolding windows

      closed_lem :
          (es : List Event) (low : ℕ) (before : Bool)
          → (before ≡ true → v ≤ low)
          → is_ordered false low es ≡ true
          → osv_affected v before es ≡ before || cve_affected v (windows vt none es)
      closed_lem [] low before h o = ground arith
      closed_lem (introduced a ∷ es) low before h o =
          open_lem es a before (λ e. ground (arith, h e, o)) (ground (arith, o)) (ground (arith, o))
      closed_lem (fixed b ∷ es) low before h o = ground (arith, o)
      closed_lem (last_affected b ∷ es) low before h o = ground (arith, o)
      closed_lem (ignored ∷ es) low before h o = closed_lem es low before h o

      open_lem :
          (es : List Event) (s : Text) (before : Bool)
          → (before ≡ true → v ≤ rank s)
          → is_plain s ≡ true
          → is_ordered true (rank s) es ≡ true
          → osv_affected v (if leb (rank s) v then true else before) es
            ≡ before || cve_affected v (windows vt (some s) es)
      open_lem [] s before h p o = rw (plain-truncate s p) (ground arith)
      open_lem (introduced a ∷ es) s before h p o = ground (arith, o)
      open_lem (fixed b ∷ es) s before h p o =
          let flag = if leb (rank b) v then false else (if leb (rank s) v then true else before) in
          closed_lem es (rank b) flag (λ e. ground (arith, e)) (ground (arith, o))
          ∙ rw (plain-truncate s p, plain-truncate b (ground (arith, o))) (ground (arith, o, h))
      open_lem (last_affected b ∷ es) s before h p o =
          let flag = if ltb (rank b) v then false else (if leb (rank s) v then true else before) in
          closed_lem es (rank b) flag (λ e. ground (arith, e)) (ground (arith, o))
          ∙ rw (plain-truncate s p, plain-truncate b (ground (arith, o))) (ground (arith, o, h))
      open_lem (ignored ∷ es) s before h p o = open_lem es s before h p o

  -- A range whose events open and close windows in turn and go up, with versions that the format
  -- can hold, is translated, and the entries make a version affected just if the OSV evaluation of
  -- the events does.
  pub versions_for_range-affect :
      (rng : Json) (events : List Json) (vt : Text)
      → list_at (codes "events") rng ≡ done events
      → is_ordered false 0 (read_events events) ≡ true
      → Gives
          (versions_for_range rng vt)
          (λ vs. (v : ℕ) → cve_affected v vs ≡ osv_affected v false (read_events events))
  unfolding versions_for_range
  versions_for_range-affect rng events vt e o =
      rw e (λ v. sym (closed_lem vt v (read_events events) 0 false (λ b. ground (arith, b)) o))
