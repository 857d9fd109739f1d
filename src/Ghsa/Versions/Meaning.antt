-- ===== src/Ghsa/Versions/Meaning.antt =====
-- The events of a vulnerability say what GitHub's range says (ghsa/translator.py,
-- `_parse_vulnerable_range`).
use advisoryhub.Prelude.{
  ℕ, ◌≡◌, ◌∙◌, refl, Bool, true, false, not, ◌&&◌, ◌||◌, ◌==◌, leb, ltb, Option, none, some,
  is_some, List, [], ◌∷◌, Text, codes, is_blank, is_space, strip, arith, Bool-cases, Option-cases,
  inl, inr,
}
use advisoryhub.Documents.Lists.{every}
use advisoryhub.Documents.Cve.{introduced, fixed, last_affected, read_event, read_events}
use advisoryhub.Documents.Cve.Ranges.{osv_affected}
use advisoryhub.Ghsa.Versions.{
  Operator, Bounds, no_bounds, bounds, bound_by, entry, closing, events_for, find_ranges,
  parse_vulnerable_range,
}
use advisoryhub.Ghsa.Versions.Words.{is_word, has_word, strip_word, find_ranges-words}

-- An event that is written with a version is read as one.
read_introduced :
    (s : Text) → is_word s ≡ true → read_event (entry (codes "introduced") s) ≡ introduced s
unfolding read_event
read_introduced s w = rw (strip_word s (ground (arith, w))) (ground (arith, w))

read_fixed :
    (s : Text) → is_blank s ≡ false → strip s ≡ s → read_event (entry (codes "fixed") s) ≡ fixed s
unfolding read_event
read_fixed s w e = rw e (ground (arith, w))

read_last :
    (s : Text) → is_word s ≡ true → read_event (entry (codes "last_affected") s) ≡ last_affected s
unfolding read_event
read_last s w = rw (strip_word s (ground (arith, w))) (ground (arith, w))

-- At most one lower bound and at most one upper bound, of which some may have been seen.
abbrev pub is_window : Bool → Bool → List (Operator × Text) → Bool
is_window lower upper [] = true
is_window lower upper ((Operator.at_least, t) ∷ ms) = not lower && is_window true upper ms
is_window lower upper ((Operator.above, t) ∷ ms) = not lower && is_window true upper ms
is_window lower upper ((Operator.under, t) ∷ ms) = not upper && is_window lower true ms
is_window lower upper ((Operator.at_most, t) ∷ ms) = not upper && is_window lower true ms
is_window lower upper ((Operator.exactly, t) ∷ ms) = false

abbrev pub has_upper : List (Operator × Text) → Bool
has_upper [] = false
has_upper ((Operator.under, t) ∷ ms) = true
has_upper ((Operator.at_most, t) ∷ ms) = true
has_upper (m ∷ ms) = has_upper ms

abbrev good_text : Option Text → Bool
good_text none = true
good_text (some t) = is_word t

abbrev is_good : Bounds → Bool
is_good b = good_text b.introduced && good_text b.fixed && good_text b.last_affected

is_word_zero : is_word (codes "0") ≡ true
unfolding is_space
is_word_zero = refl

abbrev is_closed : Bounds → Bool
is_closed b = is_some b.fixed || is_some b.last_affected

-- What the loop keeps of words is words, and it sees every upper bound.
bounds-good :
    (b : Bounds) (ms : List (Operator × Text))
    → is_good b ≡ true
    → every has_word ms ≡ true
    → is_good (bounds b ms) ≡ true
bounds-good b [] g w = g
bounds-good b (m ∷ ms) g w = bounds-good (bound_by m.0 m.1 b) ms (one m.0) (ground (arith, w))
  where
    one : (op : Operator) → is_good (bound_by op m.1 b) ≡ true
    one Operator.at_least = ground (arith, g, w)
    one Operator.above = ground (arith, g, w)
    one Operator.under = ground (arith, g, w)
    one Operator.at_most = ground (arith, g, w)
    one Operator.exactly = g

bounds-closed :
    (b : Bounds) (ms : List (Operator × Text))
    → is_closed (bounds b ms) ≡ is_closed b || has_upper ms
bounds-closed b [] = ground arith
bounds-closed b ((Operator.at_least, t) ∷ ms) = bounds-closed (bound_by Operator.at_least t b) ms
bounds-closed b ((Operator.above, t) ∷ ms) = bounds-closed (bound_by Operator.above t b) ms
bounds-closed b ((Operator.exactly, t) ∷ ms) = bounds-closed (bound_by Operator.exactly t b) ms
bounds-closed b ((Operator.under, t) ∷ ms) =
    ground (arith, bounds-closed (bound_by Operator.under t b) ms)
bounds-closed b ((Operator.at_most, t) ∷ ms) =
    ground (arith, bounds-closed (bound_by Operator.at_most t b) ms)

bounds-exact :
    (b : Bounds) (ms : List (Operator × Text)) (lower upper : Bool)
    → is_window lower upper ms ≡ true
    → (bounds b ms).exact ≡ b.exact
bounds-exact b [] lower upper h = refl
bounds-exact b ((Operator.at_least, t) ∷ ms) lower upper h =
    bounds-exact (bound_by Operator.at_least t b) ms true upper (ground (arith, h))
bounds-exact b ((Operator.above, t) ∷ ms) lower upper h =
    bounds-exact (bound_by Operator.above t b) ms true upper (ground (arith, h))
bounds-exact b ((Operator.under, t) ∷ ms) lower upper h =
    bounds-exact (bound_by Operator.under t b) ms lower true (ground (arith, h))
bounds-exact b ((Operator.at_most, t) ∷ ms) lower upper h =
    bounds-exact (bound_by Operator.at_most t b) ms lower true (ground (arith, h))
bounds-exact b ((Operator.exactly, t) ∷ ms) lower upper h = ground (arith, h)

-- `rank` is the order of the versions.
module _ (rank : Text → ℕ) (v : ℕ) where
  -- What an operator asks of a version: `>` is taken for `>=`.
  abbrev pub satisfies : Operator × Text → Bool
  satisfies (Operator.at_least, t) = leb (rank t) v
  satisfies (Operator.above, t) = leb (rank t) v
  satisfies (Operator.under, t) = ltb v (rank t)
  satisfies (Operator.at_most, t) = leb v (rank t)
  satisfies (Operator.exactly, t) = v == rank t

  -- Below the patched version, if there is one.
  abbrev pub before : Text → Bool
  before patched = is_blank patched || ltb v (rank patched)

  abbrev above_lower : Option Text → Bool
  above_lower none = true
  above_lower (some t) = leb (rank t) v

  abbrev below_upper : Option Text → Option Text → Bool
  below_upper none none = true
  below_upper (some t) l = ltb v (rank t)
  below_upper none (some t) = leb v (rank t)

  abbrev fits : Bounds → Bool
  fits b = above_lower b.introduced && below_upper b.fixed b.last_affected

  bounds-fit :
      (b : Bounds) (ms : List (Operator × Text))
      → is_window (is_some b.introduced) (is_some b.fixed || is_some b.last_affected) ms ≡ true
      → fits (bounds b ms) ≡ fits b && every satisfies ms
  bounds-fit b [] h = ground arith
  bounds-fit b ((Operator.at_least, t) ∷ ms) h = elim (Option-cases b.introduced) [
    | inr (u, e) ↦ ground (arith, e, h)
    | inl e ↦ ground (arith, e, h, bounds-fit (bound_by Operator.at_least t b) ms)
  ]
  bounds-fit b ((Operator.above, t) ∷ ms) h = elim (Option-cases b.introduced) [
    | inr (u, e) ↦ ground (arith, e, h)
    | inl e ↦ ground (arith, e, h, bounds-fit (bound_by Operator.above t b) ms)
  ]
  bounds-fit b ((Operator.under, t) ∷ ms) h = elim (Option-cases b.fixed) [
    | inr (u, e) ↦ ground (arith, e, h)
    | inl e ↦ elim (Option-cases b.last_affected) [
      | inr (u, l) ↦ ground (arith, e, l, h)
      | inl l ↦ ground (arith, e, l, h, bounds-fit (bound_by Operator.under t b) ms)
    ]
  ]
  bounds-fit b ((Operator.at_most, t) ∷ ms) h = elim (Option-cases b.fixed) [
    | inr (u, e) ↦ ground (arith, e, h)
    | inl e ↦ elim (Option-cases b.last_affected) [
      | inr (u, l) ↦ ground (arith, e, l, h)
      | inl l ↦ ground (arith, e, l, h, bounds-fit (bound_by Operator.at_most t b) ms)
    ]
  ]
  bounds-fit b ((Operator.exactly, t) ∷ ms) h = ground (arith, h)

  closing-affect :
      (b : Bounds) (patched : Text) (flag : Bool)
      → is_good b ≡ true
      → strip patched ≡ patched
      → osv_affected rank v flag (read_events (closing b patched))
        ≡ flag && below_upper b.fixed b.last_affected && (is_closed b || before patched)
  closing-affect b patched flag g e = elim (Option-cases b.fixed) [
    | inr (t, f) ↦
        ground
          (arith, f, g, read_fixed t (ground (arith, f, g)) (strip_word t (ground (arith, f, g))))
    | inl f ↦ elim (Option-cases b.last_affected) [
      | inr (t, l) ↦ ground (arith, f, l, g, read_last t (ground (arith, l, g)))
      | inl l ↦ elim (Bool-cases (is_blank patched)) [
        | inl unpatched ↦ ground (arith, f, l, unpatched)
        | inr some_patch ↦ ground (arith, f, l, some_patch, read_fixed patched some_patch e)
      ]
    ]
  ]

  events_for-affect :
      (b : Bounds) (patched : Text)
      → rank (codes "0") ≡ 0
      → b.exact ≡ none
      → is_good b ≡ true
      → strip patched ≡ patched
      → osv_affected rank v false (read_events (events_for b patched))
        ≡ fits b && (is_closed b || before patched)
  unfolding events_for
  events_for-affect b patched zero x g e = elim (Option-cases b.introduced) [
    | inl i ↦ ground (
      arith,
      x,
      i,
      zero,
      read_introduced (codes "0") is_word_zero,
      closing-affect b patched true g e,
    )
    | inr (t, i) ↦ ground (
      arith,
      x,
      i,
      read_introduced t (ground (arith, i, g)),
      closing-affect b patched (leb (rank t) v) g e,
    )
  ]

-- A range of GitHub's that has at most one lower and at most one upper bound becomes events, by
-- which a version is affected just if it satisfies every bound of the range and, where no upper
-- bound is given, is below the patched version, if there is one; "above" counts as "at least". The
-- events are evaluated in the order in which they are written, without sorting them first: so where
-- the lower bound is above the upper one, no version is affected. A range in which no bound is found
-- counts as one without bounds. The patched version is one that `strip` leaves as it is, and "0" is
-- the least version.
pub parse_vulnerable_range-affect :
    (rank : Text → ℕ) (spec patched : Text) (v : ℕ)
    → rank (codes "0") ≡ 0
    → strip patched ≡ patched
    → is_blank spec ≡ false
    → is_window false false (find_ranges 0 spec) ≡ true
    → osv_affected rank v false (read_events (parse_vulnerable_range spec patched))
      ≡ every (satisfies rank v) (find_ranges 0 spec)
        && (has_upper (find_ranges 0 spec) || before rank v patched)
unfolding parse_vulnerable_range
parse_vulnerable_range-affect rank spec patched v zero e some_spec h =
    let ms = find_ranges 0 spec in
    let b = bounds no_bounds ms in
    let good = bounds-good no_bounds ms refl (find_ranges-words 0 spec) in
    rw some_spec (
      events_for-affect rank v b patched zero (bounds-exact no_bounds ms false false h) good e
      ∙ ground (arith, bounds-fit rank v no_bounds ms h, bounds-closed no_bounds ms))
