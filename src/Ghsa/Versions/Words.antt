-- ===== src/Ghsa/Versions/Words.antt =====
-- What the pattern of a range finds are versions without white space and commas, which the trimming
-- after it leaves as they are.
use mathlib.Core.List.{reverse_aux, reverse-reverse}
use advisoryhub.Prelude.{
  ℕ, zero, suc, ◌-◌, ◌≡◌, ◌∙◌, ap, refl, Bool, true, not, ◌&&◌, Option, none, some, [], ◌∷◌,
  reverse, Text, is_blank, strip, lstrip, arith, Option-cases, inl, inr,
}
use advisoryhub.Documents.Lists.{every, length}
use advisoryhub.Ghsa.Versions.{
  Operator, Found, in_version, version_part, version_after, operator_of, operator_at, match_range,
  trim_version, find_ranges, drop_commas,
}

-- A version that is not empty.
abbrev pub is_word : Text → Bool
is_word s = not (is_blank s) && every in_version s

every-version_part : (s : Text) → every in_version (version_part s) ≡ true
unfolding version_part
every-version_part [] = refl
every-version_part (c ∷ s) = ground (arith, every-version_part s)

abbrev found_word : Option Found → Bool
found_word none = true
found_word (some f) = is_word f.version

version_after-word : (op : Operator) (s : Text) → found_word (version_after op s) ≡ true
unfolding version_after
version_after-word op s = ground (arith, every-version_part (lstrip s))

operator_of-word : (two one : Operator) (s : Text) → found_word (operator_of two one s) ≡ true
unfolding operator_of
operator_of-word two one [] = refl
operator_of-word two one (c ∷ s) = elim (Option-cases (version_after two s)) [
  | inl e ↦ ground (arith, e, version_after-word one (c ∷ s))
  | inr (f, e) ↦ ground (arith, e, version_after-word two s, version_after-word one (c ∷ s))
]

operator_at-word : (s : Text) → found_word (operator_at s) ≡ true
unfolding operator_at
operator_at-word [] = refl
operator_at-word (c ∷ s) = ground (
  arith,
  operator_of-word Operator.at_least Operator.above s,
  operator_of-word Operator.at_most Operator.under s,
  version_after-word Operator.exactly s,
)

match_range-word : (s : Text) → found_word (match_range s) ≡ true
unfolding match_range
match_range-word s = operator_at-word (lstrip s)

-- Reversing keeps what each character is.
every-reverse_aux :
    (p : ℕ → Bool) (s t : Text)
    → every p s ≡ true
    → every p t ≡ true
    → every p (reverse_aux s t) ≡ true
every-reverse_aux p [] t h k = k
every-reverse_aux p (c ∷ s) t h k =
    every-reverse_aux p s (c ∷ t) (ground (arith, h)) (ground (arith, h, k))

every-reverse : (p : ℕ → Bool) (s : Text) → every p s ≡ true → every p (reverse s) ≡ true
every-reverse p s h = every-reverse_aux p s [] h refl

-- A text without white space is not stripped.
lstrip_word : (s : Text) → every in_version s ≡ true → lstrip s ≡ s
unfolding lstrip
lstrip_word [] h = refl
lstrip_word (c ∷ s) h = ground (arith, h)

pub strip_word : (s : Text) → every in_version s ≡ true → strip s ≡ s
unfolding strip
strip_word s h =
    ap (λ t. reverse (lstrip (reverse t))) (lstrip_word s h)
    ∙ ap reverse (lstrip_word (reverse s) (every-reverse in_version s h))
    ∙ reverse-reverse s

drop_commas_word : (s : Text) → every in_version s ≡ true → drop_commas s ≡ s
drop_commas_word [] h = refl
drop_commas_word (c ∷ s) h = ground (arith, h)

trim_word : (s : Text) → every in_version s ≡ true → trim_version s ≡ s
unfolding trim_version
trim_word s h =
    ap (λ t. reverse (drop_commas (reverse t))) (strip_word s h)
    ∙ ap reverse (drop_commas_word (reverse s) (every-reverse in_version s h))
    ∙ reverse-reverse s

abbrev pub has_word : Operator × Text → Bool
has_word m = is_word m.1

find_ranges-skip :
    (c : ℕ) (s : Text) → match_range (c ∷ s) ≡ none → find_ranges 0 (c ∷ s) ≡ find_ranges 0 s
unfolding find_ranges
find_ranges-skip c s e = ground (arith, e)

find_ranges-take :
    (c : ℕ) (s : Text) (f : Found)
    → match_range (c ∷ s) ≡ some f
    → find_ranges 0 (c ∷ s)
      ≡ (f.operator, trim_version f.version) ∷ find_ranges (length s - length f.rest) s
unfolding find_ranges
find_ranges-take c s f e = ground (arith, e)

find_ranges-pass : (n c : ℕ) (s : Text) → find_ranges (suc n) (c ∷ s) ≡ find_ranges n s
unfolding find_ranges
find_ranges-pass n c s = refl

find_ranges-end : (n : ℕ) → find_ranges n [] ≡ []
unfolding find_ranges
find_ranges-end n = refl

pub find_ranges-words : (n : ℕ) (s : Text) → every has_word (find_ranges n s) ≡ true
find_ranges-words n [] = rw (find_ranges-end n) refl
find_ranges-words zero (c ∷ s) = elim (Option-cases (match_range (c ∷ s))) [
  | inl e ↦ rw (find_ranges-skip c s e) (find_ranges-words 0 s)
  | inr (f, e) ↦
      let w : is_word f.version ≡ true = ground (arith, e, match_range-word (c ∷ s)) in
      rw (find_ranges-take c s f e, trim_word f.version (ground (arith, w)))
        (ground (arith, w, find_ranges-words (length s - length f.rest) s))
]
find_ranges-words (suc n) (c ∷ s) = rw (find_ranges-pass n c s) (find_ranges-words n s)
