-- ===== src/Identifiers.antt =====
-- Advisory ids: their form, their generation, and the search for one that is not taken
-- (advisories/identifiers.py; advisories/models.py, `_generate_unique_id`).
use Prim.Native.Nat.{◌*◌}
use advisoryhub.Prelude.{
  ℕ, zero, suc, ◌+◌, ◌<◌, ◌≡◌, ap, ◌∙◌, Bool, true, false, ◌&&◌, ◌==◌, Option, none, some, List, [],
  ◌∷◌, ◌++◌, Text, codes, text_eq, exists_row, if◌then◌else◌, Bool-cases, inl, inr, arith,
}
use advisoryhub.Advisory.{Advisory}
use advisoryhub.Workflows.{drop_prefix, is_end}

-- `_ALPHABET`
abbrev pub alphabet : Text
alphabet = codes "23456789cfghjmpqrvwx"

unfoldable pub in_alphabet : ℕ → Bool
in_alphabet c = exists_row (λ a. a == c) alphabet

-- `-[23456789cfghjmpqrvwx]{4}`
pub drop_group : Text → Option Text
drop_group (d ∷ a ∷ b ∷ c ∷ e ∷ s) =
    if d == 45 && in_alphabet a && in_alphabet b && in_alphabet c && in_alphabet e
    then some s
    else none
drop_group _ = none

abbrev then_drop : Option Text → (Text → Option Text) → Option Text
then_drop none f = none
then_drop (some s) f = f s

abbrev drop_groups : ℕ → Text → Option Text
drop_groups zero s = some s
drop_groups (suc n) s = then_drop (drop_group s) (drop_groups n)

abbrev ends : Option Text → Bool
ends none = false
ends (some s) = is_end s

-- `is_valid_advisory_id`: `^ECL(-[23456789cfghjmpqrvwx]{4}){3}$`
pub is_valid_advisory_id : Text → Bool
unfolding drop_group
is_valid_advisory_id s = elim (drop_prefix (codes "ECL") s) [
  | none ↦ false
  | some r ↦ ends (drop_groups 3 r)
]

-- `draw` is `secrets.choice(_ALPHABET)`, by the number of the call.
module _ (draw : ℕ → ℕ) where
  abbrev part : ℕ → Text → Text
  part n rest = 45 ∷ draw n ∷ draw (n + 1) ∷ draw (n + 2) ∷ draw (n + 3) ∷ rest

  -- `generate_advisory_id`, from the call `n` on
  pub generate_advisory_id : ℕ → Text
  generate_advisory_id n = codes "ECL" ++ part n (part (n + 4) (part (n + 8) []))

  abbrev pub is_taken : List Advisory → Text → Bool
  is_taken rows id = exists_row (λ (a : Advisory). text_eq a.advisory_id id) rows

  -- `_generate_unique_id` with some retries left: none is `RuntimeError`.
  pub generate_unique_id : List Advisory → ℕ → ℕ → Option Text
  unfolding generate_advisory_id
  generate_unique_id rows zero n = none
  generate_unique_id rows (suc retries) n =
      let later = generate_unique_id rows retries (n + 12) in
      if is_taken rows (generate_advisory_id n) then later else some (generate_advisory_id n)

  -- `secrets.choice` returns an element of what it is given.
  module _ (chosen : (n : ℕ) → in_alphabet (draw n) ≡ true) where
    drop_group-part : (n : ℕ) (s : Text) → drop_group (part n s) ≡ some s
    unfolding drop_group
    drop_group-part n s = ground (arith, chosen n, chosen (n + 1), chosen (n + 2), chosen (n + 3))

    drop_groups-part : (k n : ℕ) (s : Text) → drop_groups (suc k) (part n s) ≡ drop_groups k s
    drop_groups-part k n s = ap (λ o. then_drop o (drop_groups k)) (drop_group-part n s)

    generate_advisory_id-is_valid : (n : ℕ) → is_valid_advisory_id (generate_advisory_id n) ≡ true
    unfolding is_valid_advisory_id generate_advisory_id drop_prefix is_end
    generate_advisory_id-is_valid n = ap ends (
        drop_groups-part 2 n (part (n + 4) (part (n + 8) []))
        ∙ drop_groups-part 1 (n + 4) (part (n + 8) [])
        ∙ drop_groups-part 0 (n + 8) [])

    -- What a search with some retries ends with.
    abbrev pub Found : List Advisory → ℕ → ℕ → Option Text → Type 0
    Found rows retries n none =
        (k : ℕ) → k < retries → is_taken rows (generate_advisory_id (n + 12 * k)) ≡ true
    Found rows retries n (some id) = (is_valid_advisory_id id ≡ true) × (is_taken rows id ≡ false)

    -- Where each draw is of the alphabet, the search for an id ends with a valid one that no row
    -- has, unless the candidates of all its retries are taken.
    pub generate_unique_id-Found :
        (rows : List Advisory) (retries n : ℕ)
        → Found rows retries n (generate_unique_id rows retries n)
    unfolding generate_unique_id
    generate_unique_id-Found rows zero n = λ k less. absurd (omega arith)
    generate_unique_id-Found rows (suc retries) n =
        elim (Bool-cases (is_taken rows (generate_advisory_id n))) [
          | inr free ↦ rw free (generate_advisory_id-is_valid n, free)
          | inl taken ↦ rw taken (
              later (generate_unique_id rows retries (n + 12)) taken
                (generate_unique_id-Found rows retries (n + 12)))
        ]
      where
        later :
            (found : Option Text)
            → is_taken rows (generate_advisory_id n) ≡ true
            → Found rows retries (n + 12) found
            → Found rows (suc retries) n found
        later (some id) taken h = h
        later none taken h = λ k less. each k less
          where
            each :
                (k : ℕ) → k < suc retries → is_taken rows (generate_advisory_id (n + 12 * k)) ≡ true
            each zero less = ap (λ m. is_taken rows (generate_advisory_id m)) (omega arith) ∙ taken
            each (suc k) less =
                ap (λ m. is_taken rows (generate_advisory_id m)) (omega arith) ∙ h k (omega arith)
