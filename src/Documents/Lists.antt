-- ===== src/Documents/Lists.antt =====
-- Slices, look-ups and lists without duplicates.
use advisoryhub.Prelude.{
  ℕ, zero, suc, ◌≤◌, ◌≡◌, refl, Bool, true, false, not, ◌&&◌, ◌||◌, Option, none, some, List, [],
  ◌∷◌, Text, text_eq, arith, if◌then◌else◌, ◌++◌, Bool-cases, inl, inr,
}

-- `len`
abbrev pub length {ℓ} : {A : Type ℓ} → List A → ℕ
length [] = 0
length (x ∷ xs) = suc (length xs)

-- `text[:n]`
unfoldable pub truncate : ℕ → Text → Text
truncate zero s = []
truncate (suc n) [] = []
truncate (suc n) (c ∷ s) = c ∷ truncate n s

pub length-truncate : (n : ℕ) (s : Text) → length (truncate n s) ≤ n
unfolding truncate
length-truncate zero s = omega arith
length-truncate (suc n) [] = omega arith
length-truncate (suc n) (c ∷ s) = omega (arith, length-truncate n s)

pub truncate_short : (n : ℕ) (s : Text) → length s ≤ n → truncate n s ≡ s
unfolding truncate
truncate_short zero [] h = refl
truncate_short zero (c ∷ s) h = absurd (omega arith)
truncate_short (suc n) [] h = refl
truncate_short (suc n) (c ∷ s) h = ground (arith, truncate_short n s)

-- `table.get(key)`
abbrev pub find_text {ℓ} : {A : Type ℓ} → Text → List (Text × A) → Option A
find_text k [] = none
find_text k (e ∷ es) = if text_eq e.0 k then some e.1 else find_text k es

abbrev pub or_default {ℓ} : {A : Type ℓ} → A → Option A → A
or_default d none = d
or_default d (some a) = a

abbrev pub every {ℓ} : {A : Type ℓ} → (A → Bool) → List A → Bool
every p [] = true
every p (x ∷ xs) = p x && every p xs

pub every_mono {ℓ} :
    {A : Type ℓ} (p q : A → Bool) (xs : List A)
    → ((x : A) → p x ≡ true → q x ≡ true)
    → every p xs ≡ true
    → every q xs ≡ true
every_mono p q [] h e = refl
every_mono p q (x ∷ xs) h e =
    ground (arith, h x (ground (arith, e)), every_mono p q xs h (ground (arith, e)))

pub every-append {ℓ} :
    {A : Type ℓ} (p : A → Bool) (xs ys : List A)
    → every p xs ≡ true
    → every p ys ≡ true
    → every p (xs ++ ys) ≡ true
every-append p [] ys h k = k
every-append p (x ∷ xs) ys h k = ground (arith, h, k, every-append p xs ys (ground (arith, h)) k)

module _ {A : Type 0} (same : A → A → Bool) where
  abbrev pub is_in : A → List A → Bool
  is_in x [] = false
  is_in x (y ∷ ys) = same y x || is_in x ys

  -- The loop `if key in seen: continue; seen.add(key); out.append(item)`
  unfoldable pub first_of_each : List A → List A → List A
  first_of_each seen [] = []
  first_of_each seen (x ∷ xs) =
      let again = is_in x seen in
      let rest = first_of_each (if again then seen else x ∷ seen) xs in
      if again then rest else x ∷ rest

  -- None is the same as one after it.
  abbrev pub is_distinct : List A → Bool
  is_distinct [] = true
  is_distinct (x ∷ xs) = every (λ y. not (same x y)) xs && is_distinct xs

  first_of_each-new :
      (seen xs : List A) → every (λ y. not (is_in y seen)) (first_of_each seen xs) ≡ true
  unfolding first_of_each
  first_of_each-new seen [] = refl
  first_of_each-new seen (x ∷ xs) = elim (Bool-cases (is_in x seen)) [
    | inl again ↦ rw again (first_of_each-new seen xs)
    | inr new ↦ ground (
      arith,
      new,
      every_mono (λ y. not (is_in y (x ∷ seen))) (λ y. not (is_in y seen))
          (first_of_each (x ∷ seen) xs) (λ y e. ground (arith, e))
          (first_of_each-new (x ∷ seen) xs),
    )
  ]

  pub first_of_each-is_distinct : (seen xs : List A) → is_distinct (first_of_each seen xs) ≡ true
  unfolding first_of_each
  first_of_each-is_distinct seen [] = refl
  first_of_each-is_distinct seen (x ∷ xs) = elim (Bool-cases (is_in x seen)) [
    | inl again ↦ rw again (first_of_each-is_distinct seen xs)
    | inr new ↦ ground (
      arith,
      new,
      first_of_each-is_distinct (x ∷ seen) xs,
      every_mono (λ y. not (is_in y (x ∷ seen))) (λ y. not (same x y)) (first_of_each (x ∷ seen) xs)
          (λ y e. ground (arith, e)) (first_of_each-new (x ∷ seen) xs),
    )
  ]

  pub first_of_each-every :
      (p : A → Bool) (seen xs : List A) → every p xs ≡ true → every p (first_of_each seen xs) ≡ true
  unfolding first_of_each
  first_of_each-every p seen [] h = refl
  first_of_each-every p seen (x ∷ xs) h = elim (Bool-cases (is_in x seen)) [
    | inl again ↦ ground (arith, h, again, first_of_each-every p seen xs (ground (arith, h)))
    | inr new ↦ ground (arith, h, new, first_of_each-every p (x ∷ seen) xs (ground (arith, h)))
  ]
