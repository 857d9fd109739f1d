-- ===== src/Prelude/Tables.antt =====
-- Database tables as lists of rows, the newest row first, and the queries that the program makes.
use Prim.Native.Nat.{ℕ, suc, ◌+◌, ◌≤◌, ◌<◌}
use mathlib.Core.Path.{◌≡◌, refl}
use mathlib.Core.Logic.{◌≢◌, inl, inr}
use mathlib.Core.Bool.{Bool, true, false, ◌&&◌, ◌||◌}
use mathlib.Core.Option.{Option, none, some}
use mathlib.Core.List.{List, [], ◌∷◌}
use native.Mathlib.Omega.{arith}
use advisoryhub.Prelude.Tests.{◌==◌, leb, if◌then◌else◌, Bool-cases}

module _ {ℓ} {A : Type ℓ} where
  -- `filter(p).exists()`
  abbrev pub exists_row : (A → Bool) → List A → Bool
  exists_row p [] = false
  exists_row p (x ∷ xs) = p x || exists_row p xs

  -- `filter(p).first()` where the order is the newest first
  abbrev pub first_row : (A → Bool) → List A → Option A
  first_row p [] = none
  first_row p (x ∷ xs) = if p x then some x else first_row p xs

  -- `filter(p).first()` where the order is that of the primary keys
  abbrev pub oldest_row : (A → Bool) → List A → Option A
  oldest_row p [] = none
  oldest_row p (x ∷ xs) = elim (oldest_row p xs) [
    | some y ↦ some y
    | none ↦ if p x then some x else none
  ]

  -- `filter(p)`
  abbrev pub select : (A → Bool) → List A → List A
  select p [] = []
  select p (x ∷ xs) = let rest = select p xs in if p x then x ∷ rest else rest

  -- `filter(p).count()`
  abbrev pub count_rows : (A → Bool) → List A → ℕ
  count_rows p [] = 0
  count_rows p (x ∷ xs) = let rest = count_rows p xs in if p x then suc rest else rest

  -- 1 for a row that is there and passes the test
  abbrev pub weight : (A → Bool) → Option A → ℕ
  weight p none = 0
  weight p (some x) = if p x then 1 else 0

  -- `order_by("-key").first()`
  abbrev pub larger : (A → ℕ) → A → Option A → A
  larger key x none = x
  larger key x (some y) = if leb (key y) (key x) then x else y

  abbrev pub max_row : (A → ℕ) → List A → Option A
  max_row key [] = none
  max_row key (x ∷ xs) = some (larger key x (max_row key xs))

  module _ (pk : A → ℕ) where
    -- `get(pk=k)`
    abbrev pub get_row : ℕ → List A → Option A
    get_row k [] = none
    get_row k (x ∷ xs) = if pk x == k then some x else get_row k xs

    -- an UPDATE of the row with primary key `k`
    abbrev pub modify_row : ℕ → (A → A) → List A → List A
    modify_row k f [] = []
    modify_row k f (x ∷ xs) = if pk x == k then f x ∷ xs else x ∷ modify_row k f xs

    -- a DELETE of the row with primary key `k`
    abbrev pub delete_row : ℕ → List A → List A
    delete_row k [] = []
    delete_row k (x ∷ xs) = if pk x == k then xs else x ∷ delete_row k xs

  abbrev pub map_row : (A → A) → Option A → Option A
  map_row f none = none
  map_row f (some x) = some (f x)

  module _ (pk : A → ℕ) (f : A → A) (keeps : (x : A) → pk (f x) ≡ pk x) where
    pub get_row-modify_row_self :
        (k : ℕ) (xs : List A) → get_row pk k (modify_row pk k f xs) ≡ map_row f (get_row pk k xs)
    get_row-modify_row_self k [] = refl
    get_row-modify_row_self k (x ∷ xs) = ground (arith, keeps x, get_row-modify_row_self k xs)

    pub get_row-modify_row_ne :
        (j k : ℕ) (xs : List A) → j ≢ k → get_row pk j (modify_row pk k f xs) ≡ get_row pk j xs
    get_row-modify_row_ne j k [] h = refl
    get_row-modify_row_ne j k (x ∷ xs) h = ground (arith, keeps x, get_row-modify_row_ne j k xs h)

  -- A row written as a whole is found where there was one.
  pub get_row-write_row :
      (pk : A → ℕ) (f : A → A) (k : ℕ) (xs : List A)
      → ((x : A) → pk (f x) ≡ k)
      → get_row pk k (modify_row pk k f xs) ≡ map_row f (get_row pk k xs)
  get_row-write_row pk f k [] same = refl
  get_row-write_row pk f k (x ∷ xs) same = ground (arith, same x, get_row-write_row pk f k xs same)

  -- An update of one row moves a count by that row alone.
  pub count_rows-modify_row :
      (pk : A → ℕ) (f : A → A) (p : A → Bool) (k : ℕ) (xs : List A)
      → count_rows p (modify_row pk k f xs) + weight p (get_row pk k xs)
        ≡ count_rows p xs + weight p (map_row f (get_row pk k xs))
  count_rows-modify_row pk f p k [] = refl
  count_rows-modify_row pk f p k (x ∷ xs) = ground (arith, count_rows-modify_row pk f p k xs)

  -- No two rows have one primary key, and all keys are below the next one.
  abbrev pub Keyed : (A → ℕ) → ℕ → List A → Type ℓ
  Keyed pk n [] = Unit
  Keyed pk n (x ∷ xs) = (pk x < n) × (get_row pk (pk x) xs ≡ none) × Keyed pk n xs

  -- A fresh key is on no row.
  pub get_row_fresh :
      (pk : A → ℕ) (n k : ℕ) (xs : List A) → Keyed pk n xs → n ≤ k → get_row pk k xs ≡ none
  get_row_fresh pk n k [] h le = refl
  get_row_fresh pk n k (x ∷ xs) h le = ground (arith, get_row_fresh pk n k xs h.2 le)

  pub Keyed-mono : (pk : A → ℕ) (m n : ℕ) (xs : List A) → m ≤ n → Keyed pk m xs → Keyed pk n xs
  Keyed-mono pk m n [] le h = tt
  Keyed-mono pk m n (x ∷ xs) le h = (omega arith, h.1, Keyed-mono pk m n xs le h.2)

  get_row-modify_row-none :
      (pk : A → ℕ) (f : A → A) (j k : ℕ) (xs : List A)
      → ((x : A) → pk (f x) ≡ pk x)
      → get_row pk j xs ≡ none
      → get_row pk j (modify_row pk k f xs) ≡ none
  get_row-modify_row-none pk f j k [] same e = e
  get_row-modify_row-none pk f j k (x ∷ xs) same e =
      ground (arith, same x, e, get_row-modify_row-none pk f j k xs same)

  -- An update that writes no key keeps the keys distinct.
  pub modify_row-Keyed :
      (pk : A → ℕ) (f : A → A) (n k : ℕ) (xs : List A)
      → ((x : A) → pk (f x) ≡ pk x)
      → Keyed pk n xs
      → Keyed pk n (modify_row pk k f xs)
  modify_row-Keyed pk f n k [] same h = tt
  modify_row-Keyed pk f n k (x ∷ xs) same h = ground (
    arith,
    same x,
    h,
    modify_row-Keyed pk f n k xs same h.2,
    get_row-modify_row-none pk f (pk x) k xs same h.1,
  )

  get_row-delete_row-none :
      (pk : A → ℕ) (j k : ℕ) (xs : List A)
      → get_row pk j xs ≡ none
      → get_row pk j (delete_row pk k xs) ≡ none
  get_row-delete_row-none pk j k [] e = e
  get_row-delete_row-none pk j k (x ∷ xs) e = ground (arith, e, get_row-delete_row-none pk j k xs)

  -- So does a DELETE.
  pub delete_row-Keyed :
      (pk : A → ℕ) (n k : ℕ) (xs : List A) → Keyed pk n xs → Keyed pk n (delete_row pk k xs)
  delete_row-Keyed pk n k [] h = tt
  delete_row-Keyed pk n k (x ∷ xs) h =
      ground (arith, h, delete_row-Keyed pk n k xs h.2, get_row-delete_row-none pk (pk x) k xs h.1)

  -- The first row that passes a test is found by its key.
  pub get_row-first_row :
      (pk : A → ℕ) (n : ℕ) (p : A → Bool) (t : A) (xs : List A)
      → Keyed pk n xs
      → first_row p xs ≡ some t
      → (get_row pk (pk t) xs ≡ some t) × (p t ≡ true)
  get_row-first_row pk n p t [] h e = ground arith
  get_row-first_row pk n p t (x ∷ xs) h e = ground (arith, get_row-first_row pk n p t xs h.2)

  pub first_row-none : (p : A → Bool) (xs : List A) → first_row p xs ≡ none → count_rows p xs ≡ 0
  first_row-none p [] e = refl
  first_row-none p (x ∷ xs) e = ground (arith, first_row-none p xs)

  pub exists_row-eq-count_rows :
      (p : A → Bool) (xs : List A) → (exists_row p xs ≡ false) → count_rows p xs ≡ 0
  exists_row-eq-count_rows p [] h = refl
  exists_row-eq-count_rows p (x ∷ xs) h = ground (arith, exists_row-eq-count_rows p xs)

  -- An update that no row passes or fails a test by leaves the answer as it was.
  pub exists_row-modify_row :
      (pk : A → ℕ) (f : A → A) (p : A → Bool) (k : ℕ) (xs : List A)
      → ((x : A) → p (f x) ≡ p x)
      → exists_row p (modify_row pk k f xs) ≡ exists_row p xs
  exists_row-modify_row pk f p k [] h = refl
  exists_row-modify_row pk f p k (x ∷ xs) h =
      ground (arith, h x, exists_row-modify_row pk f p k xs h)

  pub exists_row-select :
      (p q : A → Bool) (xs : List A) → exists_row q (select p xs) ≡ exists_row (λ x. p x && q x) xs
  exists_row-select p q [] = refl
  exists_row-select p q (x ∷ xs) = ground (arith, exists_row-select p q xs)

  -- A test that no row found by its key passes, no row passes.
  pub exists_row-keys :
      (pk : A → ℕ) (n : ℕ) (p : A → Bool) (xs : List A)
      → Keyed pk n xs
      → ((k : ℕ) (x : A) → get_row pk k xs ≡ some x → p x ≡ false)
      → exists_row p xs ≡ false
  exists_row-keys pk n p [] h f = refl
  exists_row-keys pk n p (x ∷ xs) h f = ground (
    arith,
    f (pk x) x (ground arith),
    exists_row-keys pk n p xs h.2 (λ k y e. f k y (ground (arith, h.1, e))),
  )

  pub exists_row-get_row :
      (pk : A → ℕ) (p : A → Bool) (k : ℕ) (x : A) (xs : List A)
      → get_row pk k xs ≡ some x
      → p x ≡ true
      → exists_row p xs ≡ true
  exists_row-get_row pk p k x [] e h = ground arith
  exists_row-get_row pk p k x (y ∷ ys) e h = ground (arith, exists_row-get_row pk p k x ys)

  abbrev pub passes : (A → Bool) → Option A → Bool
  passes p none = false
  passes p (some x) = p x

  exists_row-absent :
      (pk : A → ℕ) (p : A → Bool) (k : ℕ) (xs : List A)
      → get_row pk k xs ≡ none
      → exists_row (λ x. p x && pk x == k) xs ≡ false
  exists_row-absent pk p k [] e = refl
  exists_row-absent pk p k (x ∷ xs) e = ground (arith, e, exists_row-absent pk p k xs)

  -- A query for a key asks of its row.
  pub exists_row-key :
      (pk : A → ℕ) (n : ℕ) (p : A → Bool) (k : ℕ) (xs : List A)
      → Keyed pk n xs
      → exists_row (λ x. p x && pk x == k) xs ≡ passes p (get_row pk k xs)
  exists_row-key pk n p k [] h = refl
  exists_row-key pk n p k (x ∷ xs) h =
      ground (arith, h, exists_row-key pk n p k xs h.2, exists_row-absent pk p k xs)

  pub exists_row-cong :
      (p q : A → Bool) (xs : List A) → ((x : A) → p x ≡ q x) → exists_row p xs ≡ exists_row q xs
  exists_row-cong p q [] h = refl
  exists_row-cong p q (x ∷ xs) h = ground (arith, h x, exists_row-cong p q xs h)

  pub exists_row-none :
      (p q : A → Bool) (xs : List A)
      → ((x : A) → q x ≡ false → p x ≡ false)
      → exists_row q xs ≡ false
      → exists_row p xs ≡ false
  exists_row-none p q [] h e = refl
  exists_row-none p q (x ∷ xs) h e =
      ground (arith, e, h x (ground (arith, e)), exists_row-none p q xs h (ground (arith, e)))

  -- A row's key is below the next one.
  pub get_row-below :
      (pk : A → ℕ) (n k : ℕ) (x : A) (xs : List A)
      → Keyed pk n xs
      → get_row pk k xs ≡ some x
      → k < n
  get_row-below pk n k x [] h e = ground (arith, e)
  get_row-below pk n k x (y ∷ ys) h e = ground (arith, h, e, get_row-below pk n k x ys h.2)

  -- A row is found under its own key.
  pub get_row-key : (pk : A → ℕ) (k : ℕ) (x : A) (xs : List A) → get_row pk k xs ≡ some x → pk x ≡ k
  get_row-key pk k x [] e = ground arith
  get_row-key pk k x (y ∷ ys) e = ground (arith, get_row-key pk k x ys)

  select_none : (p : A → Bool) (xs : List A) → count_rows p xs ≡ 0 → select p xs ≡ []
  select_none p [] e = refl
  select_none p (x ∷ xs) e = ground (arith, select_none p xs)

  -- A query with one answer has its first row for that answer.
  pub select-first_row :
      (p : A → Bool) (xs : List A)
      → count_rows p xs ≡ 1
      → (x : A) × (select p xs ≡ x ∷ []) × (first_row p xs ≡ some x)
  select-first_row p [] e = absurd (omega arith)
  select-first_row p (x ∷ xs) e = elim (Bool-cases (p x)) [
    | inl t ↦ (x, rw (t, select_none p xs (ground (arith, t))), rw t)
    | inr f ↦ let (y, s, q) = select-first_row p xs (ground (arith, f)) in (y, rw f s, rw f q)
  ]

  pub count-exists : (p : A → Bool) (xs : List A) → count_rows p xs ≡ 0 → exists_row p xs ≡ false
  count-exists p [] e = refl
  count-exists p (x ∷ xs) e = ground (arith, count-exists p xs)

  -- A row that a query selects is found in its answer.
  pub get_row-select :
      (pk : A → ℕ) (p : A → Bool) (k : ℕ) (x : A) (xs : List A)
      → get_row pk k xs ≡ some x
      → p x ≡ true
      → get_row pk k (select p xs) ≡ some x
  get_row-select pk p k x [] e h = e
  get_row-select pk p k x (y ∷ ys) e h = ground (arith, e, h, get_row-select pk p k x ys)

  pub exists_row_mono :
      (p q : A → Bool) (xs : List A)
      → ((x : A) → p x ≡ true → q x ≡ true)
      → exists_row p xs ≡ true
      → exists_row q xs ≡ true
  exists_row_mono p q [] h e = e
  exists_row_mono p q (x ∷ xs) h e = ground (arith, h x, e, exists_row_mono p q xs h)

  -- An update by which no row fails a test that it passed.
  pub exists_row-modify_mono :
      (pk : A → ℕ) (f : A → A) (p : A → Bool) (j : ℕ) (xs : List A)
      → ((x : A) → p x ≡ true → p (f x) ≡ true)
      → exists_row p xs ≡ true
      → exists_row p (modify_row pk j f xs) ≡ true
  exists_row-modify_mono pk f p j [] h e = e
  exists_row-modify_mono pk f p j (x ∷ xs) h e =
      ground (arith, h x, e, exists_row-modify_mono pk f p j xs h)

  -- The row that an update writes is not the one that passes the test.
  pub exists_row-spared :
      (pk : A → ℕ) (f : A → A) (p : A → Bool) (j : ℕ) (t : A) (xs : List A)
      → get_row pk j xs ≡ some t
      → p t ≡ false
      → exists_row p xs ≡ true
      → exists_row p (modify_row pk j f xs) ≡ true
  exists_row-spared pk f p j t [] g n e = e
  exists_row-spared pk f p j t (x ∷ xs) g n e =
      ground (arith, g, n, e, exists_row-spared pk f p j t xs)
