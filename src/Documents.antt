-- ===== src/Documents.antt =====
-- The documents that a publication writes, built from the JSON of a pinned advisory version
-- (publication/), and the validators of that JSON (advisories/validators.py). A builder is a
-- function to a document or to the exception that it raises.
pub mod Json
pub mod Lists
pub mod Ecosystems
pub mod Cve
pub mod Accepted
pub mod Validators
pub mod Scores
use advisoryhub.Prelude.{Bool, true, false, ◌≡◌, refl, arith}

pub data Fault : Type 0 where
  attribute_error type_error key_error : Fault
  validation_error : Fault
  cve_build_error cve_assigner_not_configured : Fault

pub data Outcome (A : Type 0) : Type 0 where
  done : A → Outcome A
  fail : Fault → Outcome A

infixl 5 ◌>>=◌ ◌>>◌
abbrev pub ◌>>=◌ : {A B : Type 0} → Outcome A → (A → Outcome B) → Outcome B
◌>>=◌ (done a) f = f a
◌>>=◌ (fail e) f = fail e

abbrev pub ◌>>◌ : {A B : Type 0} → Outcome A → Outcome B → Outcome B
◌>>◌ (done a) k = k
◌>>◌ (fail e) k = fail e

-- `if not b: raise e`
abbrev pub check : Bool → Fault → Outcome (Unit {0})
check true e = done tt
check false e = fail e

-- It returns, and `P` holds of what it returns.
abbrev pub Gives : {A : Type 0} → Outcome A → (A → Type 0) → Type 0
Gives (done a) P = P a
Gives (fail e) P = ⊥

-- What holds of what it returns, if it does.
abbrev pub Whenever : {A : Type 0} → Outcome A → (A → Type 0) → Type 0
Whenever (done a) P = P a
Whenever (fail e) P = Unit

module _ {A B : Type 0} (m : Outcome A) (f : A → Outcome B) (P : A → Type 0) (Q : B → Type 0) where
  pub Whenever->>= : Whenever m P → ((a : A) → P a → Whenever (f a) Q) → Whenever (m >>= f) Q
  Whenever->>= h k = whenever m h
    where
      whenever : (m : Outcome A) → Whenever m P → Whenever (m >>= f) Q
      whenever (done a) h = k a h
      whenever (fail e) h = tt

  pub Gives->>= : Gives m P → ((a : A) → P a → Gives (f a) Q) → Gives (m >>= f) Q
  Gives->>= h k = gives m h
    where
      gives : (m : Outcome A) → Gives m P → Gives (m >>= f) Q
      gives (done a) h = k a h
      gives (fail e) h = h

pub Whenever-check :
    {B : Type 0} (b : Bool) (e : Fault) (k : Outcome B) (Q : B → Type 0)
    → (b ≡ true → Whenever k Q)
    → Whenever (check b e >> k) Q
Whenever-check true e k Q h = h refl
Whenever-check false e k Q h = tt

pub Gives-check :
    {B : Type 0} (b : Bool) (e : Fault) (k : Outcome B) (Q : B → Type 0)
    → b ≡ true
    → Gives k Q
    → Gives (check b e >> k) Q
Gives-check true e k Q b h = h
Gives-check false e k Q b h = ground (arith, b)

-- A first part of which nothing is needed.
pub Whenever-skip :
    {A B : Type 0} (m : Outcome A) (f : A → Outcome B) (Q : B → Type 0)
    → ((a : A) → Whenever (f a) Q)
    → Whenever (m >>= f) Q
Whenever-skip (done a) f Q k = k a
Whenever-skip (fail e) f Q k = tt

-- What a check or a first part that returned says.
pub check-done :
    {B : Type 0} (b : Bool) (e : Fault) (k : Outcome B) (x : B)
    → check b e >> k ≡ done x
    → (b ≡ true) × (k ≡ done x)
check-done true e k x h = (refl, h)
check-done false e k x h = ground (arith, h)

pub bind-done :
    {A B : Type 0} (m : Outcome A) (f : A → Outcome B) (x : B)
    → m >>= f ≡ done x
    → (a : A) × (m ≡ done a) × (f a ≡ done x)
bind-done (done a) f x h = (a, refl, h)
bind-done (fail e) f x h = ground (arith, h)

pub seq-done :
    {A B : Type 0} (m : Outcome A) (k : Outcome B) (x : B)
    → m >> k ≡ done x
    → (a : A) × (m ≡ done a) × (k ≡ done x)
seq-done (done a) k x h = (a, refl, h)
seq-done (fail e) k x h = ground (arith, h)

pub Gives-Whenever :
    {A : Type 0} (m : Outcome A) (P Q : A → Type 0)
    → Gives m P
    → Whenever m Q
    → Gives m (λ a. P a × Q a)
Gives-Whenever (done a) P Q p q = (p, q)
Gives-Whenever (fail e) P Q p q = p
