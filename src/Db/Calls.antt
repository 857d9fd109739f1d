-- ===== src/Db/Calls.antt =====
-- What holds of calls that return, one after the other.
use advisoryhub.Db.{Db, M, Result, ok, err, Returns}

-- A call returns with `Q` of what it returns, if its first part returns with `P` and `P` suffices.
pub Returns->>= :
    {A B : Type 0} (m : Result A) (f : A → M B) (P : A → Db → Type 0) (Q : B → Db → Type 0)
    → Returns m P
    → ((a : A) (db : Db) → P a db → Returns (f a db) Q)
    → Returns (elim m [ ok a db ↦ f a db | err e ↦ err e ]) Q
Returns->>= (ok a db) f P Q p k = k a db p
Returns->>= (err e) f P Q p k = p

pub Returns-mono :
    {A : Type 0} (m : Result A) (P Q : A → Db → Type 0)
    → Returns m P
    → ((a : A) (db : Db) → P a db → Q a db)
    → Returns m Q
Returns-mono (ok a db) P Q p k = k a db p
Returns-mono (err e) P Q p k = p

pub Returns-and :
    {A : Type 0} (m : Result A) (P Q : A → Db → Type 0)
    → Returns m P
    → Returns m Q
    → Returns m (λ a db. P a db × Q a db)
Returns-and (ok a db) P Q p q = (p, q)
Returns-and (err e) P Q p q = p

-- What holds of each `j` holds of all.
pub Returns-all :
    {A J : Type 0} (m : Result A) (P : J → A → Db → Type 0)
    → J
    → ((j : J) → Returns m (P j))
    → Returns m (λ a db. (j : J) → P j a db)
Returns-all (ok a db) P j0 h = h
Returns-all (err e) P j0 h = h j0
