-- ===== src/Db/Keeps.antt =====
-- Properties of the database that a transaction keeps, with one rule for each way to build it.
use advisoryhub.Prelude.{suc, ◌≡◌, refl, Bool, true, false, Option, none, some, if◌then◌else◌}
use advisoryhub.Db.{
  Db, M, Result, ok, err, Error, Post, pure, raise, ◌>>=◌, ◌>>◌, require, require_not, gets, modify,
  take_pk, when, or_raise,
}

-- If `m` returns, the property holds of the database that it leaves, where it held before.
pub record Keeps (P : Db → Type 0) {A : Type 0} (m : M A) : Type 0 where
  pub at : (db : Db) → P db → Post (m db) (λ a db'. P db')

module _ {P : Db → Type 0} {A : Type 0} where
  pub Keeps-pure : (a : A) → Keeps P (pure a)
  Keeps-pure a = record { at = λ db h. h }

  pub Keeps-raise : (e : Error) → Keeps P (raise {A = A} e)
  Keeps-raise e = record { at = λ db h. tt }

  pub Keeps-gets : (f : Db → A) → Keeps P (gets f)
  Keeps-gets f = record { at = λ db h. h }

  pub Keeps-or_raise : (o : Option A) (e : Error) → Keeps P (or_raise o e)
  Keeps-or_raise none e = record { at = λ db h. tt }
  Keeps-or_raise (some a) e = record { at = λ db h. h }

  pub Keeps-if :
      (then_m else_m : M A) (test : Bool)
      → (test ≡ false → Keeps P else_m)
      → (test ≡ true → Keeps P then_m)
      → Keeps P (if test then then_m else else_m)
  Keeps-if then_m else_m false off on = off refl
  Keeps-if then_m else_m true off on = on refl

module _ {P : Db → Type 0} where
  pub Keeps-modify : (f : Db → Db) → ((db : Db) → P db → P (f db)) → Keeps P (modify f)
  Keeps-modify f h = record { at = h }

  pub Keeps-take_pk :
      ((db : Db) → P db → P (record db { next_pk = suc db.next_pk })) → Keeps P take_pk
  Keeps-take_pk h = record { at = h }

  pub Keeps-require : (b : Bool) (e : Error) → Keeps P (require b e)
  Keeps-require true e = record { at = λ db h. h }
  Keeps-require false e = record { at = λ db h. tt }

  pub Keeps-require_not : (b : Bool) (e : Error) → Keeps P (require_not b e)
  Keeps-require_not true e = record { at = λ db h. tt }
  Keeps-require_not false e = record { at = λ db h. h }

  pub Keeps-when : (b : Bool) (m : M (Unit {0})) → (b ≡ true → Keeps P m) → Keeps P (when b m)
  Keeps-when true m k = k refl
  Keeps-when false m k = record { at = λ db h. h }

after :
    {P : Db → Type 0} {A B : Type 0} (r : Result A) (f : A → M B)
    → Post r (λ a db. P db)
    → ((a : A) → Keeps P (f a))
    → Post (elim r [ ok a db ↦ f a db | err e ↦ err e ]) (λ b db. P db)
after (ok a db) f h k = (k a).at db h
after (err e) f h k = tt

module _ {P : Db → Type 0} {A B : Type 0} where
  pub Keeps->>= :
      (m : M A) (f : A → M B) → Keeps P m → ((a : A) → Keeps P (f a)) → Keeps P (m >>= f)
  Keeps->>= m f km kf = record { at = λ db h. after {P = P} (m db) f (km.at db h) kf }

  pub Keeps->> : (m : M A) (k : M B) → Keeps P m → Keeps P k → Keeps P (m >> k)
  Keeps->> m k km kk = record { at = λ db h. after {P = P} (m db) (λ _. k) (km.at db h) (λ _. kk) }

-- What follows a check may use that it passed.
pub Keeps-checked :
    {P : Db → Type 0} {B : Type 0} (b : Bool) (e : Error) (k : M B)
    → (b ≡ true → Keeps P k)
    → Keeps P (require b e >> k)
Keeps-checked true e k h = record { at = (h refl).at }
Keeps-checked false e k h = record { at = λ db p. tt }

pub ruleset keeps_rules = (
  Keeps-pure, Keeps-raise, Keeps-gets, Keeps-or_raise, Keeps-if, Keeps-require, Keeps-require_not,
  Keeps-when, Keeps->>=, Keeps->>,
)
