-- ===== src/Db/Session.antt =====
-- Sessions (app/infrastructure/database/connection.py): state passing with exceptions.
pub mod Keeps
use wolt.Prelude.{Bool, true, false, Option, none, some, List, [], ◌∷◌}
use wolt.Errors.{Error, Result, ok, err, integrity_error, no_result_found, multiple_results_found}
use wolt.Db.{Db, constraints}

-- The body of a session.
abbrev pub Tx : Type 0 → Type 0
Tx A = Db → Result (A × Db)

infixl 5 ◌>>=◌ ◌>>◌
abbrev pub ◌>>=◌ : {A B : Type 0} → Tx A → (A → Tx B) → Tx B
◌>>=◌ m f db = elim (m db) [ ok (a, db') ↦ f a db' | err e ↦ err e ]

abbrev pub ◌>>◌ : {A B : Type 0} → Tx A → Tx B → Tx B
m >> k = m >>= λ _. k

abbrev pub pure : {A : Type 0} → A → Tx A
pure a db = ok (a, db)

abbrev pub raise : {A : Type 0} → Error → Tx A
raise e db = err e

abbrev pub raise_if : Bool → Error → Tx Unit
raise_if true e = raise e
raise_if false e = pure tt

abbrev pub gets : {A : Type 0} → (Db → A) → Tx A
gets f db = ok (f db, db)

abbrev pub lift : {A : Type 0} → Result A → Tx A
lift (ok a) = pure a
lift (err e) = raise e

abbrev pub modify : (Db → Db) → Tx Unit
modify f db = ok (tt, f db)

-- `session.flush()` and `session.commit()`: the constraints are checked.
abbrev pub commit : Tx Unit
commit db = elim (constraints db) [ true ↦ ok (tt, db) | false ↦ err integrity_error ]

-- `except IntegrityError: raise e`
abbrev pub on_integrity_error : {A : Type 0} → Error → Result A → Result A
on_integrity_error e (err integrity_error) = err e
on_integrity_error e r = r

abbrev pub catch_integrity : {A : Type 0} → Error → Tx A → Tx A
catch_integrity e m db = on_integrity_error e (m db)

-- The session as a whole: an exception, with no commit before it, leaves the database as it was.
abbrev pub finish : {A : Type 0} → Db → Result (A × Db) → Result A × Db
finish db (ok (a, db')) = (ok a, db')
finish db (err e) = (err e, db)

abbrev pub with_session : {A : Type 0} → Tx A → Db → Result A × Db
with_session m db = finish db (m db)

-- `.one_or_none()` on the rows of a query.
abbrev pub one_or_none : {A : Type 0} → List A → Result (Option A)
one_or_none [] = ok none
one_or_none (x ∷ []) = ok (some x)
one_or_none (x ∷ y ∷ r) = err multiple_results_found

-- `.scalar_one()` on a row found by its primary key.
abbrev pub scalar_one : {A : Type 0} → Option A → Result A
scalar_one none = err no_result_found
scalar_one (some a) = ok a
