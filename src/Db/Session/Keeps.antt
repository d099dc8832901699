-- ===== src/Db/Session/Keeps.antt =====
-- Rules for sessions: what holds before a session and after each way to its commit holds after it.
use wolt.Prelude.{◌≡◌, refl, true, arith}
use wolt.Errors.{Result, ok, err, Error, integrity_error}
use wolt.Db.{Db, constraints}
use wolt.Db.Session.{
  Tx, ◌>>=◌, ◌>>◌, pure, finish, with_session, commit, modify, catch_integrity, on_integrity_error,
}

module _ {A : Type 0} where
  finish-keeps :
      (P : Db → Type 0) (db : Db) (r : Result (A × Db))
      → P db
      → ((a : A) (db' : Db) → r ≡ ok (a, db') → P db')
      → P (finish db r).1
  finish-keeps P db (ok (a, db')) h keep = keep a db' refl
  finish-keeps P db (err e) h keep = h

  pub with_session-keeps :
      (P : Db → Type 0) (m : Tx A) (db : Db)
      → P db
      → ((a : A) (db' : Db) → m db ≡ ok (a, db') → P db')
      → P (with_session m db).1
  with_session-keeps P m db h keep = finish-keeps P db (m db) h keep

  -- A session that raises leaves the database as it was.
  pub with_session-err :
      (m : Tx A) (db : Db) (e : Error) → (with_session m db).0 ≡ err e → (with_session m db).1 ≡ db
  with_session-err m db e h = ground arith

-- Inversion of a bind.
module _ {A B : Type 0} where
  bind_result :
      (r : Result (A × Db)) (f : A → Tx B) (b : B) (db' : Db)
      → (elim r [ ok (a, d) ↦ f a d | err e ↦ err e ]) ≡ ok (b, db')
      → (a : A) × (d : Db) × (r ≡ ok (a, d)) × (f a d ≡ ok (b, db'))
  bind_result (ok (a, d)) f b db' h = (a, d, refl, h)
  bind_result (err e) f b db' h = ground arith

  pub >>=-eq-ok :
      (m : Tx A) (f : A → Tx B) (db : Db) (b : B) (db' : Db)
      → (m >>= f) db ≡ ok (b, db')
      → (a : A) × (d : Db) × (m db ≡ ok (a, d)) × (f a d ≡ ok (b, db'))
  >>=-eq-ok m f db b db' h = bind_result (m db) f b db' h

-- What a handler of `IntegrityError` passes on was no exception.
caught-ok :
    {A : Type 0} (e : Error) (r : Result A) (a : A) → on_integrity_error e r ≡ ok a → r ≡ ok a
caught-ok e (ok b) a h = h
caught-ok e (err integrity_error) a h = ground arith
caught-ok e (err _) a h = h

-- A commit that succeeds has checked the constraints and changed nothing.
pub commit-ok :
    (db db' : Db) (u : Unit {0}) → commit db ≡ ok (u, db') → (constraints db ≡ true) × (db' ≡ db)
commit-ok db db' u h = ground arith

-- One change, a caught commit, and a result.
pub save-ok :
    {A : Type 0} (e : Error) (f : Db → Db) (a b : A) (db db' : Db)
    → (modify f >> (catch_integrity e commit >> pure a)) db ≡ ok (b, db')
    → (constraints (f db) ≡ true) × (b ≡ a) × (db' ≡ f db)
save-ok e f a b db db' h =
    let (u, d, saved, same) = >>=-eq-ok (catch_integrity e commit) (λ _. pure a) (f db) b db' h in
    let (c, eq) = commit-ok (f db) d u (caught-ok e (commit (f db)) (u, d) saved) in
    (c, ground arith, ground arith)

-- One change, a flush, one more change, a commit, and a result.
pub insert-ok :
    {A : Type 0} (e : Error) (f g : Db → Db) (a b : A) (db db' : Db)
    → (modify f >> (catch_integrity e (commit >> (modify g >> commit)) >> pure a)) db ≡ ok (b, db')
    → (constraints (g (f db)) ≡ true) × (b ≡ a) × (db' ≡ g (f db))
insert-ok e f g a b db db' h =
    let body : Tx (Unit {0}) = commit >> (modify g >> commit) in
    let (u, d, saved, same) = >>=-eq-ok (catch_integrity e body) (λ _. pure a) (f db) b db' h in
    let (v, d', flushed, committed) =
      >>=-eq-ok commit (λ _. modify g >> commit) (f db) u d
        (caught-ok e (body (f db)) (u, d) saved) in
    let (_, unchanged) = commit-ok (f db) d' v flushed in
    let (c, eq) = commit-ok (g d') d u committed in (rw (← unchanged) c, ground arith, ground arith)
