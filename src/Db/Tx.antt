-- ===== src/Db/Tx.antt =====
-- server/src/db/withTransaction.js. The statements of a transaction pass the database on; the
-- first error ends it. `now()` is fixed when a transaction starts, so it is an argument of each
-- statement that reads it.
use ticket_booking_system.Common.{
  Bool, true, false, Option, none, some, ◌≡◌, ◌⊎◌, inl, inr, refl, ap, arith,
}
use ticket_booking_system.Errors.{Error, Result, ok, err, is_ok}
use ticket_booking_system.Db.{Db}

abbrev pub Tx : Type 0 → Type 0
Tx A = Db → Result (A × Db)

module _ {A : Type 0} where
  abbrev pub pure : A → Tx A
  pure a db = ok (a, db)

  abbrev pub throw : Error → Tx A
  throw e db = err e

  -- A read.
  abbrev pub query : (Db → A) → Tx A
  query f db = ok (f db, db)

  -- A pure check such as `assertTransition`.
  abbrev pub lift : Result A → Tx A
  lift (ok a) db = ok (a, db)
  lift (err e) db = err e

infixl 5 ◌>>=◌ ◌>>◌
abbrev pub ◌>>=◌ : {A B : Type 0} → Tx A → (A → Tx B) → Tx B
◌>>=◌ m f db = elim (m db) [ ok (a, db') ↦ f a db' | err e ↦ err e ]

abbrev pub ◌>>◌ : {A B : Type 0} → Tx A → Tx B → Tx B
m >> k = m >>= λ _. k

abbrev pub throw_if : Bool → Error → Tx (Unit {0})
throw_if true e = throw e
throw_if false e = pure tt

abbrev pub or_throw : {A : Type 0} → Option A → Error → Tx A
or_throw none e = throw e
or_throw (some a) e = pure a

-- What a service call leaves behind: its result, and the committed database.
abbrev pub Call : Type 0 → Type 0
Call A = Db → Result A × Db

-- COMMIT on success; ROLLBACK on an error, which is thrown again.
abbrev pub finish : {A : Type 0} → Db → Result (A × Db) → Result A × Db
finish db (ok (a, db')) = (ok a, db')
finish db (err e) = (err e, db)

unfoldable pub with_transaction : {A : Type 0} → Tx A → Call A
with_transaction fn db = finish db (fn db)

pub rolled_back :
    {A : Type 0} (db : Db) (r : Result (A × Db))
    → is_ok (finish db r).0 ≡ false
    → (finish db r).1 ≡ db
rolled_back db (ok r) h = cc
rolled_back db (err e) h = refl

-- What a transaction that commits has done.
pub committed :
    {A : Type 0} (db : Db) (r : Result (A × Db))
    → is_ok (finish db r).0 ≡ true
    → (a : A) × (r ≡ ok (a, (finish db r).1))
committed db (ok (a, db')) h = (a, refl)
committed db (err e) h = cc

pub finish-ok :
    {A : Type 0} (db : Db) (r : Result (A × Db)) {a : A} {db' : Db}
    → finish db r ≡ (ok a, db')
    → r ≡ ok (a, db')
finish-ok db (ok (a, db₁)) h = ground arith
finish-ok db (err e) h = absurd (cc (ap (λ x. x.0) h))

-- What holds before a transaction, and after it where it commits, holds after the call.
pub finish_lem {κ} :
    {A : Type 0} (P : Db → Type κ) (db : Db) (r : Result (A × Db))
    → P db
    → ((a : A) (db' : Db) → r ≡ ok (a, db') → P db')
    → P (finish db r).1
finish_lem P db (ok (a, db')) before after = after a db' refl
finish_lem P db (err e) before after = before

-- A call succeeds, or it leaves the database as it is.
pub finish-cases :
    {A : Type 0} (db : Db) (r : Result (A × Db))
    → ((a : A) × (finish db r ≡ (ok a, (finish db r).1))) ⊎ ((finish db r).1 ≡ db)
finish-cases db (ok (a, db')) = inl (a, refl)
finish-cases db (err e) = inr refl
