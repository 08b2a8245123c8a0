-- ===== src/Db/Connections.antt =====
-- server/src/db/pool.js and server/src/db/withTransaction.js as the statements that one connection
-- sends: what becomes of the connection, and of a transaction on each path. Postgres is the parameter
-- `server`.
pub mod Atomic
use mathlib.Core.Path.{subst}
use ticket_booking_system.Common.{
  Bool-cases, ℕ, ◌+◌, ◌-◌, ◌<◌, Bool, true, false, ◌&&◌, Option, none, some, ◌≡◌, ◌⊎◌, inl, inr,
  refl, sym, ap, arith, ltb, if◌then◌else◌,
}
use ticket_booking_system.Errors.{Error, Result, ok, err, internal, is_ok}
use ticket_booking_system.Db.{Db}
use ticket_booking_system.Db.Tx.{Tx, Call, with_transaction}

-- The pool: the limit PGPOOL_MAX, and how many clients are checked out.
pub record Pool : Type 0 where
  pub max : ℕ
  pub out : ℕ

-- `pool.connect()`. Where every client is checked out it waits for one, without a limit, and there is
-- no result yet; it fails where the server does not answer.
unfoldable pub connect : Bool → Pool → Option (Result Pool)
connect answered pool =
    if ltb pool.out pool.max
    then some (if answered then ok (record pool { out = pool.out + 1 }) else err internal)
    else none

-- `client.release()`
unfoldable pub release : Pool → Pool
release pool = record pool { out = pool.out - 1 }

-- What a connection sees: the committed database, and that of its open transaction.
pub record Session : Type 0 where
  pub committed : Db
  pub working : Option Db

pub data Statement : Type 0 where
  begin set_timeout commit rollback : Statement

abbrev pub Server : Type 0
Server = Statement → Session → Result (Unit {0}) × Session

-- What Postgres documents of these statements. Each may fail; one that fails commits nothing, and a
-- ROLLBACK ends the transaction even then, since the connection is gone.
pub record IsPostgres (server : Server) : Type 0 where
  pub begins :
      (db : Db)
      → (server begin (record { committed = db; working = none })
          ≡ (ok tt, record { committed = db; working = some db }))
        ⊎ ((e : Error) × (server begin (record { committed = db; working = none })
              ≡ (err e, record { committed = db; working = none })))
  pub times :
      (s : Session)
      → (server set_timeout s ≡ (ok tt, s)) ⊎ ((e : Error) × (server set_timeout s ≡ (err e, s)))
  pub commits :
      (db work : Db)
      → (server commit (record { committed = db; working = some work })
          ≡ (ok tt, record { committed = work; working = none }))
        ⊎ ((e : Error) × (server commit (record { committed = db; working = some work })
              ≡ (err e, record { committed = db; working = none })))
  pub rolls_back :
      (s : Session)
      → (server rollback s ≡ (ok tt, record s { working = none }))
        ⊎ ((e : Error) × (server rollback s ≡ (err e, record s { working = none })))

-- `fn(client)`: the statements of `fn` on the open transaction.
abbrev pub worked : {A : Type 0} → Session → Result (A × Db) → Result A × Session
worked s (ok (a, work)) = (ok a, record s { working = some work })
worked s (err e) = (err e, s)

unfoldable pub run_in : {A : Type 0} → Tx A → Session → Result A × Session
run_in fn s = elim s.working [ none ↦ (err internal, s) | some work ↦ worked s (fn work) ]

abbrev pub rolled : {A : Type 0} → Error → Result (Unit {0}) × Session → Result A × Session
rolled e (ok u, s) = (err e, s)
rolled e (err e', s) = (err e', s)

module _ (server : Server) where
  -- The catch: ROLLBACK, and the error again; where ROLLBACK fails, its own error.
  unfoldable pub roll_back : {A : Type 0} → Error → Session → Result A × Session
  roll_back e s = rolled e (server rollback s)

  -- A statement of the try block, and what follows it.
  abbrev pub attempt :
      {A B : Type 0} → Result A × Session → (A → Session → Result B × Session) → Result B × Session
  attempt (ok a, s) next = next a s
  attempt (err e, s) next = roll_back e s

  -- The try block and its catch.
  unfoldable pub transact : {A : Type 0} → Tx A → Session → Result A × Session
  unfolding run_in roll_back
  transact fn s = attempt (server begin s) λ _ s1.
      attempt (server set_timeout s1)
        λ _ s2. attempt (run_in fn s2) λ a s3. attempt (server commit s3) λ _ s4. (ok a, s4)

  -- What follows the checkout: the client goes back to the pool whatever has happened.
  abbrev pub on_checkout :
      {A : Type 0} → Tx A → Pool → Session → Result Pool → Result A × (Pool × Session)
  on_checkout fn pool s (ok pool') =
      let (result, s') = transact fn s in (result, (release pool', s'))
  on_checkout fn pool s (err e) = (err e, (pool, s))

  -- `withTransaction`; `none` while it waits for a client.
  unfoldable pub transact_on_client :
      {A : Type 0} → Bool → Tx A → Pool → Session → Option (Result A × (Pool × Session))
  unfolding transact connect release
  transact_on_client answered fn pool s = elim (connect answered pool) [
    | none ↦ none
    | some c ↦ some (on_checkout fn pool s c)
  ]
