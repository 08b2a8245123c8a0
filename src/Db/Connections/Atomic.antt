-- ===== src/Db/Connections/Atomic.antt =====
-- A transaction on a connection is atomic, and its client goes back to the pool.
use mathlib.Core.Path.{subst}
use ticket_booking_system.Common.{
  ◌<◌, ◌+◌, Bool, true, false, none, some, ◌≡◌, ◌⊎◌, inl, inr, refl, sym, ap, arith, ltb,
}
use ticket_booking_system.Errors.{Error, Result, ok, err, internal, is_ok}
use ticket_booking_system.Db.{Db}
use ticket_booking_system.Db.Tx.{Tx, with_transaction}
use ticket_booking_system.Db.Connections.{
  Pool, connect, release, Session, Server, IsPostgres, set_timeout, commit, worked, run_in, rolled,
  roll_back, attempt, transact, transact_on_client, on_checkout, Statement, begin, rollback,
}

module _ (server : Server) where
  -- The server fails a statement.
  abbrev pub Fault : Type 0
  Fault = (st : Statement) × ((s : Session) × ((e : Error) × ((server st s).0 ≡ err e)))

  -- A run of the try block ends its transaction, and does what the atomic `with_transaction` does or,
  -- where the server fails a statement, fails and commits nothing.
  abbrev pub IsAtomic : {A : Type 0} → Tx A → Db → Result A × Session → Type 0
  IsAtomic fn db r =
      (r.1.working ≡ none)
      × (((r.0, r.1.committed) ≡ with_transaction fn db)
          ⊎ (Fault × ((is_ok r.0 ≡ false) × (r.1.committed ≡ db))))

  module _ (postgres : IsPostgres server) where
    roll_back-error :
        {A : Type 0} (e : Error) (s : Session)
        → (e' : Error) × (roll_back server {A = A} e s ≡ (err e', record s { working = none }))
    unfolding roll_back
    roll_back-error e s = elim (postgres.rolls_back s) [
      | inl done ↦ (e, ap (rolled e) done)
      | inr (e', lost) ↦ (e', ap (rolled e) lost)
    ]

    roll_back-IsAtomic :
        {A : Type 0} (fn : Tx A) (db : Db) (e : Error) (s : Session)
        → s.committed ≡ db
        → Fault
        → IsAtomic fn db (roll_back server e s)
    roll_back-IsAtomic {A} fn db e s same fault =
        let (e', ended) = roll_back-error {A = A} e s in
        subst (IsAtomic fn db) (sym ended) (refl, inr (fault, (refl, same)))

    module _ {A : Type 0} (fn : Tx A) (db : Db) where
      abbrev after_work : A → Session → Result A × Session
      after_work a s = attempt server (server commit s) λ _ s'. (ok a, s')

      commits-IsAtomic :
          (a : A) (work : Db)
          → fn db ≡ ok (a, work)
          → IsAtomic fn db (after_work a (record { committed = db; working = some work }))
      unfolding with_transaction
      commits-IsAtomic a work h = elim (postgres.commits db work) [
        | inl done ↦
            subst (λ c. IsAtomic fn db (attempt server c λ _ s'. (ok a, s'))) (sym done)
              (refl, inl (rw h refl))
        | inr (e, failed) ↦
            subst (λ c. IsAtomic fn db (attempt server c λ _ s'. (ok a, s'))) (sym failed)
              (roll_back-IsAtomic fn db e (record { committed = db; working = none }) refl
                (commit, (_, (e, ap (λ r. r.0) failed))))
      ]

      -- What `fn` throws is thrown again, where the ROLLBACK does not fail.
      refused-IsAtomic :
          (e : Error)
          → fn db ≡ err e
          → IsAtomic fn db (roll_back server e (record { committed = db; working = some db }))
      unfolding roll_back with_transaction
      refused-IsAtomic e h = elim (postgres.rolls_back _) [
        | inl done ↦ subst (λ c. IsAtomic fn db (rolled e c)) (sym done) (refl, inl (rw h refl))
        | inr (e', lost) ↦
            subst (λ c. IsAtomic fn db (rolled e c)) (sym lost)
              (refl, inr ((rollback, (_, (e', ap (λ r. r.0) lost))), (refl, refl)))
      ]

      worked-IsAtomic :
          (r : Result (A × Db))
          → fn db ≡ r
          → IsAtomic fn db
              (attempt server (worked (record { committed = db; working = some db }) r) after_work)
      worked-IsAtomic (ok (a, work)) h = commits-IsAtomic a work h
      worked-IsAtomic (err e) h = refused-IsAtomic e h

      begun-IsAtomic : IsAtomic fn db (
          attempt server
            (server set_timeout (record { committed = db; working = some db }))
            λ _ s2. attempt server (run_in fn s2) after_work)
      unfolding run_in
      begun-IsAtomic = elim (postgres.times (record { committed = db; working = some db })) [
        | inl done ↦
            subst
              (λ c.
                IsAtomic fn db (attempt server c λ _ s2. attempt server (run_in fn s2) after_work))
              (sym done) (worked-IsAtomic (fn db) refl)
        | inr (e, failed) ↦
            subst
              (λ c.
                IsAtomic fn db (attempt server c λ _ s2. attempt server (run_in fn s2) after_work))
              (sym failed)
              (roll_back-IsAtomic fn db e (record { committed = db; working = some db }) refl
                (set_timeout, (_, (e, ap (λ r. r.0) failed))))
      ]

      transact-IsAtomic :
          IsAtomic fn db (transact server fn (record { committed = db; working = none }))
      unfolding transact
      transact-IsAtomic = elim (postgres.begins db) [
        | inl done ↦
            subst
              (λ c. IsAtomic fn db (
                attempt server c λ _ s1.
                  attempt server (server set_timeout s1)
                    λ _ s2. attempt server (run_in fn s2) after_work))
              (sym done) begun-IsAtomic
        | inr (e, failed) ↦
            subst
              (λ c. IsAtomic fn db (
                attempt server c λ _ s1.
                  attempt server (server set_timeout s1)
                    λ _ s2. attempt server (run_in fn s2) after_work))
              (sym failed)
              (roll_back-IsAtomic fn db e (record { committed = db; working = none }) refl
                (begin, (_, (e, ap (λ r. r.0) failed))))
      ]

      released : (pool : Pool) → release (record pool { out = pool.out + 1 }) ≡ pool
      unfolding release
      released pool = ground arith

      -- The client is back in the pool, and the transaction was atomic; or the server did not answer.
      abbrev pub IsSafe : Bool → Pool → Result A × (Pool × Session) → Type 0
      IsSafe answered pool r =
          (r.1.0 ≡ pool)
          × (IsAtomic fn db (r.0, r.1.1)
              ⊎ ((answered ≡ false)
                  × (r ≡ (err internal, (pool, record { committed = db; working = none })))))

      checked_out-IsSafe :
          (pool : Pool)
          → IsSafe true pool (
              on_checkout server fn pool
                (record { committed = db; working = none })
                (ok (record pool { out = pool.out + 1 })))
      checked_out-IsSafe pool = (released pool, inl transact-IsAtomic)

      is_free : (pool : Pool) → pool.out < pool.max → ltb pool.out pool.max ≡ true
      is_free pool free = ground arith

      -- Where Postgres does what it documents, `withTransaction` on a connection with no open
      -- transaction, of a pool that has a free client: it returns, and as many clients are checked out
      -- after it as before. Where the server does not answer it fails and does nothing. Else no
      -- transaction is left open, and its result and the committed database are those of the atomic
      -- `with_transaction`, unless the server fails a statement: then they are those too, or it fails
      -- and nothing is committed.
      pub transact_on_client-IsSafe :
          (answered : Bool) (pool : Pool)
          → pool.out < pool.max
          → (r : Result A × (Pool × Session)) × ((transact_on_client server answered fn pool
                  (record { committed = db; working = none })
                ≡ some r)
              × IsSafe answered pool r)
      unfolding transact_on_client connect
      transact_on_client-IsSafe true pool free =
          (_, (rw (is_free pool free, transact_on_client) refl, checked_out-IsSafe pool))
      transact_on_client-IsSafe false pool free =
          (_, (rw (is_free pool free, transact_on_client) refl, (refl, inr (refl, refl))))
