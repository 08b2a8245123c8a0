-- ===== src/Holds/Effect.antt =====
-- What `createHold` leaves behind, row by row.
use ticket_booking_system.Common.{
  ℕ, ◌+◌, ◌*◌, none, ◌≡◌, refl, inl, inr, Bool, true, false, ◌&&◌, List, arith, some, ◌==◌, leb,
  ltb, Bool-cases, Option-cases, contains, length, All, All-at, All-mono, All-unit, ==_refl,
}
use ticket_booking_system.SeatStates.{available, held, state_eq}
use ticket_booking_system.Errors.{is_ok}
use ticket_booking_system.Sql.{exists, update_where}
use ticket_booking_system.Sql.Laws.{Rows, Rows-update_where}
use ticket_booking_system.Sql.Keys.{IsUnique, IsUnique-All}
use ticket_booking_system.Db.{Db, ShowSeat, Show, Env}
use ticket_booking_system.Db.Tx.{finish, rolled_back}
use ticket_booking_system.Seatmap.{find_show_by_id, effective_state}
use ticket_booking_system.Holds.{
  create_hold, hold_transaction, is_candidate, acquired_row, is_acquirable,
}
use ticket_booking_system.Holds.Acquire.{
  same_seat, is_free, takes, acquired_ids, is_acquirable-effective_state, is_acquirable-available,
}
use ticket_booking_system.Holds.AllOrNothing.{create_hold_all_free}

-- Of a requested row: it was effectively available and is now held under the new hold until the
-- time to live has passed. Of any other row: it is as it was.
abbrev pub IsTaken : ℕ → ℕ → List ℕ → ℕ → ℕ → ℕ → ShowSeat → ShowSeat → Type 0
IsTaken now show_id seat_ids hold_id user_id ttl_seconds r t =
    (is_candidate show_id seat_ids r ≡ true
      → (effective_state now r ≡ available)
        × (t ≡ record r {
          state = held;
          hold_id = some hold_id;
          held_by_user_id = some user_id;
          expires_at = some (now + ttl_seconds * 1000000);
          reserved_until = none;
          version = r.version + 1;
          updated_at = now;
        }))
    × (is_candidate show_id seat_ids r ≡ false → t ≡ r)

-- Where each requested id is free, each requested row can be acquired.
candidates_acquirable :
    (now show_id : ℕ) (seat_ids : List ℕ) (db : Db)
    → IsUnique same_seat db.show_seats
    → ((a : ℕ) → contains seat_ids a ≡ true → is_free now show_id a db ≡ true)
    → All (λ r. is_candidate show_id seat_ids r ≡ true → is_acquirable now r ≡ true) db.show_seats
candidates_acquirable now show_id seat_ids db unique free =
    All-mono
      (λ r. contains seat_ids r.seat_id ≡ true → at r.seat_id r ≡ true → q r.seat_id r ≡ true)
      (λ r. is_candidate show_id seat_ids r ≡ true → is_acquirable now r ≡ true) db.show_seats
      (λ r h c. ground (arith, h, ==_refl r.seat_id, is_acquirable-effective_state now r))
      (All-at (λ a r. contains seat_ids a ≡ true → at a r ≡ true → q a r ≡ true) (λ r. r.seat_id)
        db.show_seats each)
  where
    at : ℕ → ShowSeat → Bool
    at a r = r.show_id == show_id && r.seat_id == a

    q : ℕ → ShowSeat → Bool
    q a r = r.show_id == show_id && r.seat_id == a && state_eq (effective_state now r) available

    each :
        (a : ℕ) → All (λ r. contains seat_ids a ≡ true → at a r ≡ true → q a r ≡ true) db.show_seats
    each a = elim (Bool-cases (contains seat_ids a)) [
      | inl e ↦
          All-mono (λ r. at a r ≡ true → q a r ≡ true)
            (λ r. contains seat_ids a ≡ true → at a r ≡ true → q a r ≡ true) db.show_seats
            (λ r h _. h)
            (IsUnique-All same_seat (at a) (q a) db.show_seats (λ r t m n. ground arith)
              (λ r m. ground arith) unique (free a e))
      | inr e ↦
          All-mono (λ r. Unit {0}) (λ r. contains seat_ids a ≡ true → at a r ≡ true → q a r ≡ true)
            db.show_seats (λ r _ c. absurd (cc)) (All-unit db.show_seats)
    ]

module _ (env : Env) (now fresh_id show_id : ℕ) (seat_ids : List ℕ) (user_id : ℕ) (db : Db) where
  -- A failed call rolls back.
  pub create_hold_rollback :
      is_ok (create_hold env now fresh_id show_id seat_ids user_id db).0 ≡ false
      → (create_hold env now fresh_id show_id seat_ids user_id db).1 ≡ db
  unfolding create_hold
  create_hold_rollback failed =
      elim (Bool-cases (ltb env.max_seats_per_booking (length seat_ids))) [
        | inl many ↦ rw many
        | inr few ↦ elim (Option-cases (find_show_by_id show_id db)) [
          | inl missing ↦ rw few (rw missing)
          | inr (show, found) ↦ rw few (
              rw found (
                rolled_back db
                  (hold_transaction now fresh_id show_id seat_ids user_id show.hold_ttl_seconds db)
                  (rw few at (rw found at failed))))
        ]
      ]

  committed_hold :
      (show : Show)
      → let r =
          finish db
            (hold_transaction now fresh_id show_id seat_ids user_id show.hold_ttl_seconds db) in
        is_ok r.0 ≡ true
        → (leb (length seat_ids) (length (acquired_ids now show_id seat_ids db)) ≡ true)
          × (r.1.show_seats
              ≡ update_where
                  (takes now show_id seat_ids)
                  (acquired_row now fresh_id user_id show.hold_ttl_seconds)
                  db.show_seats)
  unfolding hold_transaction
  committed_hold show = elim (Bool-cases (exists (λ h. h.id == fresh_id) db.seat_holds)) [
    | inl used ↦ rw (used, is_ok, finish) (λ h. absurd (cc h))
    | inr fresh ↦
        elim (Bool-cases (ltb (length (acquired_ids now show_id seat_ids db)) (length seat_ids))) [
          | inl short ↦ rw (fresh, is_ok, finish) (rw (short, is_ok, finish) (λ h. absurd (cc h)))
          | inr enough ↦
              rw (fresh, is_ok, finish) (rw (enough, is_ok, finish) (λ h. (ground arith, refl)))
        ]
  ]

  -- A successful call got every seat, and its UPDATE is what it leaves.
  pub create_hold_commit :
      (show : Show)
      → find_show_by_id show_id db ≡ some show
      → is_ok (create_hold env now fresh_id show_id seat_ids user_id db).0 ≡ true
      → (leb (length seat_ids) (length (acquired_ids now show_id seat_ids db)) ≡ true)
        × ((create_hold env now fresh_id show_id seat_ids user_id db).1.show_seats
            ≡ update_where
                (takes now show_id seat_ids)
                (acquired_row now fresh_id user_id show.hold_ttl_seconds)
                db.show_seats)
  unfolding create_hold
  create_hold_commit show found h =
      elim (Bool-cases (ltb env.max_seats_per_booking (length seat_ids))) [
        | inl many ↦ absurd (cc (rw many at h))
        | inr few ↦ rw few (rw found (committed_hold show (rw few at (rw found at h))))
      ]

  -- For a known show and unique seats, `createHold` is all or nothing. If it succeeds, each row of
  -- the requested seats was effectively available and is now held under the new hold until now plus
  -- the show's time to live, and every other row is as it was; if it fails, the whole database is as
  -- it was.
  pub create_hold_all_or_nothing :
      (show : Show)
      → find_show_by_id show_id db ≡ some show
      → IsUnique same_seat db.show_seats
      → let (result, db') = create_hold env now fresh_id show_id seat_ids user_id db in
        (is_ok result ≡ true
          → Rows
              (IsTaken now show_id seat_ids fresh_id user_id show.hold_ttl_seconds)
              db.show_seats
              db'.show_seats)
        × (is_ok result ≡ false → db' ≡ db)
  create_hold_all_or_nothing show found unique = (
    λ succeeded.
        let (enough, update) = create_hold_commit show found succeeded in
        rw update (
          Rows-update_where
            (λ r. is_candidate show_id seat_ids r ≡ true → is_acquirable now r ≡ true)
            (IsTaken now show_id seat_ids fresh_id user_id show.hold_ttl_seconds)
            (takes now show_id seat_ids) (acquired_row now fresh_id user_id show.hold_ttl_seconds)
            db.show_seats (hit show) (miss show)
            (candidates_acquirable now show_id seat_ids db unique
              (create_hold_all_free env now fresh_id show_id seat_ids user_id db unique enough))),
    create_hold_rollback,
  )
    where
      taken : Show → ShowSeat → ShowSeat → Type 0
      taken show = IsTaken now show_id seat_ids fresh_id user_id show.hold_ttl_seconds

      hit :
          (show : Show) (r : ShowSeat)
          → (is_candidate show_id seat_ids r ≡ true → is_acquirable now r ≡ true)
          → takes now show_id seat_ids r ≡ true
          → taken show r (acquired_row now fresh_id user_id show.hold_ttl_seconds r)
      hit show r p h =
          (λ c. (is_acquirable-available now r (ground arith), refl), λ c. absurd (ground arith))

      miss :
          (show : Show) (r : ShowSeat)
          → (is_candidate show_id seat_ids r ≡ true → is_acquirable now r ≡ true)
          → takes now show_id seat_ids r ≡ false
          → taken show r r
      miss show r p h = (λ c. absurd (ground (arith, p c)), λ c. refl)
