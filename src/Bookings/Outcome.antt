-- ===== src/Bookings/Outcome.antt =====
-- `confirmBooking` against the hold that it converts: which seats it books, what it charges, and the
-- races that it loses.
use ticket_booking_system.Common.{
  ℕ, suc, ◌+◌, none, some, ◌≡◌, refl, ap, inl, inr, true, false, List, [], ◌∷◌, arith, ◌==◌,
  Bool-cases, length, length-map, ltb_false→le, All, All-mono,
}
use ticket_booking_system.Errors.{ok, hold_expired}
use ticket_booking_system.SeatStates.{booked}
use ticket_booking_system.Sql.{select, exists, gt_null}
use ticket_booking_system.Sql.Laws.{Rows, Rows-update_where, All-select}
use ticket_booking_system.Sql.Counts.{All-select_full, exists-first}
use ticket_booking_system.Db.{Db, ShowSeat, Env}
use ticket_booking_system.Db.Tx.{finish-ok, throw_if, ◌>>=◌, ◌>>◌}
use ticket_booking_system.Pricing.{PricedSeat, priced_seats}
use ticket_booking_system.Holds.{is_held_under}
use ticket_booking_system.Bookings.{
  Mint, Confirmed, confirm_read_seats, confirm_booking, find_hold_seats, is_confirmable, booked_row,
}
use ticket_booking_system.Bookings.Confirm.{Commits, confirm_read_seats-Commits}

-- show_seats.seat_id REFERENCES seats (id)
abbrev pub RefersToSeats : Db → Type 0
RefersToSeats db = All (λ ss. exists (λ s. s.id == ss.seat_id) db.seats ≡ true) db.show_seats

-- No seat is lost in the join.
pub length-priced_seats :
    (db : Db) (rows : List ShowSeat)
    → All (λ ss. exists (λ s. s.id == ss.seat_id) db.seats ≡ true) rows
    → length (priced_seats db rows) ≡ length rows
unfolding priced_seats
length-priced_seats db [] h = refl
length-priced_seats db (ss ∷ rows) h =
    let (s, e) = exists-first (λ s. s.id == ss.seat_id) db.seats h.0 in
    rw (e, length) (ap suc (length-priced_seats db rows h.1))

-- The transaction of `confirmBooking` that commits is one that has read the seats of the hold.
pub confirm_booking-Commits :
    (env : Env) (now : ℕ) (mint : Mint) (hold_id user_id : ℕ) (db : Db) (c : Confirmed) (db' : Db)
    → confirm_booking env now mint hold_id user_id db ≡ (ok c, db')
    → Commits env now mint hold_id user_id (find_hold_seats hold_id db) db c db'
unfolding confirm_booking
confirm_booking-Commits env now mint hold_id user_id db c db' h =
    elim (Bool-cases (length seats == 0)) [
      | inl empty ↦ absurd (cc (rw (empty, ◌>>=◌) at ran))
      | inr some_seats ↦
          confirm_read_seats-Commits env now mint hold_id user_id seats db c db'
            (rw (some_seats, ◌>>=◌) at ran)
    ]
  where
    seats : List PricedSeat
    seats = find_hold_seats hold_id db

    ran :
        (throw_if (length seats == 0) hold_expired
            >> confirm_read_seats env now mint hold_id user_id seats)
          db
        ≡ ok (c, db')
    ran =
        finish-ok db
          ((throw_if (length seats == 0) hold_expired
              >> confirm_read_seats env now mint hold_id user_id seats)
            db)
          h

-- What a confirmation does to a row: a seat held under the hold had not expired and is now booked,
-- any other row stays.
abbrev pub IsConfirmed : ℕ → ℕ → ℕ → ShowSeat → ShowSeat → Type 0
IsConfirmed now hold_id booking_id r t =
    (is_held_under hold_id r ≡ true
      → (gt_null r.expires_at now ≡ true)
        × (t ≡ record r {
          state = booked;
          booking_id = some booking_id;
          expires_at = none;
          hold_id = none;
          version = r.version + 1;
          updated_at = now;
        }))
    × (is_held_under hold_id r ≡ false → t ≡ r)

-- Without a shortfall every seat of the hold is one that the UPDATE books.
pub held_confirmable :
    (env : Env) (now : ℕ) (mint : Mint) (hold_id user_id : ℕ) (db : Db) (c : Confirmed) (db' : Db)
    → RefersToSeats db
    → Commits env now mint hold_id user_id (find_hold_seats hold_id db) db c db'
    → All (λ r. is_held_under hold_id r ≡ true → is_confirmable now hold_id r ≡ true) db.show_seats
unfolding find_hold_seats
held_confirmable env now mint hold_id user_id db c db' fk k =
    All-select_full (is_held_under hold_id) (is_confirmable now hold_id) db.show_seats
      (λ r h. ground arith)
      (omega (
        arith,
        ltb_false→le _ _ k.no_shortfall,
        length-map (λ (s : ShowSeat). s.id) (select (is_confirmable now hold_id) db.show_seats),
        length-priced_seats db (select (is_held_under hold_id) db.show_seats) referring,
      ))
  where
    referring :
        All
          (λ ss. exists (λ s. s.id == ss.seat_id) db.seats ≡ true)
          (select (is_held_under hold_id) db.show_seats)
    referring =
        All-mono
          (λ ss.
            (exists (λ s. s.id == ss.seat_id) db.seats ≡ true) × (is_held_under hold_id ss ≡ true))
          (λ ss. exists (λ s. s.id == ss.seat_id) db.seats ≡ true) _ (λ ss h. h.0)
          (All-select (λ ss. exists (λ s. s.id == ss.seat_id) db.seats ≡ true)
            (is_held_under hold_id) db.show_seats fk)

-- Where every seat row refers to a seat, a confirmation that succeeds books every seat of the hold
-- under the new booking, none of which had expired, and leaves every other seat as it was.
pub confirm_booking_books :
    (env : Env) (now : ℕ) (mint : Mint) (hold_id user_id : ℕ) (db : Db) (c : Confirmed) (db' : Db)
    → RefersToSeats db
    → confirm_booking env now mint hold_id user_id db ≡ (ok c, db')
    → Rows (IsConfirmed now hold_id c.booking.id) db.show_seats db'.show_seats
confirm_booking_books env now mint hold_id user_id db c db' fk h =
    let k = confirm_booking-Commits env now mint hold_id user_id db c db' h in
    rw (k.result, k.state)
      (Rows-update_where (λ r. is_held_under hold_id r ≡ true → is_confirmable now hold_id r ≡ true)
        (IsConfirmed now hold_id mint.booking_id) (is_confirmable now hold_id)
        (booked_row now mint.booking_id) db.show_seats
        (λ r _ e. (λ _. (ground arith, refl), λ f. absurd (ground arith)))
        (λ r p e. (λ f. absurd (ground (arith, p f)), λ _. refl))
        (held_confirmable env now mint hold_id user_id db c db' fk k))
