-- ===== src/Bookings/Races.antt =====
-- The races of `confirmBooking`: with itself, with a release of the hold, and with the clock.
-- `confirm_read_seats` is the rest of the transaction after it has read the hold's seats, so these
-- hold whatever was read before the other transaction committed.
use ticket_booking_system.Common.{
  ℕ, ◌≤◌, ◌<◌, ◌≡◌, refl, true, false, List, [], arith, length, All-unit,
}
use ticket_booking_system.Errors.{ok, is_ok, not_ok}
use ticket_booking_system.Sql.{select}
use ticket_booking_system.Sql.Laws.{select-update_where, update_where-select_nil}
use ticket_booking_system.Db.{Db, Env}
use ticket_booking_system.Pricing.{PricedSeat}
use ticket_booking_system.Holds.{is_held_under, release_hold, Reason, freed_row}
use ticket_booking_system.Bookings.{
  Mint, Confirmed, confirm_read_seats, confirm_booking, is_confirmable, booked_row,
}
use ticket_booking_system.Bookings.Confirm.{confirm_read_seats-Commits}
use ticket_booking_system.Bookings.Outcome.{
  RefersToSeats, confirm_booking-Commits, held_confirmable,
}

-- Where no seat is confirmable, a confirmation that has read a seat does not commit.
nothing_confirmable :
    (env : Env) (now : ℕ) (mint : Mint) (hold_id user_id : ℕ) (seats : List PricedSeat) (db : Db)
    → select (is_confirmable now hold_id) db.show_seats ≡ []
    → 0 < length seats
    → is_ok (confirm_read_seats env now mint hold_id user_id seats db) ≡ false
nothing_confirmable env now mint hold_id user_id seats db none_left some_read =
    not_ok (confirm_read_seats env now mint hold_id user_id seats db) λ r h.
      let k = confirm_read_seats-Commits env now mint hold_id user_id seats db r.0 r.1 h in
      ground (arith, rw none_left at k.no_shortfall)

-- After one confirmation of a hold has committed, no other confirmation of the hold that has read a
-- seat of it commits at any later time.
pub confirm_twice :
    (env : Env) (now later : ℕ) (mint mint' : Mint) (hold_id user_id user_id' : ℕ)
    (seats seats' : List PricedSeat) (db : Db) (c : Confirmed) (db' : Db)
    → confirm_read_seats env now mint hold_id user_id seats db ≡ ok (c, db')
    → now ≤ later
    → 0 < length seats'
    → is_ok (confirm_read_seats env later mint' hold_id user_id' seats' db') ≡ false
confirm_twice env now later mint mint' hold_id user_id user_id' seats seats' db c db' h le read =
    let k = confirm_read_seats-Commits env now mint hold_id user_id seats db c db' h in
    nothing_confirmable env later mint' hold_id user_id' seats' db'
      (rw k.state (
        select-update_where (λ r. Unit {0}) (is_confirmable now hold_id)
          (is_confirmable later hold_id) (booked_row now mint.booking_id) db.show_seats
          (λ r _ e. refl) (λ r _ e. ground arith) (All-unit db.show_seats)))
      read

-- A confirmation that has read the seats of a hold before a release of it commits does not commit
-- after it.
pub confirm_after_release :
    (env : Env) (now later : ℕ) (mint : Mint) (hold_id user_id : ℕ) (reason : Reason)
    (seats : List PricedSeat) (db : Db)
    → 0 < length seats
    → let (result, after) = release_hold now hold_id reason db in
      is_ok (confirm_read_seats env later mint hold_id user_id seats after) ≡ false
unfolding release_hold
confirm_after_release env now later mint hold_id user_id reason seats db read =
    nothing_confirmable env later mint hold_id user_id seats (release_hold now hold_id reason db).1
      (select-update_where (λ r. Unit {0}) (is_held_under hold_id) (is_confirmable later hold_id)
        (freed_row now) db.show_seats (λ r _ e. refl) (λ r _ e. ground arith)
        (All-unit db.show_seats))
      read

-- Where every seat row refers to a seat, a release of a hold that has been confirmed frees no seat
-- and leaves the seats as they are.
pub release_after_confirm :
    (env : Env) (now later : ℕ) (mint : Mint) (hold_id user_id : ℕ) (reason : Reason) (db : Db)
    (c : Confirmed) (db' : Db)
    → RefersToSeats db
    → confirm_booking env now mint hold_id user_id db ≡ (ok c, db')
    → let (result, after) = release_hold later hold_id reason db' in
      (result ≡ ok 0) × (after.show_seats ≡ db'.show_seats)
unfolding release_hold
release_after_confirm env now later mint hold_id user_id reason db c db' fk h =
    let k = confirm_booking-Commits env now mint hold_id user_id db c db' h in
    let gone =
      select-update_where
        (λ r. is_held_under hold_id r ≡ true → is_confirmable now hold_id r ≡ true)
        (is_confirmable now hold_id) (is_held_under hold_id) (booked_row now mint.booking_id)
        db.show_seats (λ r _ e. refl) (λ r p e. ground (arith, p))
        (held_confirmable env now mint hold_id user_id db c db' fk k) in
    rw k.state
      (rw gone refl, update_where-select_nil (is_held_under hold_id) (freed_row later) _ gone)
