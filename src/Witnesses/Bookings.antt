-- ===== src/Witnesses/Bookings.antt =====
-- The theorems about bookings on the database with a hold.
use ticket_booking_system.Common.{◌≡◌, refl, false, some, ◌+◌, arith, sum}
use ticket_booking_system.Errors.{ok, is_ok}
use ticket_booking_system.Sql.{exists}
use ticket_booking_system.Sql.Laws.{Rows}
use ticket_booking_system.Db.{Payment, PaymentStatus}
use ticket_booking_system.Pricing.{fees, has_unpriced}
use ticket_booking_system.Payments.{find_payment_by_booking_id}
use ticket_booking_system.Bookings.{confirm_booking, confirm_read_seats, find_hold_seats}
use ticket_booking_system.Bookings.Success.{confirm_booking_succeeds}
use ticket_booking_system.Bookings.Outcome.{IsConfirmed, RefersToSeats, confirm_booking_books}
use ticket_booking_system.Bookings.Charges.{prices, confirm_booking_charges}
use ticket_booking_system.Bookings.Races.{confirm_twice}
use ticket_booking_system.Fixtures.{env, mint}
use ticket_booking_system.Scenarios.{held_db, booked_db, confirmed, runs}

held_db-RefersToSeats : RefersToSeats held_db
unfolding held_db runs exists
held_db-RefersToSeats = (refl, (refl, (refl, tt)))

confirm_booking_books_example :
    Rows (IsConfirmed 2000 21 31) held_db.show_seats booked_db.show_seats
unfolding booked_db confirmed
confirm_booking_books_example =
    confirm_booking_books env 2000 (mint 31) 21 5 held_db confirmed booked_db held_db-RefersToSeats
      refl

confirm_booking_charges_example :
    (has_unpriced (find_hold_seats 21 held_db) ≡ false)
    × (confirmed.booking.subtotal_cents ≡ sum (prices (find_hold_seats 21 held_db)))
    × (confirmed.booking.total_cents
        ≡ confirmed.booking.subtotal_cents + fees 5 confirmed.booking.subtotal_cents)
    × ((p : Payment) × (find_payment_by_booking_id confirmed.booking.id booked_db ≡ some p)
        × (p.status ≡ PaymentStatus.captured)
        × (p.amount_cents ≡ confirmed.booking.total_cents))
unfolding booked_db confirmed
confirm_booking_charges_example =
    confirm_booking_charges env 2000 (mint 31) 21 5 held_db confirmed booked_db refl

confirm_twice_example :
    is_ok (confirm_read_seats env 2001 (mint 32) 21 5 (find_hold_seats 21 held_db) booked_db)
    ≡ false
unfolding booked_db confirmed
confirm_twice_example =
    confirm_twice env 2000 2001 (mint 31) (mint 32) 21 5 5 (find_hold_seats 21 held_db)
      (find_hold_seats 21 held_db) held_db confirmed booked_db refl (omega arith) (omega arith)

confirm_booking_succeeds_example :
    (confirm_booking env 2000 (mint 31) 21 5 held_db).0 ≡ ok confirmed
unfolding held_db confirmed runs exists
confirm_booking_succeeds_example =
    confirm_booking_succeeds env 2000 (mint 31) 21 5 held_db refl refl
      ((λ h. absurd (cc)), ((λ h. refl), ((λ h. refl), tt))) (refl, (refl, (refl, tt))) refl refl
      refl refl
