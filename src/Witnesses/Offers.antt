-- ===== src/Witnesses/Offers.antt =====
-- The theorems about offers on the database after the cancellation.
use ticket_booking_system.Common.{◌≡◌, refl, true, false, some, arith}
use ticket_booking_system.Errors.{is_ok}
use ticket_booking_system.Sql.{exists}
use ticket_booking_system.Sql.Laws.{Rows}
use ticket_booking_system.Sql.Keys.{IsUnique}
use ticket_booking_system.Db.{WaitlistOffer}
use ticket_booking_system.Offers.{
  accept_read_offer, find_offer_by_token_hash, is_pending, is_expired,
}
use ticket_booking_system.Holds.Acquire.{same_id}
use ticket_booking_system.Offers.Outcome.{IsClaimed, accept_offer_books, accept_twice}
use ticket_booking_system.Fixtures.{env, mint}
use ticket_booking_system.Scenarios.{cancelled_db, accepted_db, accepted, offer, crypto, runs}

cancelled_db-IsUnique : IsUnique same_id cancelled_db.show_seats
unfolding cancelled_db runs exists
cancelled_db-IsUnique = (refl, (refl, (refl, tt)))

accept_offer_books_example :
    (o : WaitlistOffer) × (find_offer_by_token_hash 85 cancelled_db ≡ some o)
    × (is_pending o.status ≡ true)
    × (is_expired 4000 o ≡ false)
    × Rows
        (IsClaimed 4000 o.show_seat_ids accepted.booking.id)
        cancelled_db.show_seats
        accepted_db.show_seats
unfolding accepted_db accepted
accept_offer_books_example =
    accept_offer_books env 4000 (mint 32) crypto 84 cancelled_db accepted accepted_db
      cancelled_db-IsUnique refl

accept_twice_example : is_ok (accept_read_offer env 4001 (mint 33) offer accepted_db) ≡ false
unfolding accepted_db accepted
accept_twice_example =
    accept_twice env 4000 (mint 32) env 4001 (mint 33) offer cancelled_db accepted accepted_db refl
      (omega arith) (omega arith)
