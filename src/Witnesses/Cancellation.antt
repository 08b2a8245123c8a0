-- ===== src/Witnesses/Cancellation.antt =====
-- The theorems about cancellations and the queue on the database with a booking.
use ticket_booking_system.Common.{◌≡◌, refl, false, true, some, length}
use ticket_booking_system.Sql.{exists, select}
use ticket_booking_system.Sql.Laws.{Rows}
use ticket_booking_system.Payments.{is_captured_for}
use ticket_booking_system.Waitlist.{is_queued, claim_next_waiting_entry, find_queue_position}
use ticket_booking_system.Waitlist.Queue.{
  IsHead, is_claimable_entry, claim_next_waiting_entry-IsHead, claim-find_queue_position,
}
use ticket_booking_system.Cancellation.{is_confirmed_booking}
use ticket_booking_system.Cancellation.Outcome.{
  IsUnbooked, cancel_booking_releases, cancel_booking_refunds,
}
use ticket_booking_system.Fixtures.{env, entry}
use ticket_booking_system.Scenarios.{
  booked_db, cancelled_db, cancelled, crypto, unlocked, offer_mint, runs,
}

cancel_booking_releases_example :
    Rows
      (IsUnbooked cancelled_db.waitlist_offers env.waitlist_max_cascade_attempts 3000 31)
      booked_db.show_seats
      cancelled_db.show_seats
unfolding cancelled_db cancelled
cancel_booking_releases_example =
    cancel_booking_releases crypto env 3000 31 unlocked offer_mint booked_db cancelled cancelled_db
      refl

cancel_booking_refunds_example :
    (cancelled.cancelled ≡ exists (is_confirmed_booking 31) booked_db.bookings)
    × (exists (is_confirmed_booking 31) cancelled_db.bookings ≡ false)
    × (exists (is_captured_for 31) cancelled_db.payments ≡ false)
unfolding cancelled_db cancelled
cancel_booking_refunds_example =
    cancel_booking_refunds crypto env 3000 31 unlocked offer_mint booked_db cancelled cancelled_db
      refl

claim_next_waiting_entry-IsHead_example :
    IsHead
      (is_claimable_entry unlocked 1 7)
      booked_db.waitlist_entries
      (claim_next_waiting_entry unlocked 1 7 booked_db)
claim_next_waiting_entry-IsHead_example = claim_next_waiting_entry-IsHead unlocked 1 7 booked_db

claim-find_queue_position_example :
    find_queue_position (λ a b. true) 1 7 9 booked_db
    ≡ some (record {
      position = 1;
      total = length (select (is_queued 1 7) booked_db.waitlist_entries);
    })
unfolding booked_db runs exists
claim-find_queue_position_example =
    claim-find_queue_position (λ a b. true) 1 7 booked_db entry (refl, tt) ((λ q s. refl), tt) refl
